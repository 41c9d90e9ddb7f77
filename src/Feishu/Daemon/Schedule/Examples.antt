-- ===== src/Feishu/Daemon/Schedule/Examples.antt =====
-- A chat that a worker has taken, and the theorems at it.
use codex_feishu_remoter.Prelude.{sql, ◌+◌, ◌≤◌, ℕ, ◌≡◌, ◌↔◌, refl, true, false, none, some, []}
use codex_feishu_remoter.Feishu.Model.{FeishuInboundMessage}
use codex_feishu_remoter.Feishu.Store.{FeishuStore, empty}
use codex_feishu_remoter.Feishu.Store.Inbox.{enqueue_message, next_queued_message_id}
use codex_feishu_remoter.Feishu.Daemon.Schedule.{
  finish, check, Scheduler, member, enqueue, take_chat, pick, Steps, stay, then_step, enqueues,
  takes, picks, initial,
}
use codex_feishu_remoter.Feishu.Daemon.Schedule.Counts.{tokens, workers_on}
use codex_feishu_remoter.Feishu.Daemon.Schedule.Exclusive.{
  reachable-OneWorker, Steps-IsExclusive, initial-IsExclusive,
}
use codex_feishu_remoter.Feishu.Daemon.Schedule.Lost.{IsLost, finish-IsLost}

abbrev start : Scheduler ℕ
start = initial 2 empty 0

-- Two messages of one chat are one token.
abbrev busy : Scheduler ℕ
unfolding sql enqueue take_chat
busy = take_chat (enqueue "b" (some "c") (enqueue "a" (some "c") start).1).1

to_busy : Steps start busy
unfolding sql enqueue take_chat busy
to_busy =
    then_step
      (then_step (then_step (stay start) (enqueues "a" (some "c") start))
        (enqueues "b" (some "c") (enqueue "a" (some "c") start).1))
      (takes (enqueue "b" (some "c") (enqueue "a" (some "c") start).1).1 1 refl)

reachable-OneWorker_example :
    (workers_on "c" busy.jobs + tokens "c" busy.queue ≤ 1)
    × ((member "c" busy.scheduled_chats ≡ true)
        ↔ (1 ≤ workers_on "c" busy.jobs + tokens "c" busy.queue))
reachable-OneWorker_example = reachable-OneWorker 2 empty 0 busy "c" to_busy

-- The worker has found nothing to do.
abbrev idle_chat : Scheduler ℕ
unfolding sql enqueue take_chat pick next_queued_message_id busy
idle_chat = pick [] "c" [] busy

to_idle_chat : Steps start idle_chat
unfolding sql enqueue take_chat pick next_queued_message_id busy idle_chat
to_idle_chat = then_step to_busy (picks [] "c" [] busy refl)

abbrev late : FeishuInboundMessage
late = record {
  event_id = none;
  message_id = "late";
  chat_id = "c";
  chat_type = "p2p";
  sender_open_id = "ou_1";
  sender_type = "user";
  message_type = "text";
  text = some "Hi";
  mentioned_bot = false;
  sender_is_bot = false;
  resources = [];
}

abbrev arrived : FeishuStore
unfolding sql enqueue_message
arrived = (enqueue_message 5 late empty).1

finish-IsLost_example :
    let came =
      enqueue "late"
        (some "c")
        (record (check [] "c" [] true idle_chat) { store = arrived; world = 0 }) in
    (came.0 ≡ true)
    × (Steps idle_chat (finish [] "c" [] false came.1) × IsLost "c" (finish [] "c" [] false came.1))
unfolding sql enqueue take_chat pick next_queued_message_id busy idle_chat enqueue_message arrived
finish-IsLost_example =
    finish-IsLost [] "c" [] idle_chat arrived 0 "late"
      (Steps-IsExclusive start idle_chat to_idle_chat (initial-IsExclusive 2 empty 0)) refl refl
      refl refl refl
