-- ===== src/Feishu/Daemon/Schedule/Exclusive.antt =====
-- Every chat has one token, or one worker, while it is scheduled, and else none.
use codex_feishu_remoter.Prelude.{
  ℕ, String, ◌+◌, ◌≤◌, ◌≡◌, refl, ap, inl, inr, Bool, true, false, ◌==◌, ◌↔◌, eq_iff, eq_refl,
  Option, none, some, List, [], ◌∷◌, ◌++◌, arith, if◌then◌else◌, Bool-cases,
}
use codex_feishu_remoter.Feishu.Model.{InboxRecord}
use codex_feishu_remoter.Feishu.Store.{FeishuStore}
use codex_feishu_remoter.Feishu.Store.Inbox.{get_inbox, next_queued_message_id}
use codex_feishu_remoter.Feishu.Daemon.Schedule.{
  Scheduler, Job, Phase, taken, worked, processing, checked, member, schedule, enqueue_row,
  enqueue_chat, enqueue, take_from, take_chat, pick_message, pick, fail, check, finish, at, Step,
  Steps, stay, then_step, enqueues, takes, picks, processes, fails, checks, finishes, changes,
  stops, initial,
}
use codex_feishu_remoter.Feishu.Daemon.Schedule.Counts.{
  tokens, workers_on, one_if, workers_on-append, workers_on-at, tokens-discard, tokens-snoc,
  not_member, member-some,
}

-- For each chat: as many tokens and workers as it is scheduled, which is once at most, and as many
-- workers as it is active.
pub record IsExclusive {W : Type 0} (d : Scheduler W) : Type 0 where
  pub scheduled : (c : String) → tokens c d.scheduled_chats ≡ tokens c d.queue + workers_on c d.jobs
  pub active : (c : String) → tokens c d.active_chats ≡ workers_on c d.jobs
  pub once : (c : String) → tokens c d.scheduled_chats ≤ 1

module _ {W : Type 0} where
  schedule-IsExclusive : (c : String) (d : Scheduler W) → IsExclusive d → IsExclusive (schedule c d)
  schedule-IsExclusive c d h = elim (Bool-cases (member c d.scheduled_chats)) [
    | inl e ↦ rw e (record { scheduled = h.scheduled; active = h.active; once = h.once })
    | inr e ↦ rw e (record {
      scheduled = λ k.
          omega (arith, h.scheduled k, tokens-snoc k c d.scheduled_chats, tokens-snoc k c d.queue);
      active = h.active;
      once = λ k. ground (
        arith,
        h.once k,
        tokens-snoc k c d.scheduled_chats,
        not_member c d.scheduled_chats e,
        eq_iff c k,
      );
    })
  ]

  enqueue_row-IsExclusive :
      (o : Option InboxRecord) (d : Scheduler W) → IsExclusive d → IsExclusive (enqueue_row o d).1
  enqueue_row-IsExclusive none d h = h
  enqueue_row-IsExclusive (some r) d h = schedule-IsExclusive r.chat_id d h

  enqueue_chat-IsExclusive :
      (message_id : String) (chat_id : Option String) (d : Scheduler W)
      → IsExclusive d
      → IsExclusive (enqueue_chat message_id chat_id d).1
  enqueue_chat-IsExclusive message_id none d h =
      enqueue_row-IsExclusive (get_inbox message_id d.store) d h
  enqueue_chat-IsExclusive message_id (some c) d h = elim (Bool-cases (c == "")) [
    | inl e ↦ rw e (enqueue_row-IsExclusive (get_inbox message_id d.store) d h)
    | inr e ↦ rw e (schedule-IsExclusive c d h)
  ]

  enqueue-IsExclusive :
      (message_id : String) (chat_id : Option String) (d : Scheduler W)
      → IsExclusive d
      → IsExclusive (enqueue message_id chat_id d).1
  unfolding enqueue
  enqueue-IsExclusive message_id chat_id d h =
      elim d.stopped
        as (λ b. IsExclusive (if b then (false, d) else enqueue_chat message_id chat_id d).1) [
          | true ↦ h
          | false ↦ enqueue_chat-IsExclusive message_id chat_id d h
        ]

  take_from-IsExclusive :
      (queue : List String) (d : Scheduler W)
      → d.queue ≡ queue
      → IsExclusive d
      → IsExclusive (take_from queue d)
  unfolding tokens workers_on
  take_from-IsExclusive [] d e h = h
  take_from-IsExclusive (c ∷ queue) d e h = elim (Bool-cases (member c d.active_chats)) [
    | inl busy ↦ absurd (
        ground (
          arith,
          h.scheduled c,
          h.active c,
          h.once c,
          member-some c d.active_chats busy,
          ap (tokens c) e,
          eq_refl c,
        ))
    | inr free ↦
        let job : Job = record { chat_id = c; phase = taken } in
        rw free (record {
          scheduled = λ k.
              ground (arith, h.scheduled k, ap (tokens k) e, workers_on-append k d.jobs (job ∷ []));
          active = λ k. ground (
            arith,
            h.active k,
            workers_on-append k d.jobs (job ∷ []),
            tokens-snoc k c d.active_chats,
          );
          once = h.once;
        })
  ]

  -- A step that changes only where a worker stands keeps the counts.
  moved-IsExclusive :
      (d d' : Scheduler W) (before after : List Job) (c : String) (phase phase' : Phase)
      → d.jobs ≡ at before c phase after
      → d'.jobs ≡ at before c phase' after
      → d'.queue ≡ d.queue
      → d'.scheduled_chats ≡ d.scheduled_chats
      → d'.active_chats ≡ d.active_chats
      → IsExclusive d
      → IsExclusive d'
  moved-IsExclusive d d' before after c phase phase' e e' q s a h =
      let same : (k : String) → workers_on k d'.jobs ≡ workers_on k d.jobs = λ k. omega (
        arith,
        ap (workers_on k) e,
        ap (workers_on k) e',
        workers_on-at k c phase before after,
        workers_on-at k c phase' before after,
      ) in
      record {
        scheduled = λ k. omega (arith, same k, h.scheduled k, ap (tokens k) q, ap (tokens k) s);
        active = λ k. omega (arith, same k, h.active k, ap (tokens k) a);
        once = λ k. omega (arith, h.once k, ap (tokens k) s);
      }

  pick_message-IsExclusive :
      (before : List Job) (c : String) (after : List Job) (o : Option String) (d : Scheduler W)
      → d.jobs ≡ at before c taken after
      → IsExclusive d
      → IsExclusive (pick_message before c after o d)
  pick_message-IsExclusive before c after none d e h =
      moved-IsExclusive d _ before after c taken worked e refl refl refl refl h
  pick_message-IsExclusive before c after (some message_id) d e h =
      moved-IsExclusive d _ before after c taken (processing message_id) e refl refl refl refl h

  finish-IsExclusive :
      (before : List Job) (c : String) (after : List Job) (queued : Bool) (d : Scheduler W)
      → d.jobs ≡ at before c (checked queued) after
      → IsExclusive d
      → IsExclusive (finish before c after queued d)
  unfolding finish
  finish-IsExclusive before c after true d e h =
      let here : (k : String)
          → workers_on k d.jobs ≡ workers_on k (before ++ after) + one_if (c == k) =
        λ k. omega (arith, ap (workers_on k) e, workers_on-at k c (checked true) before after) in
      record {
        scheduled = λ k. omega (arith, here k, h.scheduled k, tokens-snoc k c d.queue);
        active = λ k.
            ground (
              arith,
              here k,
              h.scheduled k,
              h.active k,
              h.once k,
              tokens-discard k c d.active_chats,
            );
        once = h.once;
      }
  finish-IsExclusive before c after false d e h =
      let here : (k : String)
          → workers_on k d.jobs ≡ workers_on k (before ++ after) + one_if (c == k) =
        λ k. omega (arith, ap (workers_on k) e, workers_on-at k c (checked false) before after) in
      record {
        scheduled = λ k.
            ground (arith, here k, h.scheduled k, h.once k, tokens-discard k c d.scheduled_chats);
        active = λ k.
            ground (
              arith,
              here k,
              h.scheduled k,
              h.active k,
              h.once k,
              tokens-discard k c d.active_chats,
            );
        once = λ k. ground (arith, h.once k, tokens-discard k c d.scheduled_chats);
      }

  Step-IsExclusive : (d d' : Scheduler W) → Step d d' → IsExclusive d → IsExclusive d'
  unfolding take_chat pick fail check
  Step-IsExclusive _ _ (enqueues message_id chat_id d) h =
      enqueue-IsExclusive message_id chat_id d h
  Step-IsExclusive _ _ (takes d n e) h = take_from-IsExclusive d.queue d refl h
  Step-IsExclusive _ _ (picks before c after d e) h =
      pick_message-IsExclusive before c after (next_queued_message_id c d.store) d e h
  Step-IsExclusive _ _ (processes before c message_id after d s w e) h =
      moved-IsExclusive d _ before after c (processing message_id) worked e refl refl refl refl h
  Step-IsExclusive _ _ (fails before c phase after d r e) h =
      moved-IsExclusive d _ before after c phase worked e refl refl refl refl h
  Step-IsExclusive _ _ (checks before c after readable d e) h =
      moved-IsExclusive d _ before after c worked _ e refl refl refl refl h
  Step-IsExclusive _ _ (finishes before c after queued d e) h =
      finish-IsExclusive before c after queued d e h
  Step-IsExclusive _ _ (changes d s w) h = record {
    scheduled = h.scheduled;
    active = h.active;
    once = h.once;
  }
  Step-IsExclusive _ _ (stops d) h = record {
    scheduled = h.scheduled;
    active = h.active;
    once = h.once;
  }

  pub Steps-IsExclusive : (d d' : Scheduler W) → Steps d d' → IsExclusive d → IsExclusive d'
  Steps-IsExclusive _ _ (stay d) h = h
  Steps-IsExclusive _ _ (then_step {a = a} {b = b} {c = c} run step) h =
      Step-IsExclusive b c step (Steps-IsExclusive a b run h)

  pub initial-IsExclusive :
      (workers : ℕ) (s : FeishuStore) (w : W) → IsExclusive (initial workers s w)
  unfolding tokens workers_on
  initial-IsExclusive workers s w = record {
    scheduled = λ c. refl;
    active = λ c. refl;
    once = λ c. omega arith;
  }

  -- However the threads interleave, a chat has at most one worker, a chat that has one has no token
  -- in the queue, and a chat that has neither is not scheduled, so that the next message enqueues it.
  pub reachable-OneWorker :
      (workers : ℕ) (s : FeishuStore) (w : W) (d : Scheduler W) (c : String)
      → Steps (initial workers s w) d
      → (workers_on c d.jobs + tokens c d.queue ≤ 1)
        × ((member c d.scheduled_chats ≡ true) ↔ (1 ≤ workers_on c d.jobs + tokens c d.queue))
  reachable-OneWorker workers s w d c run =
      let h = Steps-IsExclusive (initial workers s w) d run (initial-IsExclusive workers s w) in
      (
        omega (arith, h.scheduled c, h.once c),
        (
          (λ m. omega (arith, h.scheduled c, member-some c d.scheduled_chats m)),
          λ some_left. elim (Bool-cases (member c d.scheduled_chats)) [
            | inl m ↦ m
            | inr m ↦ absurd (omega (arith, h.scheduled c, not_member c d.scheduled_chats m))
          ],
        ),
      )
