-- ===== src/Feishu/Store/Inbox.antt =====
-- The inbox methods of `FeishuStore`: `enqueue_message`, `claim_next`, `rewrite_queued_text`,
-- `mark_*`, `next_queued_message_id` and `recover_on_startup`.
pub mod Ops
mod Examples
pub mod Claims
pub mod Finished
pub mod Order
pub mod Recovery
use codex_feishu_remoter.Prelude.{
  ℕ, zero, suc, String, ◌≡◌, refl, Bool, true, false, ◌&&◌, ◌==◌, Option, none, some, List, [], ◌∷◌,
  ◌++◌, ltb, leb, eqb, if◌then◌else◌, is_value, lookup, has, where_update, rowcount, where_select,
  order_by, first, take_text,
}
use codex_feishu_remoter.Feishu.Model.{
  Resource, FeishuInboundMessage, InboxRecord, InboxStatus, queued, running, completed, failed,
  ignored, interrupted_on_restart, is_queued, is_running, is_active, inbox_keyed,
}
use codex_feishu_remoter.Feishu.Store.{
  FeishuStore, ReplyState, ApprovalState, Approval, Reply, Attachment, is_pending,
}

-- `json.dumps(message.resources) if message.resources else None`
abbrev encoded : List Resource → Option (List Resource)
encoded [] = none
encoded (r ∷ rs) = some (r ∷ rs)

abbrev pub queued_row : ℕ → FeishuInboundMessage → InboxRecord
queued_row now message = record {
  message_id = message.message_id;
  event_id = message.event_id;
  chat_id = message.chat_id;
  chat_type = message.chat_type;
  sender_open_id = message.sender_open_id;
  message_type = message.message_type;
  text_content = message.text;
  resources_json = encoded message.resources;
  status = queued;
  received_at = now;
  started_at = none;
  completed_at = none;
  response_message_id = none;
  error_code = none;
  error_message = none;
}

-- `insert or ignore`: a row with this primary key stays as it is.
unfoldable pub enqueue_message : ℕ → FeishuInboundMessage → FeishuStore → Bool × FeishuStore
enqueue_message now message s =
    if has message.message_id s.inbox
    then (false, s)
    else (true, record s { inbox = s.inbox ++ queued_row now message ∷ [] })

unfoldable pub get_inbox : String → FeishuStore → Option InboxRecord
get_inbox message_id s = lookup message_id s.inbox

abbrev pub requeued : String → InboxRecord → InboxRecord
requeued text r = record r {
  text_content = some text;
  status = queued;
  started_at = none;
  completed_at = none;
  response_message_id = none;
  error_code = none;
  error_message = none;
}

unfoldable pub rewrite_queued_text : String → String → FeishuStore → Bool × FeishuStore
rewrite_queued_text message_id text s =
    let here : InboxRecord → Bool = λ r. r.message_id == message_id && is_active r.status in
    (eqb (rowcount here s.inbox) 1, record s { inbox = where_update here (requeued text) s.inbox })

abbrev pub received_order : InboxRecord → InboxRecord → Bool
received_order a b = leb a.received_at b.received_at

-- the two `select`s of `claim_next`
unfoldable pub next_to_claim : Option String → List InboxRecord → Option InboxRecord
next_to_claim none inbox =
    first (order_by received_order (where_select (λ r. is_queued r.status) inbox))
next_to_claim (some message_id) inbox =
    first (where_select (λ r. r.message_id == message_id && is_queued r.status) inbox)

abbrev pub started : ℕ → InboxRecord → InboxRecord
started now r = record r { status = running; started_at = some now }

unfoldable pub claim_next : ℕ → Option String → FeishuStore → Option InboxRecord × FeishuStore
claim_next now message_id s = elim (next_to_claim message_id s.inbox) [
  | none ↦ (none, s)
  | some row ↦
      let here : InboxRecord → Bool = λ r. r.message_id == row.message_id && is_queued r.status in
      let s' : FeishuStore = record s { inbox = where_update here (started now) s.inbox } in
      if eqb (rowcount here s.inbox) 1 then (some (started now row), s') else (none, s')
]

unfoldable pub next_queued_message_id : String → FeishuStore → Option String
next_queued_message_id chat_id s =
    elim (first (
      order_by received_order
        (where_select (λ (r : InboxRecord). r.chat_id == chat_id && is_queued r.status) s.inbox))) [
          | none ↦ none
          | some r ↦ some r.message_id
        ]

abbrev pub completed_row : ℕ → Option String → InboxRecord → InboxRecord
completed_row now response_message_id r = record r {
  status = completed;
  completed_at = some now;
  response_message_id = response_message_id;
}

unfoldable pub mark_completed : ℕ → String → Option String → FeishuStore → FeishuStore
mark_completed now message_id response_message_id s = record s {
  inbox =
      where_update (λ (r : InboxRecord). r.message_id == message_id)
        (completed_row now response_message_id) s.inbox;
}

unfoldable pub error_row : InboxStatus → ℕ → String → String → InboxRecord → InboxRecord
error_row status now code message r = record r {
  status = status;
  completed_at = some now;
  error_code = some code;
  error_message = some (take_text 500 message);
}

-- `mark_failed` and `mark_ignored` differ in the status alone.
unfoldable pub mark_error : InboxStatus → ℕ → String → String → String → FeishuStore → FeishuStore
unfolding error_row
mark_error status now message_id code message s = record s {
  inbox =
      where_update (λ (r : InboxRecord). r.message_id == message_id)
        (error_row status now code message) s.inbox;
}

unfoldable pub mark_failed : ℕ → String → String → String → FeishuStore → FeishuStore
unfolding mark_error
mark_failed = mark_error failed

unfoldable pub mark_ignored : ℕ → String → String → String → FeishuStore → FeishuStore
unfolding mark_error
mark_ignored = mark_error ignored

abbrev pub interrupt : InboxRecord → InboxRecord
interrupt r = record r { status = interrupted_on_restart }

abbrev pub is_interrupted : InboxStatus → Bool
is_interrupted interrupted_on_restart = true
is_interrupted _ = false

abbrev pub interrupted_ids : List InboxRecord → String → Bool
interrupted_ids [] id = false
interrupted_ids (r ∷ rs) id =
    let rest = interrupted_ids rs id in
    if r.message_id == id && is_interrupted r.status then true else rest

abbrev pub held_by : List InboxRecord → Option String → Bool
held_by inbox none = false
held_by inbox (some id) = interrupted_ids inbox id

abbrev pub is_pending_reply : ReplyState → Bool
is_pending_reply ReplyState.pending = true
is_pending_reply _ = false

abbrev pub orphan : Approval → Approval
orphan a = record a { state = ApprovalState.orphaned }

-- The queued rows that it returns are whole; the callers read `message_id` and `chat_id`.
unfoldable pub recover_on_startup : FeishuStore → List InboxRecord × FeishuStore
recover_on_startup s =
    let inbox = where_update (λ (r : InboxRecord). is_running r.status) interrupt s.inbox in
    (
      order_by received_order (where_select (λ r. is_queued r.status) inbox),
      record s {
        inbox = inbox;
        attachments =
            where_update (λ a. held_by inbox a.claimed_by_message_id)
              (λ a. record a { claimed_by_message_id = none; claimed_at = none }) s.attachments;
        approvals = where_update (λ a. is_pending a.state) orphan s.approvals;
        replies =
            where_update (λ r. is_pending_reply r.state)
              (λ r. record r { state = ReplyState.failed }) s.replies;
      },
    )
