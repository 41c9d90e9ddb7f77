-- ===== src/Feishu/Daemon/Jobs/Examples.antt =====
-- A prompt that fails with an attachment that it has claimed, and the theorem at it.
use codex_feishu_remoter.Prelude.{
  sql, inl, inr, Bool-cases, ◌==◌, has, Unique, ℕ, ◌≡◌, refl, true, false, none, some, [], ◌∷◌,
  raised,
}
use codex_feishu_remoter.Feishu.Model.{FeishuInboundMessage, InboxRecord, running, inbox_keyed}
use codex_feishu_remoter.Feishu.Store.{FeishuStore, Attachment, empty}
use codex_feishu_remoter.Feishu.Store.Inbox.{enqueue_message, claim_next, next_to_claim}
use codex_feishu_remoter.Feishu.Daemon.Jobs.{
  Fault, structured, Handlers, is_attachment, selected_surface, message_of, dispatch, process_one,
}
use codex_feishu_remoter.Feishu.Daemon.Jobs.Outcomes.{HasOutcome, process_one-HasOutcome}

abbrev timed_out : Fault
timed_out = structured "CODEX_TURN_TIMEOUT" "The turn timed out"

-- Every handler raises; the state counts the replies to errors.
abbrev failing : Handlers ℕ
failing = record {
  parse = λ text. none;
  handle_attachment_message = λ m shared. (raised timed_out, shared);
  handle_command = λ m command shared. (raised timed_out, shared);
  handle_prompt = λ m row shared. (raised timed_out, shared);
  error_reply = λ m text shared. (shared.0, 1);
  remove_cached = λ paths w. w;
}

abbrev prompt : FeishuInboundMessage
prompt = record {
  event_id = none;
  message_id = "m";
  chat_id = "c";
  chat_type = "p2p";
  sender_open_id = "ou_1";
  sender_type = "user";
  message_type = "text";
  text = some "Hi";
  mentioned_bot = false;
  sender_is_bot = false;
  resources = [];
}

abbrev upload : Attachment
upload = record {
  attachment_id = "a";
  chat_id = "c";
  source_message_id = none;
  kind = "image";
  path = "/inbox/a";
  name = "a";
  created_at = 1;
  claimed_by_message_id = some "m";
  claimed_at = some 2;
}

abbrev waiting : FeishuStore
unfolding sql enqueue_message
waiting = record (enqueue_message 1 prompt empty).1 { attachments = upload ∷ [] }

abbrev running_row : InboxRecord
running_row = record {
  message_id = "m";
  event_id = none;
  chat_id = "c";
  chat_type = "p2p";
  sender_open_id = "ou_1";
  message_type = "text";
  text_content = some "Hi";
  resources_json = none;
  status = running;
  received_at = 1;
  started_at = some 3;
  completed_at = none;
  response_message_id = none;
  error_code = none;
  error_message = none;
}

abbrev claimed : FeishuStore
claimed = record empty { inbox = running_row ∷ []; attachments = upload ∷ [] }

claims : claim_next 3 (some "m") waiting ≡ (some running_row, claimed)
unfolding sql enqueue_message claim_next next_to_claim waiting
claims = refl

keeps_row :
    (m : FeishuInboundMessage) (r : InboxRecord) (shared : FeishuStore × ℕ)
    → has m.message_id shared.0.inbox ≡ true
    → has m.message_id (dispatch failing "code" m r shared).1.0.inbox ≡ true
unfolding dispatch
keeps_row m r shared h = elim (Bool-cases (is_attachment m.message_type)) [
  | inl file ↦ rw file h
  | inr text ↦ elim (Bool-cases (selected_surface "code" m.chat_id shared.0 == "chat")) [
    | inl chat ↦ rw (text, chat) h
    | inr code ↦ rw (text, code) h
  ]
]

waiting-Unique : Unique waiting.inbox
unfolding sql enqueue_message waiting
waiting-Unique = (refl, tt)

process_one-HasOutcome_example :
    HasOutcome
      (dispatch failing "code" (message_of running_row) running_row (claimed, 0))
      "m"
      (process_one failing "code" 3 (some "m") (waiting, 0)).1.0
process_one-HasOutcome_example =
    process_one-HasOutcome failing "code" 3 (some "m") waiting claimed 0 running_row waiting-Unique
      (λ m text shared. refl) keeps_row claims
