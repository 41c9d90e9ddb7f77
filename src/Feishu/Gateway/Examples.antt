-- ===== src/Feishu/Gateway/Examples.antt =====
-- A gateway with a daemon that knows the command `/stop`, and the theorems at it.
use codex_feishu_remoter.Prelude.{
  sql, ℕ, String, ◌≡◌, ◌⊎◌, refl, false, ◌==◌, Option, none, some, [], ◌∷◌, Outcome, ok,
}
use codex_feishu_remoter.Feishu.Model.{
  FeishuInboundMessage, InboxRecord, InboxStatus, inbox_keyed, is_user,
}
use codex_feishu_remoter.Feishu.Store.{empty}
use codex_feishu_remoter.Feishu.Store.Inbox.{
  queued_row, enqueue_message, get_inbox, claim_next, next_to_claim, mark_completed,
}
use codex_feishu_remoter.Feishu.Security.{FeishuSettings, authorize_sender, validate_message_scope}
use codex_feishu_remoter.Feishu.Gateway.{
  ParsedCommand, Daemon, GatewayError, World, Reply, command, queued, ignored_for, count_ignored,
  count_received, handle_message_event,
}
use codex_feishu_remoter.Feishu.Gateway.Guards.{IsAdmitted, handle_message_event-IsAdmitted}
use codex_feishu_remoter.Feishu.Gateway.Redelivery.{IsInert, handle_message_event-known}

abbrev settings : FeishuSettings
settings = record { allowed_open_ids = "ou_1" ∷ []; enable_group_chats = false }

abbrev text_message : String → String → String → FeishuInboundMessage
text_message id sender text = record {
  event_id = none;
  message_id = id;
  chat_id = "c";
  chat_type = " P2P";
  sender_open_id = sender;
  sender_type = "user";
  message_type = "text";
  text = some text;
  mentioned_bot = false;
  sender_is_bot = false;
  resources = [];
}

abbrev parse_stop : Option String → Option ParsedCommand
parse_stop text = some (record { name = "stop"; argument = none })

-- The daemon counts the commands that it handles and the messages that it is handed.
abbrev daemon : Daemon (ℕ × ℕ)
daemon = record {
  commands = some (record { parse = parse_stop; is_immediate = λ name. name == "stop" });
  consume_user_input_message = none;
  handle_control_command = λ m shared. (ok ("reply" ∷ []), (shared.0, (1, shared.1.1)));
  enqueue_for_chat = λ id chat shared. (shared.0, (shared.1.0, 1));
}

abbrev world : World (ℕ × ℕ)
world = record {
  shared = (empty, (0, 0));
  metrics = record { received = 0; deduped = 0; ignored = 0 };
}

abbrev handle : FeishuInboundMessage → World (ℕ × ℕ) → Outcome GatewayError Reply × World (ℕ × ℕ)
handle m w = handle_message_event settings (some daemon) 5 (some m) w

stops :
    ((handle (text_message "m" "ou_1" " /stop") world).0 ≡ ok command)
    × ((handle (text_message "m" "ou_1" " /stop") world).1.shared.1 ≡ (1, 0))
unfolding sql handle_message_event authorize_sender validate_message_scope is_user enqueue_message
    claim_next next_to_claim mark_completed get_inbox
stops = (refl, refl)

asks : (handle (text_message "m" "ou_1" "hello") world).0 ≡ ok queued
unfolding sql handle_message_event authorize_sender validate_message_scope is_user enqueue_message
asks = refl

refuses : (handle (text_message "m" "ou_2" "/stop") world).0 ≡ ignored_for "UNAUTHORIZED_SENDER"
unfolding sql handle_message_event authorize_sender validate_message_scope is_user
refuses = refl

handle_message_event-IsAdmitted_example :
    ((reason : String) × (handle (text_message "m" "ou_1" "hello") world
        ≡ (ignored_for reason, count_ignored (count_received world))))
    ⊎ ((m : FeishuInboundMessage) × (some (text_message "m" "ou_1" "hello") ≡ some m)
        × IsAdmitted settings m)
handle_message_event-IsAdmitted_example =
    handle_message_event-IsAdmitted settings (some daemon) 5
      (some (text_message "m" "ou_1" "hello")) world

abbrev stopped : World (ℕ × ℕ)
stopped = (handle (text_message "m" "ou_1" "/stop") world).1

abbrev stop_row : InboxRecord
stop_row = record (queued_row 5 (text_message "m" "ou_1" "/stop")) {
  status = InboxStatus.completed;
  started_at = some 5;
  completed_at = some 5;
  response_message_id = some "reply";
}

handle_message_event-known_example :
    IsInert stopped (handle (text_message "m" "ou_1" "/stop") stopped)
unfolding sql handle_message_event authorize_sender validate_message_scope is_user enqueue_message
    claim_next next_to_claim mark_completed get_inbox
handle_message_event-known_example =
    handle_message_event-known settings (some daemon) 5 (text_message "m" "ou_1" "/stop") stopped
      stop_row refl refl
