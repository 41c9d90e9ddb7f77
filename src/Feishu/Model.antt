-- ===== src/Feishu/Model.antt =====
-- The records of src/cfr/feishu/models.py, and the statuses and error codes that the store and the
-- gateway name by text. A `float` of `time.time()` is a natural number of clock ticks.
use codex_feishu_remoter.Prelude.{
  ℕ, String, Bool, true, false, not, Option, List, ◌&&◌, ◌||◌, ◌==◌, Keyed,
}

-- one entry of `resources`: its `type` and, where there is one, its `file_key`
pub record Resource : Type 0 where
  pub type : String
  pub file_key : Option String

pub record FeishuInboundMessage : Type 0 where
  pub event_id : Option String
  pub message_id : String
  pub chat_id : String
  pub chat_type : String
  pub sender_open_id : String
  pub sender_type : String
  pub message_type : String
  pub text : Option String
  pub mentioned_bot : Bool
  pub sender_is_bot : Bool
  pub resources : List Resource

unfoldable pub is_user : FeishuInboundMessage → Bool
is_user m = m.sender_type == "user" && not m.sender_is_bot

unfoldable pub is_group : FeishuInboundMessage → Bool
is_group m = m.chat_type == "group" || m.chat_type == "topic"

-- `INBOX_STATES`
pub data InboxStatus : Type 0 where
  queued running completed failed ignored interrupted_on_restart : InboxStatus

abbrev pub is_queued : InboxStatus → Bool
is_queued queued = true
is_queued _ = false

abbrev pub is_running : InboxStatus → Bool
is_running running = true
is_running _ = false

-- `status in ('queued','running')`
abbrev pub is_active : InboxStatus → Bool
is_active queued = true
is_active running = true
is_active _ = false

-- `resources_json` holds the resources that it encodes.
pub record InboxRecord : Type 0 where
  pub message_id : String
  pub event_id : Option String
  pub chat_id : String
  pub chat_type : String
  pub sender_open_id : String
  pub message_type : String
  pub text_content : Option String
  pub resources_json : Option (List Resource)
  pub status : InboxStatus
  pub received_at : ℕ
  pub started_at : Option ℕ
  pub completed_at : Option ℕ
  pub response_message_id : Option String
  pub error_code : Option String
  pub error_message : Option String

instance abbrev pub inbox_keyed : Keyed InboxRecord
inbox_keyed = record { key = λ r. r.message_id }

-- The two states that the store writes.
pub data SessionState : Type 0 where
  pending_initial bound : SessionState

abbrev pub is_pending_initial : SessionState → Bool
is_pending_initial pending_initial = true
is_pending_initial bound = false

-- `pending_settings_json` holds the object that it encodes, a dictionary of strings and nulls.
pub record FeishuSession : Type 0 where
  pub chat_id : String
  pub chat_type : String
  pub owner_open_id : String
  pub state : SessionState
  pub thread_id : Option String
  pub pending_cwd : Option String
  pub pending_settings_json : Option (List (String × Option String))
  pub approval_mode : String
  pub created_at : ℕ
  pub updated_at : ℕ

instance abbrev pub session_keyed : Keyed FeishuSession
session_keyed = record { key = λ r. r.chat_id }

-- The codes of the `StructuredError`s that the modelled code raises.
pub data ErrorCode : Type 0 where
  feishu_session_already_exists feishu_approval_mode_invalid feishu_no_active_session : ErrorCode
  feishu_thread_already_bound feishu_daemon_already_running : ErrorCode
  feishu_approval_feedback_state_invalid feishu_command_claim_failed : ErrorCode
  feishu_surface_invalid feishu_no_pending_session feishu_pending_settings_invalid : ErrorCode
  feishu_attachment_kind_invalid feishu_attachment_file_required : ErrorCode
  file_not_found integrity_error : ErrorCode
