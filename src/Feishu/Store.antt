-- ===== src/Feishu/Store.antt =====
-- The tables of `FeishuStore` (src/cfr/feishu/store.py). Each method is a function of the store
-- and of `time.time()`; one transaction is one call, and a raised error leaves the store as it was.
pub mod Inbox
pub mod Approvals
pub mod Sessions
pub mod Replies
pub mod Daemon
pub mod Attachments
pub mod Prune
pub mod Chats
use codex_feishu_remoter.Prelude.{ℕ, String, Bool, true, false, Option, List, [], Keyed}
use codex_feishu_remoter.Feishu.Model.{InboxRecord, FeishuSession}

-- feishu_pending_attachments
pub record Attachment : Type 0 where
  pub attachment_id : String
  pub chat_id : String
  pub kind : String
  pub path : String
  pub name : String
  pub source_message_id : Option String
  pub claimed_by_message_id : Option String
  pub claimed_at : Option ℕ
  pub created_at : ℕ

instance abbrev pub attachment_keyed : Keyed Attachment
attachment_keyed = record { key = λ r. r.attachment_id }

-- feishu_surface_state
pub record SurfaceState : Type 0 where
  pub chat_id : String
  pub selected_surface : String
  pub updated_at : ℕ

instance abbrev pub surface_keyed : Keyed SurfaceState
surface_keyed = record { key = λ r. r.chat_id }

-- feishu_chat_bindings
pub record ChatBinding : Type 0 where
  pub chat_id : String
  pub tab_key : String
  pub tab_id : Option String
  pub url : Option String
  pub created_at : ℕ
  pub updated_at : ℕ

instance abbrev pub chat_binding_keyed : Keyed ChatBinding
chat_binding_keyed = record { key = λ r. r.chat_id }

-- feishu_daemon_lease
pub record DaemonLease : Type 0 where
  pub lease_key : String
  pub owner_instance_id : String
  pub owner_pid : ℕ
  pub acquired_at : ℕ
  pub heartbeat_at : ℕ
  pub expires_at : ℕ

instance abbrev pub daemon_lease_keyed : Keyed DaemonLease
daemon_lease_keyed = record { key = λ r. r.lease_key }

pub data ReplyState : Type 0 where
  pending sent failed : ReplyState

-- feishu_replies. `reply_key` is `f'{message_id}|{phase}|{chunk_index}'`.
pub record Reply : Type 0 where
  pub reply_key : String
  pub message_id : String
  pub response_message_id : Option String
  pub state : ReplyState
  pub created_at : ℕ

instance abbrev pub reply_keyed : Keyed Reply
reply_keyed = record { key = λ r. r.reply_key }

-- `APPROVAL_STATES`, and the state `resolved` that `ApprovalBroker` also writes (approvals.py)
pub data ApprovalState : Type 0 where
  pending approved declined cancelled expired orphaned resolved : ApprovalState

abbrev pub is_pending : ApprovalState → Bool
is_pending ApprovalState.pending = true
is_pending _ = false

-- feishu_approvals
pub record Approval : Type 0 where
  pub approval_id : String
  pub codex_request_id : Option String
  pub thread_id : String
  pub turn_id : Option String
  pub kind : String
  pub requester_open_id : String
  pub state : ApprovalState
  pub decision : Option String
  pub created_at : ℕ
  pub expires_at : ℕ
  pub resolved_at : Option ℕ
  pub summary_json : String
  pub card_message_id : Option String
  pub feedback_state : String
  pub feedback_revision : ℕ
  pub feedback_update_failed : Bool
  pub feedback_update_error_code : Option String
  pub feedback_updated_at : Option ℕ

instance abbrev pub approval_keyed : Keyed Approval
approval_keyed = record { key = λ r. r.approval_id }

pub record FeishuStore : Type 0 where
  pub inbox : List InboxRecord
  pub sessions : List FeishuSession
  pub surfaces : List SurfaceState
  pub chat_bindings : List ChatBinding
  pub attachments : List Attachment
  pub daemon_leases : List DaemonLease
  pub replies : List Reply
  pub approvals : List Approval

abbrev pub empty : FeishuStore
empty = record {
  inbox = [];
  sessions = [];
  surfaces = [];
  chat_bindings = [];
  attachments = [];
  daemon_leases = [];
  replies = [];
  approvals = [];
}
