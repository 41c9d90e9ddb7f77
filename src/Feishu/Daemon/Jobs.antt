-- ===== src/Feishu/Daemon/Jobs.antt =====
-- src/cfr/feishu/daemon.py: what a worker does with a message. The handlers of attachments, commands
-- and prompts, the parser, the removal of cached files and the reply to an error are an interface
-- over the store and a state of their own. The locks of `_dispatch` are not modelled: a call is whole.
pub mod Outcomes
mod Examples
use codex_feishu_remoter.Prelude.{
  ℕ, zero, suc, String, Bool, true, false, ◌||◌, ◌==◌, Option, none, some, List, [], ◌∷◌, map,
  if◌then◌else◌, or_else, Outcome, ok, raised,
}
use codex_feishu_remoter.Feishu.Model.{FeishuInboundMessage, InboxRecord}
use codex_feishu_remoter.Feishu.Store.{FeishuStore, Attachment}
use codex_feishu_remoter.Feishu.Store.Inbox.{claim_next, mark_completed, mark_failed}
use codex_feishu_remoter.Feishu.Store.Attachments.{
  list_claimed_attachments, release_claimed_attachments, clear_pending_attachments,
}
use codex_feishu_remoter.Feishu.Store.Sessions.{get_selected_surface_or_none}
use codex_feishu_remoter.Feishu.Gateway.{ParsedCommand}

-- a `StructuredError` with its code and message, or another exception with its type and text
pub data Fault : Type 0 where
  structured unexpected : String → String → Fault

abbrev pub fault_code : Fault → String
fault_code (structured code message) = code
fault_code (unexpected name text) = name

abbrev pub fault_text : Fault → String
fault_text (structured code message) = message
fault_text (unexpected name text) = text

-- The message that the sender is told is that of a structured error; the other texts stay in the log.
abbrev pub told : Fault → String
told (structured code message) = message
told (unexpected name text) = "CFR 内部执行失败；详细错误已记录到本机运行日志。"

-- a handler's ids of replies, where a reply that is under way has none, or its exception
abbrev pub Handled : Type 0 → Type 0
Handled W = Outcome Fault (List (Option String)) × (FeishuStore × W)

pub record Handlers (W : Type 0) : Type 0 where
  pub parse : Option String → Option ParsedCommand
  pub handle_attachment_message : FeishuInboundMessage → FeishuStore × W → Handled W
  pub handle_command : FeishuInboundMessage → ParsedCommand → FeishuStore × W → Handled W
  pub handle_prompt : FeishuInboundMessage → InboxRecord → FeishuStore × W → Handled W
  pub error_reply : FeishuInboundMessage → String → FeishuStore × W → FeishuStore × W
  pub remove_cached : List String → W → W

abbrev pub is_attachment : String → Bool
is_attachment message_type =
    message_type == "image"
    || (message_type == "file" || (message_type == "media" || message_type == "video"))

-- `command.name in {'stop', 'steer', 'redirect'}`
abbrev pub interrupts : String → Bool
interrupts name = name == "stop" || (name == "steer" || name == "redirect")

abbrev pub last_id : List (Option String) → Option String
last_id [] = none
last_id (id ∷ []) = id
last_id (id ∷ next ∷ ids) = last_id (next ∷ ids)

-- the message that a row of the inbox was made of
abbrev pub message_of : InboxRecord → FeishuInboundMessage
message_of r = record {
  event_id = r.event_id;
  message_id = r.message_id;
  chat_id = r.chat_id;
  chat_type = r.chat_type;
  sender_open_id = r.sender_open_id;
  sender_type = "user";
  message_type = r.message_type;
  text = r.text_content;
  mentioned_bot = false;
  sender_is_bot = false;
  resources = or_else r.resources_json [];
}

abbrev pub selected_surface : String → String → FeishuStore → String
selected_surface default chat_id s = nonempty (get_selected_surface_or_none chat_id s)
  where
    nonempty : Option String → String
    nonempty none = default
    nonempty (some surface) = if surface == "" then default else surface

module _ {W : Type 0} (h : Handlers W) where
  abbrev pub command_or_prompt :
      Option ParsedCommand → FeishuInboundMessage → InboxRecord → FeishuStore × W → Handled W
  command_or_prompt (some command) message row shared = h.handle_command message command shared
  command_or_prompt none message row shared = h.handle_prompt message row shared

  -- On either surface a command is handled as one, and any other text is a prompt; the surfaces
  -- differ in the locks.
  abbrev pub by_surface :
      Bool → Option ParsedCommand → FeishuInboundMessage → InboxRecord → FeishuStore × W → Handled W
  by_surface true command message row shared = command_or_prompt command message row shared
  by_surface false command message row shared = command_or_prompt command message row shared

  abbrev pub dispatch_text :
      String
      → Option ParsedCommand
      → FeishuInboundMessage
      → InboxRecord
      → FeishuStore × W
      → Handled W
  dispatch_text default none message row shared =
      by_surface (selected_surface default message.chat_id shared.0 == "chat") none message row
        shared
  dispatch_text default (some command) message row shared =
      if interrupts command.name
      then h.handle_command message command shared
      else by_surface (selected_surface default message.chat_id shared.0 == "chat") (some command)
          message row shared

  unfoldable pub dispatch :
      String → FeishuInboundMessage → InboxRecord → FeishuStore × W → Handled W
  dispatch default message row shared =
      if is_attachment message.message_type
      then h.handle_attachment_message message shared
      else dispatch_text default (h.parse message.text) message row shared

  -- `completed`, and what is shared after the row has its outcome
  abbrev pub record_outcome : ℕ → FeishuInboundMessage → Handled W → Bool × (FeishuStore × W)
  record_outcome now message (ok ids, (s, w)) =
      (true, (mark_completed now message.message_id (last_id ids) s, w))
  record_outcome now message (raised e, (s, w)) = (
    false,
    h.error_reply message (told e)
        (mark_failed now message.message_id (fault_code e) (fault_text e) s, w),
  )

  -- the attachments that a prompt has claimed: they are used up, or free again
  abbrev pub settle :
      FeishuInboundMessage → List Attachment → Bool × (FeishuStore × W) → FeishuStore × W
  settle message [] (completed, shared) = shared
  settle message (a ∷ claimed) (true, (s, w)) = (
    clear_pending_attachments message.chat_id
        (map (λ (b : Attachment). b.attachment_id) (a ∷ claimed)) s,
    h.remove_cached (map (λ (b : Attachment). b.path) (a ∷ claimed)) w,
  )
  settle message (a ∷ claimed) (false, (s, w)) =
      ((release_claimed_attachments message.message_id s).1, w)

  abbrev pub settle_claimed : FeishuInboundMessage → Bool × (FeishuStore × W) → FeishuStore × W
  settle_claimed message (completed, (s, w)) =
      settle message (list_claimed_attachments message.message_id s) (completed, (s, w))

  abbrev pub process_claimed :
      String → ℕ → W → Option InboxRecord × FeishuStore → Option InboxRecord × (FeishuStore × W)
  process_claimed default now w (none, s) = (none, (s, w))
  process_claimed default now w (some row, s) = (
    some row,
    settle_claimed (message_of row)
        (record_outcome now (message_of row) (dispatch default (message_of row) row (s, w))),
  )

  unfoldable pub process_one :
      String → ℕ → Option String → FeishuStore × W → Option InboxRecord × (FeishuStore × W)
  process_one default now message_id (s, w) =
      process_claimed default now w (claim_next now message_id s)

  abbrev pub count_on :
      (FeishuStore × W → ℕ × (FeishuStore × W))
      → Option InboxRecord × (FeishuStore × W)
      → ℕ × (FeishuStore × W)
  count_on rest (none, shared) = (0, shared)
  count_on rest (some row, shared) = let more = rest shared in (suc more.0, more.1)

  -- with a limit
  unfoldable pub process_pending : String → ℕ → ℕ → FeishuStore × W → ℕ × (FeishuStore × W)
  process_pending default now zero shared = (0, shared)
  process_pending default now (suc limit) shared =
      count_on (process_pending default now limit) (process_one default now none shared)
