-- ===== src/Feishu/Gateway.antt =====
-- src/cfr/feishu/gateway.py: what becomes of a message event. The daemon is an interface over the
-- store that it shares with the gateway and a state of its own; the parsing of the SDK's payload
-- gives the message or nothing. One reading of the clock stands for those of an event, and the
-- measured durations are left out.
pub mod Guards
pub mod Redelivery
mod Examples
use codex_feishu_remoter.Prelude.{
  ℕ, String, ◌+◌, Bool, true, false, not, ◌&&◌, ◌||◌, ◌==◌, Option, none, some, List, [], ◌∷◌,
  if◌then◌else◌, or_else, is_null, is_some, strip, is_empty_text, starts_with_slash, Outcome, ok,
  raised,
}
use codex_feishu_remoter.Feishu.Model.{
  Resource, FeishuInboundMessage, is_user, InboxRecord, is_queued,
}
use codex_feishu_remoter.Feishu.Store.{FeishuStore}
use codex_feishu_remoter.Feishu.Store.Inbox.{
  enqueue_message, get_inbox, claim_next, mark_completed, mark_failed, mark_ignored,
}
use codex_feishu_remoter.Feishu.Security.{FeishuSettings, authorize_sender, validate_message_scope}

-- an exception that the daemon raises: its `type(exc).__name__` and its text
pub record DaemonException : Type 0 where
  pub name : String
  pub text : String

pub data GatewayError : Type 0 where
  feishu_command_claim_failed : GatewayError
  of_daemon : DaemonException → GatewayError

-- what `parser.parse` returns
pub record ParsedCommand : Type 0 where
  pub name : String
  pub argument : Option String

-- the parser and the names of the immediate commands
pub record Commands : Type 0 where
  pub parse : Option String → Option ParsedCommand
  pub is_immediate : String → Bool

-- The daemon, with a state `D`. `enqueue_for_chat` is `enqueue` where it has no such method. `commands` is `none` if one of its two attributes is missing, and
-- `consume_user_input_message` if that method is.
pub record Daemon (D : Type 0) : Type 0 where
  pub commands : Option Commands
  pub consume_user_input_message :
      Option (FeishuInboundMessage → FeishuStore × D → Bool × (FeishuStore × D))
  pub handle_control_command :
      FeishuInboundMessage
      → FeishuStore × D
      → Outcome DaemonException (List String) × (FeishuStore × D)
  pub enqueue_for_chat : String → String → FeishuStore × D → FeishuStore × D

pub record Metrics : Type 0 where
  pub received : ℕ
  pub deduped : ℕ
  pub ignored : ℕ

pub record World (D : Type 0) : Type 0 where
  pub shared : FeishuStore × D
  pub metrics : Metrics

-- the dictionary that is returned, by its `status`
pub data Reply : Type 0 where
  ignored : String → Reply
  deduped codex_user_input command queued queued_command : Reply

abbrev pub ignored_for : String → Outcome GatewayError Reply
ignored_for reason = ok (ignored reason)

abbrev pub is_text : FeishuInboundMessage → Bool
is_text m = m.message_type == "text"

-- `(message.text or '').strip()`
abbrev pub stripped : FeishuInboundMessage → String
stripped m = strip (or_else m.text "")

abbrev pub attachment_type : String → Option String
attachment_type message_type =
    if message_type == "image"
    then some "image"
    else if message_type == "file"
    then some "file"
    else if message_type == "media" || message_type == "video"
    then some "video"
    else none

abbrev has_file : Option String → Bool
has_file none = false
has_file (some key) = not (key == "")

-- `any(…)` over the resources
abbrev pub has_resource : Option String → List Resource → Bool
has_resource none resources = false
has_resource (some kind) [] = false
has_resource (some kind) (r ∷ rs) =
    (r.type == kind && has_file r.file_key) || has_resource (some kind) rs

abbrev pub last : List String → Option String
last [] = none
last (id ∷ []) = some id
last (id ∷ next ∷ ids) = last (next ∷ ids)

abbrev same_text : Option String → Option String → Bool
same_text none none = true
same_text none (some b) = false
same_text (some a) none = false
same_text (some a) (some b) = a == b

-- the redirect that reuses its own row: `daemon` has rewritten its text
abbrev pub is_rewritten : FeishuInboundMessage → Option InboxRecord → Bool
is_rewritten m none = false
is_rewritten m (some r) = is_queued r.status && not (same_text r.text_content m.text)

-- the guards, in the order of the code
abbrev pub refusal : FeishuSettings → FeishuInboundMessage → Option String
refusal settings m =
    if m.message_id == "" || (m.chat_id == "" || m.sender_open_id == "")
    then some "INVALID_MESSAGE"
    else if not (is_user m)
    then some "NON_USER_SENDER"
    else if not (authorize_sender m settings)
    then some "UNAUTHORIZED_SENDER"
    else if not (validate_message_scope m settings)
    then some "GROUPS_DISABLED"
    else none

-- what a call returns or raises, and the world after it
abbrev pub Result : Type 0 → Type 0
Result D = Outcome GatewayError Reply × World D

module _ {D : Type 0} where
  -- a change of the store alone
  abbrev pub with_store : FeishuStore → World D → World D
  with_store s w = record w { shared = (s, w.shared.1) }

  abbrev pub count_ignored : World D → World D
  count_ignored w = record w { metrics = record w.metrics { ignored = w.metrics.ignored + 1 } }

  abbrev pub count_deduped : World D → World D
  count_deduped w = record w { metrics = record w.metrics { deduped = w.metrics.deduped + 1 } }

  -- `insert` is what `enqueue_message` did.
  abbrev pub ignore_empty : ℕ → FeishuInboundMessage → World D → Bool × FeishuStore → Result D
  ignore_empty now m w (false, s) = (ok deduped, count_deduped (with_store s w))
  ignore_empty now m w (true, s) = (
    ignored_for "EMPTY_TEXT",
    count_ignored (
        with_store
          (mark_ignored now m.message_id "EMPTY_TEXT" "Text message has no executable content" s)
          w),
  )

  abbrev pub ignore_stored :
      ℕ → String → String → FeishuInboundMessage → World D → Bool × FeishuStore → Result D
  ignore_stored now code text m w (false, s) = (ignored_for code, with_store s w)
  ignore_stored now code text m w (true, s) =
      (ignored_for code, with_store (mark_ignored now m.message_id code text s) w)

  abbrev pub complete_unless : Bool → ℕ → FeishuInboundMessage → List String → World D → Result D
  complete_unless true now m ids w = (ok command, w)
  complete_unless false now m ids w =
      (ok command, with_store (mark_completed now m.message_id (last ids) w.shared.0) w)

  -- `redirect` tells whether a rewritten row is to be looked for.
  abbrev pub after_command :
      Bool
      → ℕ
      → FeishuInboundMessage
      → World D
      → Outcome DaemonException (List String) × (FeishuStore × D)
      → Result D
  after_command redirect now m w (raised e, shared) = (
    raised (of_daemon e),
    record w { shared = (mark_failed now m.message_id e.name e.text shared.0, shared.1) },
  )
  after_command redirect now m w (ok ids, shared) =
      complete_unless (redirect && is_rewritten m (get_inbox m.message_id shared.0)) now m ids
        (record w { shared = shared })

  abbrev pub run_claimed :
      Daemon D
      → Bool
      → ℕ
      → FeishuInboundMessage
      → World D
      → Option InboxRecord × FeishuStore
      → Result D
  run_claimed d redirect now m w (none, s) = (raised feishu_command_claim_failed, with_store s w)
  run_claimed d redirect now m w (some row, s) =
      after_command redirect now m w (d.handle_control_command m (s, w.shared.1))

  abbrev pub run_reserved :
      Daemon D → Bool → ℕ → FeishuInboundMessage → World D → Bool × FeishuStore → Result D
  run_reserved d redirect now m w (false, s) = (ok deduped, count_deduped (with_store s w))
  run_reserved d redirect now m w (true, s) =
      run_claimed d redirect now m w (claim_next now (some m.message_id) s)

  abbrev pub hand_over : Option (Daemon D) → FeishuInboundMessage → World D → World D
  hand_over none m w = w
  hand_over (some d) m w = record w { shared = d.enqueue_for_chat m.message_id m.chat_id w.shared }

  abbrev pub queue_up :
      Option (Daemon D) → Reply → FeishuInboundMessage → World D → Bool × FeishuStore → Result D
  queue_up daemon reply m w (false, s) = (ok deduped, count_deduped (with_store s w))
  queue_up daemon reply m w (true, s) = (ok reply, hand_over daemon m (with_store s w))

  abbrev pub by_command :
      Daemon D → Commands → ℕ → FeishuInboundMessage → World D → Option ParsedCommand → Result D
  by_command d c now m w none = queue_up (some d) queued m w (enqueue_message now m w.shared.0)
  by_command d c now m w (some parsed) =
      if c.is_immediate parsed.name
      then run_reserved d (parsed.name == "redirect") now m w (enqueue_message now m w.shared.0)
      else queue_up (some d) queued_command m w (enqueue_message now m w.shared.0)

  abbrev pub by_commands :
      Daemon D → Option Commands → ℕ → FeishuInboundMessage → World D → Result D
  by_commands d none now m w = run_reserved d false now m w (enqueue_message now m w.shared.0)
  by_commands d (some c) now m w = by_command d c now m w (c.parse m.text)

  -- a text that begins with a slash
  abbrev pub by_slash : Option (Daemon D) → ℕ → FeishuInboundMessage → World D → Result D
  by_slash none now m w = (ignored_for "CONTROL_RUNTIME_NOT_READY", w)
  by_slash (some d) now m w = by_commands d d.commands now m w

  abbrev pub route : Option (Daemon D) → ℕ → FeishuInboundMessage → World D → Result D
  route daemon now m w =
      if is_text m && is_empty_text (stripped m)
      then ignore_empty now m w (enqueue_message now m w.shared.0)
      else if not (is_text m) && is_null (attachment_type m.message_type)
      then ignore_stored now "UNSUPPORTED_MESSAGE_TYPE"
          "CFR currently supports text, image, file, and video messages" m w
          (enqueue_message now m w.shared.0)
      else if is_some (attachment_type m.message_type)
          && not (has_resource (attachment_type m.message_type) m.resources)
      then ignore_stored now "FEISHU_ATTACHMENT_RESOURCE_MISSING"
          "Attachment message has no downloadable resource" m w (enqueue_message now m w.shared.0)
      else if is_text m && starts_with_slash (stripped m)
      then by_slash daemon now m w
      else queue_up daemon queued m w (enqueue_message now m w.shared.0)

  abbrev pub consumed_or :
      Option (Daemon D) → ℕ → FeishuInboundMessage → World D → Bool × (FeishuStore × D) → Result D
  consumed_or daemon now m w (true, shared) = (ok codex_user_input, record w { shared = shared })
  consumed_or daemon now m w (false, shared) = route daemon now m (record w { shared = shared })

  abbrev pub consume_with :
      Option (FeishuInboundMessage → FeishuStore × D → Bool × (FeishuStore × D))
      → FeishuInboundMessage
      → FeishuStore × D
      → Bool × (FeishuStore × D)
  consume_with none m shared = (false, shared)
  consume_with (some consume) m shared = consume m shared

  -- An answer to a question of the running turn is taken by the daemon.
  abbrev pub consume :
      Option (Daemon D) → FeishuInboundMessage → FeishuStore × D → Bool × (FeishuStore × D)
  consume none m shared = (false, shared)
  consume (some d) m shared =
      if is_text m then consume_with d.consume_user_input_message m shared else (false, shared)

  abbrev pub unless_refused :
      Option (Daemon D) → ℕ → FeishuInboundMessage → World D → Option String → Result D
  unless_refused daemon now m w (some reason) = (ignored_for reason, count_ignored w)
  unless_refused daemon now m w none = consumed_or daemon now m w (consume daemon m w.shared)

  abbrev pub count_received : World D → World D
  count_received w = record w { metrics = record w.metrics { received = w.metrics.received + 1 } }

  unfoldable pub handle_message_event :
      FeishuSettings → Option (Daemon D) → ℕ → Option FeishuInboundMessage → World D → Result D
  handle_message_event settings daemon now none w =
      (ignored_for "INVALID_MESSAGE", count_ignored (count_received w))
  handle_message_event settings daemon now (some m) w =
      unless_refused daemon now m (count_received w) (refusal settings m)
