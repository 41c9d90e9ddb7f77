-- ===== src/Feishu/Store/Approvals.antt =====
-- The approval methods of `FeishuStore`: the decision of an approval and the feedback state that
-- its card shows.
pub mod Ops
mod Examples
pub mod Decisions
pub mod Feedback
use codex_feishu_remoter.Prelude.{
  ℕ, zero, suc, String, ◌≡◌, refl, Bool, true, false, not, ◌&&◌, ◌||◌, ◌==◌, Option, none, some,
  List, [], ◌∷◌, ◌++◌, ltb, leb, eqb, if◌then◌else◌, is_value, is_null, or_else, lookup, has,
  where_update, rowcount, where_select, order_by, first, Outcome, ok, raised, max, take_text,
  text_leb,
}
use codex_feishu_remoter.Feishu.Model.{
  ErrorCode, integrity_error, feishu_approval_feedback_state_invalid,
}
use codex_feishu_remoter.Feishu.Store.{
  FeishuStore, Approval, ApprovalState, is_pending, pending, expired, approval_keyed,
}

-- the attributes of `request` that `create_approval` reads
pub record ApprovalRequest : Type 0 where
  pub request_id : String
  pub thread_id : String
  pub turn_id : Option String
  pub kind : String

abbrev pub new_approval : ℕ → String → ApprovalRequest → String → ℕ → String → Approval
new_approval now approval_id request requester_open_id expires_at summary_json = record {
  approval_id = approval_id;
  codex_request_id = some request.request_id;
  thread_id = request.thread_id;
  turn_id = request.turn_id;
  kind = request.kind;
  requester_open_id = requester_open_id;
  state = ApprovalState.pending;
  decision = none;
  created_at = now;
  expires_at = expires_at;
  resolved_at = none;
  summary_json = summary_json;
  card_message_id = none;
  feedback_state = "PENDING";
  feedback_revision = 0;
  feedback_update_failed = false;
  feedback_update_error_code = none;
  feedback_updated_at = none;
}

-- A plain `insert`: a second row with the key is an integrity error, and nothing is written.
unfoldable pub create_approval :
    ℕ
    → String
    → ApprovalRequest
    → String
    → ℕ
    → String
    → FeishuStore
    → Outcome ErrorCode (Unit {0}) × FeishuStore
create_approval now approval_id request requester_open_id expires_at summary_json s =
    if has approval_id s.approvals then (raised integrity_error, s) else (
      ok tt,
      record s {
        approvals =
            s.approvals
            ++ new_approval now approval_id request requester_open_id expires_at summary_json ∷ [];
      },
    )

unfoldable pub get_approval : String → FeishuStore → Option Approval
get_approval approval_id s = lookup approval_id s.approvals

-- `order by created_at desc`
abbrev newest_first : Approval → Approval → Bool
newest_first a b = leb b.created_at a.created_at

unfoldable pub find_approval_by_request_id : String → FeishuStore → Option Approval
find_approval_by_request_id request_id s =
    first (
      order_by newest_first
        (where_select (λ a. is_value a.codex_request_id request_id) s.approvals))

-- `order by created_at asc, approval_id asc`
abbrev pub oldest_first : Approval → Approval → Bool
oldest_first a b =
    ltb a.created_at b.created_at
    || eqb a.created_at b.created_at && text_leb a.approval_id b.approval_id

unfoldable pub list_approvals_for_turn : Option String → Option String → FeishuStore → List Approval
list_approvals_for_turn (some thread_id) (some turn_id) s =
    order_by oldest_first
      (where_select (λ a. a.thread_id == thread_id && is_value a.turn_id turn_id) s.approvals)
list_approvals_for_turn _ _ s = []

abbrev pub with_card : String → Approval → Approval
with_card card_message_id a = record a { card_message_id = some card_message_id }

unfoldable pub bind_approval_card : String → String → FeishuStore → Bool × FeishuStore
bind_approval_card approval_id card_message_id s =
    let here : Approval → Bool = λ a. a.approval_id == approval_id && is_null a.card_message_id in
    (
      eqb (rowcount here s.approvals) 1,
      record s { approvals = where_update here (with_card card_message_id) s.approvals },
    )

-- `FEEDBACK_RANKS.get(state)`
unfoldable pub feedback_rank : String → Option ℕ
feedback_rank state =
    if state == "PENDING"
    then some 0
    else if state == "ACKNOWLEDGED_PROCESSING"
    then some 2
    else if state == "APPROVED" || state == "DECLINED" || state == "EXECUTION_FAILED"
    then some 3
    else none

-- `row['feedback_state'] or 'PENDING'`
abbrev pub current_feedback : Approval → String
current_feedback a = if a.feedback_state == "" then "PENDING" else a.feedback_state

abbrev pub current_rank : Approval → ℕ
current_rank a = or_else (feedback_rank (current_feedback a)) a.feedback_revision

abbrev pub advanced : ℕ → String → ℕ → Approval → Approval
advanced now state revision a = record a {
  feedback_state = state;
  feedback_revision = revision;
  feedback_updated_at = some now;
}

abbrev pub move_feedback :
    ℕ → String → String → ℕ → FeishuStore → Option Approval → Bool × FeishuStore
move_feedback now approval_id state target_rank s none = (false, s)
move_feedback now approval_id state target_rank s (some row) =
    if ltb target_rank (current_rank row)
      || leb 3 (current_rank row) && not (current_feedback row == state)
    then (false, s)
    else (
      true,
      record s {
        approvals =
            where_update (λ (a : Approval). a.approval_id == approval_id)
              (advanced now state (max target_rank row.feedback_revision)) s.approvals;
      },
    )

abbrev pub feedback_to :
    ℕ → String → String → FeishuStore → Option ℕ → Outcome ErrorCode Bool × FeishuStore
feedback_to now approval_id state s none = (raised feishu_approval_feedback_state_invalid, s)
feedback_to now approval_id state s (some target_rank) =
    let (moved, s') =
      move_feedback now approval_id state target_rank s (lookup approval_id s.approvals) in
    (ok moved, s')

unfoldable pub transition_feedback :
    ℕ → String → String → FeishuStore → Outcome ErrorCode Bool × FeishuStore
transition_feedback now approval_id state s =
    feedback_to now approval_id state s (feedback_rank state)

unfoldable pub update_failed : ℕ → String → Approval → Approval
update_failed now error_code a = record a {
  feedback_update_failed = true;
  feedback_update_error_code = some (take_text 120 error_code);
  feedback_updated_at = some now;
}

unfoldable pub mark_feedback_update_failed : ℕ → String → String → FeishuStore → FeishuStore
unfolding update_failed
mark_feedback_update_failed now approval_id error_code s = record s {
  approvals =
      where_update (λ (a : Approval). a.approval_id == approval_id) (update_failed now error_code)
        s.approvals;
}

abbrev pub update_succeeded : ℕ → Approval → Approval
update_succeeded now a = record a {
  feedback_update_failed = false;
  feedback_update_error_code = none;
  feedback_updated_at = some now;
}

unfoldable pub mark_feedback_update_succeeded : ℕ → String → FeishuStore → FeishuStore
mark_feedback_update_succeeded now approval_id s = record s {
  approvals =
      where_update (λ (a : Approval). a.approval_id == approval_id) (update_succeeded now)
        s.approvals;
}

abbrev pub settled : ℕ → String → ApprovalState → Approval → Approval
settled now decision state a = record a {
  state = state;
  decision = some decision;
  resolved_at = some now;
}

unfoldable pub resolve_approval :
    ℕ → String → String → ApprovalState → FeishuStore → Bool × FeishuStore
resolve_approval now approval_id decision state s =
    let here : Approval → Bool = λ a. a.approval_id == approval_id && is_pending a.state in
    (
      eqb (rowcount here s.approvals) 1,
      record s { approvals = where_update here (settled now decision state) s.approvals },
    )

unfoldable pub expire_approval : ℕ → String → FeishuStore → Bool × FeishuStore
unfolding resolve_approval
expire_approval now approval_id s =
    resolve_approval now approval_id "decline" ApprovalState.expired s
