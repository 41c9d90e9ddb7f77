-- ===== src/Feishu/Store/Approvals/Decisions.antt =====
-- How often an approval is decided.
use codex_feishu_remoter.Prelude.{
  ℕ, ◌+◌, ◌≤◌, String, ◌≡◌, refl, inl, inr, Bool, true, false, ◌&&◌, ◌==◌, eq_iff, Option, none,
  some, List, arith, if◌then◌else◌, Option-cases, lookup, lookup-key, lookup-snoc,
  lookup-where_update, rowcount_at_key, where_update, Unique, total, total_bounded, All, Stays,
  Outcome, ok, raised, is_null, max,
}
use codex_feishu_remoter.Feishu.Store.{
  FeishuStore, Approval, ApprovalState, is_pending, approval_keyed, empty,
}
use codex_feishu_remoter.Feishu.Store.Prune.{prune_history}
use codex_feishu_remoter.Feishu.Model.{ErrorCode}
use codex_feishu_remoter.Feishu.Store.Inbox.{orphan, recover_on_startup}
use codex_feishu_remoter.Feishu.Store.Approvals.{
  ApprovalRequest, new_approval, create_approval, bind_approval_card, feedback_rank, move_feedback,
  advanced, feedback_to, transition_feedback, with_card, update_failed, update_succeeded,
  mark_feedback_update_failed, mark_feedback_update_succeeded, settled, resolve_approval,
  expire_approval,
}
use codex_feishu_remoter.Feishu.Store.Approvals.Ops.{
  ApprovalOp, create, bind_card, feedback, feedback_failed, feedback_succeeded, resolve, expire,
  restart, prune, apply, apply-Unique, prune-Stays,
}

-- 1 while an approval is pending
abbrev open_for : Option Approval → ℕ
open_for none = 0
open_for (some a) = if is_pending a.state then 1 else 0

-- 1 if the call decided the approval
abbrev pub decisions_in : String → ApprovalOp → FeishuStore → ℕ
decisions_in id (resolve now which decision state) s =
    if which == id && (resolve_approval now which decision state s).0 then 1 else 0
decisions_in id (expire now which) s =
    if which == id && (expire_approval now which s).0 then 1 else 0
decisions_in id _ s = 0

abbrev succeeded : Outcome ErrorCode (Unit {0}) → ℕ
succeeded (ok done) = 1
succeeded (raised e) = 0

-- 1 if the call created the approval
abbrev pub creations_in : String → ApprovalOp → FeishuStore → ℕ
creations_in id (create now which request requester expires summary) s =
    if which == id
    then succeeded (create_approval now which request requester expires summary s).0
    else 0
creations_in id _ s = 0

-- A decision is a state other than `pending`, as in every call of the broker.
abbrev pub Settles : ApprovalOp → Type 0
Settles (resolve now which decision state) = is_pending state ≡ false
Settles _ = Unit

-- An update that keeps the states, or decides, opens nothing.
update-open :
    (id : String) (p : Approval → Bool) (f : Approval → Approval) (approvals : List Approval)
    → ((a : Approval) → (f a).approval_id ≡ a.approval_id)
    → ((a : Approval) → is_pending a.state ≡ false → is_pending (f a).state ≡ false)
    → open_for (lookup id (where_update p f approvals)) ≤ open_for (lookup id approvals)
update-open id p f approvals keeps closes = elim (Option-cases (lookup id approvals)) [
  | inl absent ↦ ground (arith, absent, lookup-where_update p f keeps id approvals)
  | inr found ↦ ground (arith, found.1, lookup-where_update p f keeps id approvals, closes found.0)
]

move-open :
    (id : String) (now : ℕ) (which state : String) (rank : ℕ) (s : FeishuStore)
    (row : Option Approval)
    → open_for (lookup id (move_feedback now which state rank s row).1.approvals)
      ≤ open_for (lookup id s.approvals)
move-open id now which state rank s none = omega arith
move-open id now which state rank s (some row) = ground (
  arith,
  update-open id (λ a. a.approval_id == which) (advanced now state (max rank row.feedback_revision))
      s.approvals (λ a. refl) (λ a h. h),
)

feedback-open :
    (id : String) (now : ℕ) (which state : String) (s : FeishuStore) (rank : Option ℕ)
    → open_for (lookup id (feedback_to now which state s rank).1.approvals)
      ≤ open_for (lookup id s.approvals)
feedback-open id now which state s none = omega arith
feedback-open id now which state s (some rank) =
    move-open id now which state rank s (lookup which s.approvals)

create-open :
    (id : String) (now : ℕ) (which : String) (request : ApprovalRequest) (requester : String)
    (expires : ℕ) (summary : String) (s : FeishuStore)
    → open_for
        (lookup id (create_approval now which request requester expires summary s).1.approvals)
      ≤ open_for (lookup id s.approvals)
        + (if which == id
            then succeeded (create_approval now which request requester expires summary s).0
            else 0)
unfolding create_approval
create-open id now which request requester expires summary s = ground (
  arith,
  lookup-snoc id s.approvals (new_approval now which request requester expires summary),
  eq_iff which id,
)

resolve-open :
    (id : String) (now : ℕ) (which decision : String) (state : ApprovalState) (s : FeishuStore)
    → Unique s.approvals
    → is_pending state ≡ false
    → (if which == id && (resolve_approval now which decision state s).0 then 1 else 0)
        + open_for (lookup id (resolve_approval now which decision state s).1.approvals)
      ≤ open_for (lookup id s.approvals)
unfolding resolve_approval
resolve-open id now which decision state s u settles =
    let here : Approval → Bool = λ a. a.approval_id == which && is_pending a.state in
    let at : (a : Approval) → here a ≡ true → a.approval_id ≡ which =
      λ a passed. (eq_iff a.approval_id which).0 (ground arith) in
    let after = lookup-where_update here (settled now decision state) (λ a. refl) id s.approvals in
    elim (Option-cases (lookup id s.approvals)) [
      | inl absent ↦
          ground
            (arith, after, absent, eq_iff which id, rowcount_at_key here which s.approvals u at)
      | inr found ↦ ground (
        arith,
        after,
        found.1,
        eq_iff which id,
        eq_iff found.0.approval_id which,
        eq_iff found.0.approval_id id,
        lookup-key id s.approvals found.0 found.1,
        rowcount_at_key here which s.approvals u at,
      )
    ]

row-open : (before after : Option Approval) → Stays before after → open_for after ≤ open_for before
row-open before none h = omega arith
row-open before (some a) h = rw h (omega arith)

step-open :
    (id : String) (op : ApprovalOp) (s : FeishuStore)
    → Settles op
    → Unique s.approvals
    → decisions_in id op s + open_for (lookup id (apply op s).approvals)
      ≤ open_for (lookup id s.approvals) + creations_in id op s
unfolding apply prune_history transition_feedback bind_approval_card mark_feedback_update_failed
    mark_feedback_update_succeeded expire_approval recover_on_startup
step-open id (create now which request requester expires summary) s settles u =
    omega (arith, create-open id now which request requester expires summary s)
step-open id (bind_card which card) s settles u = omega (
  arith,
  update-open id (λ a. a.approval_id == which && is_null a.card_message_id) (with_card card)
      s.approvals (λ a. refl) (λ a h. h),
)
step-open id (feedback now which state) s settles u =
    omega (arith, feedback-open id now which state s (feedback_rank state))
step-open id (feedback_failed now which code) s settles u = omega (
  arith,
  update-open id (λ a. a.approval_id == which) (update_failed now code) s.approvals (λ a. refl)
      (λ a h. h),
)
step-open id (feedback_succeeded now which) s settles u = omega (
  arith,
  update-open id (λ a. a.approval_id == which) (update_succeeded now) s.approvals (λ a. refl)
      (λ a h. h),
)
step-open id (resolve now which decision state) s settles u =
    omega (arith, resolve-open id now which decision state s u settles)
step-open id (expire now which) s settles u =
    omega (arith, resolve-open id now which "decline" ApprovalState.expired s u refl)
step-open id restart s settles u =
    omega
      (arith, update-open id (λ a. is_pending a.state) orphan s.approvals (λ a. refl) (λ a h. refl))
step-open id (prune now opts) s settles u =
    omega (arith, row-open (lookup id s.approvals) _ (prune-Stays now opts id s u))

-- Over any calls on an empty store, restarts and `prune_history` included, in which `resolve_approval`
-- is not given the state `pending`: an approval is decided at most once for each time that
-- `create_approval` creates it, by whatever decision comes first. A decision is a call of
-- `resolve_approval` or `expire_approval` that answers `True`.
pub decided_once :
    (id : String) (ops : List ApprovalOp)
    → All Settles ops
    → total apply (decisions_in id) ops empty ≤ total apply (creations_in id) ops empty
unfolding lookup
decided_once id ops fits = omega (
  arith,
  total_bounded apply Settles (λ s. Unique s.approvals) (λ s. open_for (lookup id s.approvals))
      (decisions_in id) (creations_in id) (λ op s _ u. apply-Unique op s u) (step-open id) ops empty
      fits tt,
)
