-- ===== src/Feishu/Store/Approvals/Feedback.antt =====
-- What a card shows after any calls.
use native.Mathlib.Nat.{le_refl, le_trans}
use codex_feishu_remoter.Prelude.{
  ℕ, ◌≤◌, String, ◌≡◌, refl, ap, sym, inl, inr, Bool, true, false, not, ◌&&◌, ◌||◌, ◌==◌, eq_iff,
  Option, none, some, List, ◌∙◌, arith, ltb, leb, Option-cases, Bool-cases, lookup, lookup_same,
  lookup-snoc, lookup-where_update, where_update, run, total, run_keeps_free, Unique, Stays, gone,
  max,
}
use codex_feishu_remoter.Feishu.Store.{FeishuStore, Approval, approval_keyed}
use codex_feishu_remoter.Feishu.Store.Prune.{prune_history}
use codex_feishu_remoter.Feishu.Store.Inbox.{recover_on_startup}
use codex_feishu_remoter.Feishu.Store.Approvals.{
  ApprovalRequest, new_approval, create_approval, bind_approval_card, feedback_rank,
  current_feedback, current_rank, move_feedback, advanced, feedback_to, transition_feedback,
  update_failed, mark_feedback_update_failed, mark_feedback_update_succeeded, resolve_approval,
  expire_approval,
}
use codex_feishu_remoter.Feishu.Store.Approvals.Ops.{
  ApprovalOp, create, bind_card, feedback, feedback_failed, feedback_succeeded, resolve, expire,
  restart, prune, apply, apply-Unique, prune-Stays,
}

or_false : (a b : Bool) → a || b ≡ false → (a ≡ false) × (b ≡ false)
or_false a b h = ground arith

and_not-false : (a b : Bool) → a ≡ true → a && not b ≡ false → b ≡ true
and_not-false a b h k = ground arith

abbrev rank_of : Option Approval → ℕ
rank_of none = 0
rank_of (some a) = current_rank a

abbrev feedback_of : Option Approval → Option String
feedback_of none = none
feedback_of (some a) = some (current_feedback a)

-- the rank of the feedback that the card of an approval shows, 0 if there is no such approval
abbrev pub rank_at : String → FeishuStore → ℕ
rank_at id s = rank_of (lookup id s.approvals)

-- the feedback that the card of an approval shows
abbrev pub feedback_at : String → FeishuStore → Option String
feedback_at id s = feedback_of (lookup id s.approvals)

-- 1 if the call is one of `prune_history` that deletes the approval
abbrev pub deletions_in : String → ApprovalOp → FeishuStore → ℕ
deletions_in id (prune now opts) s =
    gone (lookup id s.approvals) (lookup id (prune_history now opts s).1.approvals)
deletions_in id _ s = 0

abbrev Advances : Option Approval → Option Approval → Type 0
Advances a b = (rank_of a ≤ rank_of b) × (3 ≤ rank_of a → feedback_of b ≡ feedback_of a)

known_not_empty :
    (state : String) (rank : ℕ) → feedback_rank state ≡ some rank → (state == "") ≡ false
known_not_empty state rank h = elim (Bool-cases (state == "")) [
  | inl e ↦ absurd (impossible (ap feedback_rank (sym ((eq_iff state "").0 e)) ∙ h))
  | inr e ↦ e
]
  where
    impossible : feedback_rank "" ≡ some rank → ⊥
    impossible p = unfold feedback_rank in cc

-- An update of the other columns.
update-Advances :
    (id : String) (p : Approval → Bool) (f : Approval → Approval) (approvals : List Approval)
    → ((a : Approval) → (f a).approval_id ≡ a.approval_id)
    → ((a : Approval) → (f a).feedback_state ≡ a.feedback_state)
    → ((a : Approval) → (f a).feedback_revision ≡ a.feedback_revision)
    → Advances (lookup id approvals) (lookup id (where_update p f approvals))
update-Advances id p f approvals keeps shows counts = elim (Option-cases (lookup id approvals)) [
  | inl absent ↦
      rw (lookup-where_update p f keeps id approvals) (rw absent (omega arith, (λ _. refl)))
  | inr found ↦ rw (lookup-where_update p f keeps id approvals) (
      rw found.1 (elim (Bool-cases (p found.0)) [
        | inl hit ↦ rw (hit, shows found.0, counts found.0) (omega arith, (λ _. refl))
        | inr miss ↦ rw miss (omega arith, (λ _. refl))
      ]))
]

-- the two refusals of `transition_feedback`
abbrev refuses : ℕ → String → Approval → Bool
refuses rank state row =
    ltb rank (current_rank row) || leb 3 (current_rank row) && not (current_feedback row == state)

current_feedback-advanced :
    (now : ℕ) (state : String) (rank revision : ℕ) (row : Approval)
    → feedback_rank state ≡ some rank
    → (current_feedback (advanced now state revision row) ≡ state)
      × (current_rank (advanced now state revision row) ≡ rank)
current_feedback-advanced now state rank revision row known =
    rw (known_not_empty state rank known) (refl, rw known)

advanced-Advances :
    (now : ℕ) (state : String) (rank revision : ℕ) (row : Approval)
    → feedback_rank state ≡ some rank
    → refuses rank state row ≡ false
    → Advances (some row) (some (advanced now state revision row))
advanced-Advances now state rank revision row known passed =
    let (shows, ranks) = current_feedback-advanced now state rank revision row known in
    (
      rw ranks (not_below rank (current_rank row) (final passed).0),
      (λ final_rank. ap some (
          shows
          ∙ sym (
              (eq_iff (current_feedback row) state).0
                (same (current_rank row) final_rank (final passed).1)))),
    )
  where
    final :
        refuses rank state row ≡ false
        → (ltb rank (current_rank row) ≡ false)
          × (leb 3 (current_rank row) && not (current_feedback row == state) ≡ false)
    final h = or_false _ _ h

    not_below : (a b : ℕ) → ltb a b ≡ false → b ≤ a
    not_below a b h = ground arith

    same :
        (n : ℕ)
        → 3 ≤ n
        → leb 3 n && not (current_feedback row == state) ≡ false
        → (current_feedback row == state) ≡ true
    same n h k = and_not-false (leb 3 n) _ (ground arith) k

move-Advances :
    (id : String) (now : ℕ) (which state : String) (rank : ℕ) (s : FeishuStore)
    → feedback_rank state ≡ some rank
    → Advances
        (lookup id s.approvals)
        (lookup id (move_feedback now which state rank s (lookup which s.approvals)).1.approvals)
move-Advances id now which state rank s known = elim (Option-cases (lookup which s.approvals)) [
  | inl absent ↦ rw absent (le_refl _, (λ _. refl))
  | inr (row, e) ↦ rw e (elim (Bool-cases (refuses rank state row)) [
    | inl refused ↦ rw refused (le_refl _, (λ _. refl))
    | inr passed ↦ rw passed (moved row e passed)
  ])
]
  where
    moved :
        (row : Approval)
        → lookup which s.approvals ≡ some row
        → refuses rank state row ≡ false
        → Advances (lookup id s.approvals) (
            lookup id (
              where_update
                (λ (a : Approval). a.approval_id == which)
                (advanced now state (max rank row.feedback_revision))
                s.approvals))
    moved row e passed = elim (Option-cases (lookup id s.approvals)) [
      | inl absent ↦
          rw
            (lookup-where_update (λ (a : Approval). a.approval_id == which)
              (advanced now state (max rank row.feedback_revision)) (λ a. refl) id s.approvals)
            (rw absent (omega arith, (λ _. refl)))
      | inr (a, found) ↦
          rw
            (lookup-where_update (λ (a : Approval). a.approval_id == which)
              (advanced now state (max rank row.feedback_revision)) (λ a. refl) id s.approvals)
            (rw found (elim (Bool-cases (a.approval_id == which)) [
              | inl hit ↦
                  let same : a ≡ row =
                    lookup_same which id s.approvals row a e found
                      ((eq_iff a.approval_id which).0 hit) in
                  rw (hit, same)
                    (advanced-Advances now state rank (max rank row.feedback_revision) row known
                      passed)
              | inr miss ↦ rw miss (le_refl _, (λ _. refl))
            ]))
    ]

feedback-Advances :
    (id : String) (now : ℕ) (which state : String) (s : FeishuStore) (rank : Option ℕ)
    → feedback_rank state ≡ rank
    → Advances (lookup id s.approvals) (lookup id (feedback_to now which state s rank).1.approvals)
feedback-Advances id now which state s none known = (le_refl _, (λ _. refl))
feedback-Advances id now which state s (some rank) known =
    move-Advances id now which state rank s known

create-Advances :
    (id : String) (now : ℕ) (which : String) (request : ApprovalRequest) (requester : String)
    (expires : ℕ) (summary : String) (s : FeishuStore)
    → Advances
        (lookup id s.approvals)
        (lookup id (create_approval now which request requester expires summary s).1.approvals)
unfolding create_approval
create-Advances id now which request requester expires summary s =
    let added =
      lookup-snoc id s.approvals (new_approval now which request requester expires summary) in
    elim (Option-cases (lookup id s.approvals)) [
      | inl absent ↦ rw absent (omega arith, (λ final. absurd (omega arith)))
      | inr present ↦ (ground (arith, added, present.1), (λ _. ground (arith, added, present.1)))
    ]

row-Advances :
    (before after : Option Approval)
    → Stays before after
    → gone before after ≡ 0
    → Advances before after
row-Advances none none h e = (omega arith, (λ _. refl))
row-Advances (some a) none h e = absurd (omega (arith, e))
row-Advances before (some b) h e = rw h (le_refl _, (λ _. refl))

step-Advances :
    (id : String) (op : ApprovalOp) (s : FeishuStore)
    → deletions_in id op s ≡ 0
    → Unique s.approvals
    → Advances (lookup id s.approvals) (lookup id (apply op s).approvals)
unfolding prune_history apply transition_feedback bind_approval_card update_failed
    mark_feedback_update_failed mark_feedback_update_succeeded resolve_approval expire_approval
    recover_on_startup
step-Advances id (create now which request requester expires summary) s free u =
    create-Advances id now which request requester expires summary s
step-Advances id (bind_card which card) s free u =
    update-Advances id _ _ s.approvals (λ a. refl) (λ a. refl) (λ a. refl)
step-Advances id (feedback now which state) s free u =
    feedback-Advances id now which state s (feedback_rank state) refl
step-Advances id (feedback_failed now which code) s free u =
    update-Advances id _ _ s.approvals (λ a. refl) (λ a. refl) (λ a. refl)
step-Advances id (feedback_succeeded now which) s free u =
    update-Advances id _ _ s.approvals (λ a. refl) (λ a. refl) (λ a. refl)
step-Advances id (resolve now which decision state) s free u =
    update-Advances id _ _ s.approvals (λ a. refl) (λ a. refl) (λ a. refl)
step-Advances id (expire now which) s free u =
    update-Advances id _ _ s.approvals (λ a. refl) (λ a. refl) (λ a. refl)
step-Advances id restart s free u =
    update-Advances id _ _ s.approvals (λ a. refl) (λ a. refl) (λ a. refl)
step-Advances id (prune now opts) s free u =
    row-Advances (lookup id s.approvals) _ (prune-Stays now opts id s u) free

-- Over any calls in which `prune_history`, if it is called, does not delete the approval: the rank of the
-- feedback that a card shows never falls, and once it is final (rank 3: approved, declined or failed)
-- the card shows the same feedback after all of them, whatever decision is reported later.
pub feedback_monotone :
    (id : String) (ops : List ApprovalOp) (s : FeishuStore)
    → Unique s.approvals
    → total apply (deletions_in id) ops s ≡ 0
    → (rank_at id s ≤ rank_at id (run apply ops s))
      × (3 ≤ rank_at id s → feedback_at id (run apply ops s) ≡ feedback_at id s)
feedback_monotone id ops s u free =
    let kept =
      run_keeps_free apply (deletions_in id)
        (λ s'. Unique s'.approvals × Advances (lookup id s.approvals) (lookup id s'.approvals))
        (λ op s' none_deleted h.
          let step = step-Advances id op s' none_deleted h.0 in
          (
            apply-Unique op s' h.0,
            (le_trans h.1.0 step.0, (λ final. step.1 (le_trans final h.1.0) ∙ h.1.1 final)),
          ))
        ops s free (u, (le_refl _, (λ _. refl))) in
    kept.1
