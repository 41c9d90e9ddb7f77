-- ===== src/Feishu/Store/Inbox/Order.antt =====
-- Which message `claim_next` takes.
use codex_feishu_remoter.Prelude.{
  ℕ, ◌≤◌, String, ◌≡◌, ◌≢◌, refl, sym, subst, inl, inr, true, false, ◌&&◌, ◌==◌, eq_iff, Option,
  none, some, arith, if◌then◌else◌, Option-cases, Bool-cases, ◌∙◌, lookup, where_update, Unique,
  lookup-where_update, lookup-key, All, All-map, All-of_order_by, All-of_first-none,
  All-of_where_select, first-order_by-le, IsOrder,
}
use codex_feishu_remoter.Feishu.Model.{InboxRecord, running, is_queued, inbox_keyed}
use codex_feishu_remoter.Feishu.Store.{FeishuStore}
use codex_feishu_remoter.Feishu.Store.Inbox.{received_order, next_to_claim, started, claim_next}
use codex_feishu_remoter.Feishu.Store.Inbox.Ops.{
  claim_next_lem, claim_next-none, next_to_claim_queued,
}

pub received_order-IsOrder : IsOrder received_order
received_order-IsOrder = record { total = λ a b. ground arith; trans = λ a b c h k. ground arith }

-- what a call of `claim_next()` did, by its result
abbrev pub Claimed : ℕ → FeishuStore → Option InboxRecord × FeishuStore → Type 0
Claimed now s (none, s') = All (λ r. is_queued r.status ≡ false) s.inbox × (s' ≡ s)
Claimed now s (some row, s') =
    ((old : InboxRecord) × ((lookup row.message_id s.inbox ≡ some old)
        × ((is_queued old.status ≡ true) × (row ≡ started now old))))
    × All (λ r. is_queued r.status ≡ true → row.received_at ≤ r.received_at) s.inbox
    × (lookup row.message_id s'.inbox ≡ some row)
    × (row.status ≡ running)
    × ((id : String) → id ≢ row.message_id → lookup id s'.inbox ≡ lookup id s.inbox)

claimed_none :
    (s : FeishuStore)
    → next_to_claim none s.inbox ≡ none
    → All (λ r. is_queued r.status ≡ false) s.inbox
unfolding next_to_claim
claimed_none s h =
    All-map _ _
      (λ r never. elim (Bool-cases (is_queued r.status)) [ inl e ↦ absurd (never e) | inr e ↦ e ])
      s.inbox
      (All-of_where_select (λ _. ⊥) (λ r. is_queued r.status) s.inbox
        (All-of_order_by received_order received_order-IsOrder (λ _. ⊥) _
          (All-of_first-none (λ _. ⊥) _ h)))

claimed_oldest :
    (s : FeishuStore) (row : InboxRecord)
    → next_to_claim none s.inbox ≡ some row
    → All (λ r. is_queued r.status ≡ true → row.received_at ≤ r.received_at) s.inbox
unfolding next_to_claim
claimed_oldest s row h =
    All-map _ _ (λ r first queued. let e = first queued in ground arith) s.inbox
      (All-of_where_select (λ r. received_order row r ≡ true) (λ r. is_queued r.status) s.inbox
        (first-order_by-le received_order received_order-IsOrder _ row h))

claimed_lookup :
    (now : ℕ) (s : FeishuStore) (row : InboxRecord)
    → Unique s.inbox
    → next_to_claim none s.inbox ≡ some row
    → (id : String)
    → lookup id (
        where_update
          (λ r. r.message_id == row.message_id && is_queued r.status)
          (started now)
          s.inbox)
      ≡ (if id == row.message_id then some (started now row) else lookup id s.inbox)
claimed_lookup now s row u h id =
    let after =
      lookup-where_update (λ r. r.message_id == row.message_id && is_queued r.status) (started now)
        (λ r. refl) id s.inbox in
    let found = next_to_claim_queued none s.inbox row u h in
    elim (Option-cases (lookup id s.inbox)) [
      | inl absent ↦ ground (arith, after, found, eq_iff id row.message_id)
      | inr present ↦ ground (
        arith,
        after,
        found,
        present.1,
        eq_iff id row.message_id,
        eq_iff present.0.message_id row.message_id,
        lookup-key id s.inbox present.0 present.1,
      )
    ]

-- `claim_next()` finds nothing exactly when no row is queued, and then changes nothing. Otherwise
-- it returns a row that was queued, with the status and the time of its start set, and that no queued
-- row was received before; the inbox now holds it as running, and the rows of the other messages stay as they were.
pub claim_next-Claimed :
    (now : ℕ) (s : FeishuStore) → Unique s.inbox → Claimed now s (claim_next now none s)
claim_next-Claimed now s u = elim (Option-cases (next_to_claim none s.inbox)) [
  | inl h ↦ subst (Claimed now s) (sym (claim_next-none now none s h)) (claimed_none s h, refl)
  | inr (row, h) ↦ subst (Claimed now s) (sym (claim_next_lem now none s row u h)) (
    (
      row,
      (
        (next_to_claim_queued none s.inbox row u h).0,
        ((next_to_claim_queued none s.inbox row u h).1, refl),
      ),
    ),
    claimed_oldest s row h,
    claimed_lookup now s row u h row.message_id
        ∙ ground (arith, eq_iff row.message_id row.message_id),
    refl,
    (λ id other. ground (arith, claimed_lookup now s row u h id, eq_iff id row.message_id)),
  )
]
