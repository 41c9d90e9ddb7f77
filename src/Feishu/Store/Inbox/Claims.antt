-- ===== src/Feishu/Store/Inbox/Claims.antt =====
-- How often a message can be claimed for execution, and what stops it for good.
use codex_feishu_remoter.Prelude.{
  ℕ, ◌+◌, ◌≤◌, String, ◌≡◌, refl, inl, inr, Bool, true, false, ◌&&◌, ◌==◌, eq_iff, Option, none,
  some, List, arith, if◌then◌else◌, Option-cases, lookup-key, rowcount_at_key, lookup, where_update,
  All-of, total, total_bounded, Unique, lookup-where_update, lookup-snoc, All-of, total,
  total_bounded,
}
use codex_feishu_remoter.Feishu.Model.{
  FeishuInboundMessage, InboxRecord, failed, ignored, is_queued, is_running, is_active, inbox_keyed,
}
use codex_feishu_remoter.Feishu.Store.{FeishuStore, empty}
use codex_feishu_remoter.Feishu.Store.Inbox.{
  requeued, queued_row, enqueue_message, rewrite_queued_text, next_to_claim, started, claim_next,
  completed_row, mark_completed, error_row, mark_error, interrupt, recover_on_startup,
}
use codex_feishu_remoter.Feishu.Store.Inbox.Ops.{
  InboxOp, enqueue, claim, rewrite, complete, fail, ignore, recover, apply, apply-Unique,
  claim_next_lem, claim_next-none, next_to_claim_queued,
}

-- what can still be claimed of a message: it is not yet in the inbox, or it is queued there
abbrev claimable : Option InboxRecord → ℕ
claimable none = 1
claimable (some r) = if is_queued r.status then 1 else 0

abbrev is_for : String → Option InboxRecord → ℕ
is_for id none = 0
is_for id (some r) = if r.message_id == id then 1 else 0

-- 1 if the call hands the message to a worker
abbrev pub claims_in : String → InboxOp → FeishuStore → ℕ
claims_in id (claim now which) s = is_for id (claim_next now which s).0
claims_in id _ s = 0

-- 1 if the call puts the message back in the queue
abbrev pub requeues_in : String → InboxOp → FeishuStore → ℕ
requeues_in id (rewrite which text) s =
    if which == id && (rewrite_queued_text which text s).0 then 1 else 0
requeues_in id _ s = 0

claim-claimable :
    (id : String) (now : ℕ) (which : Option String) (s : FeishuStore)
    → Unique s.inbox
    → is_for id (claim_next now which s).0 + claimable (lookup id (claim_next now which s).1.inbox)
      ≤ claimable (lookup id s.inbox)
claim-claimable id now which s u = elim (Option-cases (next_to_claim which s.inbox)) [
  | inl h ↦ rw (claim_next-none now which s h) (omega arith)
  | inr found ↦ rw (claim_next_lem now which s found.0 u found.1) (
      ground (
        arith,
        next_to_claim_queued which s.inbox found.0 u found.1,
        eq_iff found.0.message_id id,
        lookup-where_update
            (λ (r : InboxRecord). r.message_id == found.0.message_id && is_queued r.status)
            (started now) (λ r. refl) id s.inbox,
      ))
]

-- An update that never queues a row makes nothing claimable.
update-claimable :
    (id : String) (p : InboxRecord → Bool) (f : InboxRecord → InboxRecord)
    (inbox : List InboxRecord)
    → ((r : InboxRecord) → (f r).message_id ≡ r.message_id)
    → ((r : InboxRecord) → is_queued (f r).status ≡ false)
    → claimable (lookup id (where_update p f inbox)) ≤ claimable (lookup id inbox)
update-claimable id p f inbox keeps never = elim (Option-cases (lookup id inbox)) [
  | inl h ↦ ground (arith, lookup-where_update p f keeps id inbox)
  | inr found ↦ ground (arith, lookup-where_update p f keeps id inbox, never found.0)
]

enqueue-claimable :
    (id : String) (now : ℕ) (m : FeishuInboundMessage) (s : FeishuStore)
    → claimable (lookup id (enqueue_message now m s).1.inbox) ≤ claimable (lookup id s.inbox)
unfolding enqueue_message
enqueue-claimable id now m s =
    ground (arith, lookup-snoc id s.inbox (queued_row now m), eq_iff m.message_id id)

rewrite-claimable :
    (id which text : String) (s : FeishuStore)
    → Unique s.inbox
    → claimable (lookup id (rewrite_queued_text which text s).1.inbox)
      ≤ claimable (lookup id s.inbox) + requeues_in id (rewrite which text) s
unfolding rewrite_queued_text
rewrite-claimable id which text s u =
    let here : InboxRecord → Bool = λ r. r.message_id == which && is_active r.status in
    let at : (r : InboxRecord) → here r ≡ true → r.message_id ≡ which =
      λ r passed. (eq_iff r.message_id which).0 (ground arith) in
    let after = lookup-where_update here (requeued text) (λ r. refl) id s.inbox in
    elim (Option-cases (lookup id s.inbox)) [
      | inl absent ↦ ground (arith, after, absent)
      | inr found ↦ ground (
        arith,
        after,
        found.1,
        eq_iff which id,
        eq_iff found.0.message_id which,
        eq_iff found.0.message_id id,
        lookup-key id s.inbox found.0 found.1,
        rowcount_at_key here which s.inbox u at,
      )
    ]

step-claimable :
    (id : String) (op : InboxOp) (s : FeishuStore)
    → Unique s.inbox
    → claims_in id op s + claimable (lookup id (apply op s).inbox)
      ≤ claimable (lookup id s.inbox) + requeues_in id op s
unfolding apply mark_completed mark_error recover_on_startup
step-claimable id (enqueue now m) s u = omega (arith, enqueue-claimable id now m s)
step-claimable id (claim now which) s u = omega (arith, claim-claimable id now which s u)
step-claimable id (rewrite which text) s u = omega (arith, rewrite-claimable id which text s u)
step-claimable id (complete now which response) s u = omega (
  arith,
  update-claimable id (λ r. r.message_id == which) (completed_row now response) s.inbox (λ r. refl)
      (λ r. refl),
)
step-claimable id (fail now which code message) s u = omega (
  arith,
  update-claimable id (λ r. r.message_id == which) (error_row failed now code message) s.inbox
      (λ r. refl) (λ r. refl),
)
step-claimable id (ignore now which code message) s u = omega (
  arith,
  update-claimable id (λ r. r.message_id == which) (error_row ignored now code message) s.inbox
      (λ r. refl) (λ r. refl),
)
step-claimable id recover s u = omega (
  arith,
  update-claimable id (λ r. is_running r.status) interrupt s.inbox (λ r. refl) (λ r. refl),
)

-- Over any calls of the inbox methods on an empty store, a message is handed to a worker at most
-- once, and once more for each time that `rewrite_queued_text` put it back in the queue.
pub claims-le-requeues :
    (id : String) (ops : List InboxOp)
    → total apply (claims_in id) ops empty ≤ 1 + total apply (requeues_in id) ops empty
unfolding lookup
claims-le-requeues id ops = omega (
  arith,
  total_bounded apply (λ _. Unit {0}) (λ s. Unique s.inbox) (λ s. claimable (lookup id s.inbox))
      (claims_in id) (requeues_in id) (λ op s _ u. apply-Unique op s u)
      (λ op s _ u. step-claimable id op s u) ops empty (All-of _ (λ _. tt) ops) tt,
)
