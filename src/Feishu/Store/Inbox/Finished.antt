-- ===== src/Feishu/Store/Inbox/Finished.antt =====
-- A row that has reached `completed`, `failed`, `ignored` or `interrupted_on_restart`.
use codex_feishu_remoter.Prelude.{
  ℕ, String, ◌≡◌, refl, inl, inr, Bool, true, false, not, ◌&&◌, ◌==◌, eq_iff, Option, none, some,
  List, arith, Option-cases, lookup, where_update, Unique, lookup-where_update, lookup-snoc, All-of,
  run, run_keeps, total, total_paid,
}
use codex_feishu_remoter.Feishu.Model.{
  FeishuInboundMessage, InboxRecord, failed, ignored, is_queued, is_running, is_active, inbox_keyed,
}
use codex_feishu_remoter.Feishu.Store.{FeishuStore}
use codex_feishu_remoter.Feishu.Store.Inbox.{
  requeued, queued_row, enqueue_message, rewrite_queued_text, next_to_claim, started, claim_next,
  completed_row, mark_completed, error_row, mark_error, interrupt, recover_on_startup,
}
use codex_feishu_remoter.Feishu.Store.Inbox.Ops.{
  InboxOp, enqueue, claim, rewrite, complete, fail, ignore, recover, apply, apply-Unique,
  claim_next_lem, claim_next-none, next_to_claim_queued,
}
use codex_feishu_remoter.Feishu.Store.Inbox.Claims.{claims_in}

abbrev not_active : Option InboxRecord → Bool
not_active none = false
not_active (some r) = not (is_active r.status)

abbrev pub is_finished : String → FeishuStore → Bool
is_finished id s = not_active (lookup id s.inbox)

-- An update keeps the rows finished that it finds finished.
update-finished :
    (id : String) (p : InboxRecord → Bool) (f : InboxRecord → InboxRecord)
    (inbox : List InboxRecord)
    → ((r : InboxRecord) → (f r).message_id ≡ r.message_id)
    → ((r : InboxRecord) → p r ≡ true → is_active r.status ≡ false → is_active (f r).status ≡ false)
    → not_active (lookup id inbox) ≡ true
    → not_active (lookup id (where_update p f inbox)) ≡ true
update-finished id p f inbox keeps stays h = elim (Option-cases (lookup id inbox)) [
  | inl absent ↦ ground (arith, absent)
  | inr found ↦ ground (arith, found.1, lookup-where_update p f keeps id inbox, stays found.0)
]

claim-finished :
    (id : String) (now : ℕ) (which : Option String) (s : FeishuStore)
    → Unique s.inbox
    → not_active (lookup id s.inbox) ≡ true
    → (not_active (lookup id (claim_next now which s).1.inbox) ≡ true)
      × (claims_in id (claim now which) s ≡ 0)
claim-finished id now which s u h = elim (Option-cases (next_to_claim which s.inbox)) [
  | inl none_left ↦ rw (claim_next-none now which s none_left) (h, refl)
  | inr found ↦ rw (claim_next_lem now which s found.0 u found.1) (
    update-finished id (λ r. r.message_id == found.0.message_id && is_queued r.status) (started now)
        s.inbox (λ r. refl) (λ r a b. ground arith) h,
    ground
        (arith, next_to_claim_queued which s.inbox found.0 u found.1, eq_iff found.0.message_id id),
  )
]

enqueue-finished :
    (id : String) (now : ℕ) (m : FeishuInboundMessage) (s : FeishuStore)
    → not_active (lookup id s.inbox) ≡ true
    → not_active (lookup id (enqueue_message now m s).1.inbox) ≡ true
unfolding enqueue_message
enqueue-finished id now m s h = ground (arith, lookup-snoc id s.inbox (queued_row now m))

step-finished :
    (id : String) (op : InboxOp) (s : FeishuStore)
    → Unique s.inbox
    → not_active (lookup id s.inbox) ≡ true
    → (not_active (lookup id (apply op s).inbox) ≡ true) × (claims_in id op s ≡ 0)
unfolding apply rewrite_queued_text mark_completed mark_error recover_on_startup
step-finished id (enqueue now m) s u h = (enqueue-finished id now m s h, refl)
step-finished id (claim now which) s u h = claim-finished id now which s u h
step-finished id (rewrite which text) s u h = (
  update-finished id (λ r. r.message_id == which && is_active r.status) (requeued text) s.inbox
      (λ r. refl) (λ r a b. ground arith) h,
  refl,
)
step-finished id (complete now which response) s u h = (
  update-finished id (λ r. r.message_id == which) (completed_row now response) s.inbox (λ r. refl)
      (λ r a b. refl) h,
  refl,
)
step-finished id (fail now which code message) s u h = (
  update-finished id (λ r. r.message_id == which) (error_row failed now code message) s.inbox
      (λ r. refl) (λ r a b. refl) h,
  refl,
)
step-finished id (ignore now which code message) s u h = (
  update-finished id (λ r. r.message_id == which) (error_row ignored now code message) s.inbox
      (λ r. refl) (λ r a b. refl) h,
  refl,
)
step-finished id recover s u h = (
  update-finished id (λ r. is_running r.status) interrupt s.inbox (λ r. refl) (λ r a b. refl) h,
  refl,
)

-- A message whose row is finished stays finished under any calls of the inbox methods, whatever
-- they are, and none of them hands it to a worker: a redelivery of the event cannot run it again.
pub run-finished :
    (id : String) (ops : List InboxOp) (s : FeishuStore)
    → Unique s.inbox
    → is_finished id s ≡ true
    → (is_finished id (run apply ops s) ≡ true) × (total apply (claims_in id) ops s ≡ 0)
run-finished id ops s u h = (
  (run_keeps apply (λ s'. Unique s'.inbox × (is_finished id s' ≡ true))
      (λ op s' k. (apply-Unique op s' k.0, (step-finished id op s' k.0 k.1).0)) ops s (u, h)).1,
  omega (
    arith,
    total_paid apply (λ _. Unit {0}) (λ s'. Unique s'.inbox × (is_finished id s' ≡ true)) (λ _. 0)
        (claims_in id) (λ op s' _ k. (apply-Unique op s' k.0, (step-finished id op s' k.0 k.1).0))
        (λ op s' _ k. omega (arith, (step-finished id op s' k.0 k.1).1)) ops s
        (All-of _ (λ _. tt) ops) (u, h),
  ),
)
