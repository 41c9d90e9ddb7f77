-- ===== src/Feishu/Store/Inbox/Ops.antt =====
-- The inbox methods as one type of operations, and what holds of the inbox after any of them.
use codex_feishu_remoter.Prelude.{
  ℕ, String, ◌≡◌, refl, sym, subst, inl, inr, Bool, true, false, ◌&&◌, ◌==◌, eq_iff, Option, none,
  some, List, [], ◌∷◌, ◌++◌, arith, Option-cases, lookup, where_update, Unique, Unique-where_update,
  Unique-snoc, rowcount_at_key, All-lookup, All-map, All_first, All-order_by, All-where_select,
}
use codex_feishu_remoter.Feishu.Model.{
  FeishuInboundMessage, InboxRecord, failed, ignored, is_queued, inbox_keyed,
}
use codex_feishu_remoter.Feishu.Store.{FeishuStore}
use codex_feishu_remoter.Feishu.Store.Inbox.{
  queued_row, enqueue_message, rewrite_queued_text, next_to_claim, started, claim_next,
  mark_completed, mark_error, recover_on_startup,
}

-- One call of an inbox method. `mark_completed`, `mark_failed` and `mark_ignored` finish a row.
pub data InboxOp : Type 0 where
  enqueue : ℕ → FeishuInboundMessage → InboxOp
  claim : ℕ → Option String → InboxOp
  rewrite : String → String → InboxOp
  complete : ℕ → String → Option String → InboxOp
  fail ignore : ℕ → String → String → String → InboxOp
  recover : InboxOp

unfoldable pub apply : InboxOp → FeishuStore → FeishuStore
apply (enqueue now m) s = (enqueue_message now m s).1
apply (claim now id) s = (claim_next now id s).1
apply (rewrite id text) s = (rewrite_queued_text id text s).1
apply (complete now id response) s = mark_completed now id response s
apply (fail now id code message) s = mark_error failed now id code message s
apply (ignore now id code message) s = mark_error ignored now id code message s
apply recover s = (recover_on_startup s).1

pub enqueue_fresh :
    (now : ℕ) (m : FeishuInboundMessage) (s : FeishuStore)
    → lookup m.message_id s.inbox ≡ none
    → enqueue_message now m s ≡ (true, record s { inbox = s.inbox ++ queued_row now m ∷ [] })
unfolding enqueue_message
enqueue_fresh now m s h = ground arith

pub enqueue_seen :
    (now : ℕ) (m : FeishuInboundMessage) (s : FeishuStore) {r : InboxRecord}
    → lookup m.message_id s.inbox ≡ some r
    → enqueue_message now m s ≡ (false, s)
unfolding enqueue_message
enqueue_seen now m s h = ground arith

abbrev pub Waits : List InboxRecord → InboxRecord → Type 0
Waits inbox r = (lookup r.message_id inbox ≡ some r) × (is_queued r.status ≡ true)

-- The row that `claim_next` picks is a queued row of the table.
pub next_to_claim_queued :
    (id : Option String) (inbox : List InboxRecord) (row : InboxRecord)
    → Unique inbox
    → next_to_claim id inbox ≡ some row
    → Waits inbox row
unfolding next_to_claim
next_to_claim_queued none inbox row u h = All_first (Waits inbox) _ row h (
    All-order_by (Waits inbox) _ _ (
      All-where_select (Waits inbox) _ inbox
        (All-map _ _ (λ r found queued. (found, queued)) inbox (All-lookup inbox u))))
next_to_claim_queued (some id) inbox row u h = All_first (Waits inbox) _ row h (
    All-where_select (Waits inbox) _ inbox
      (All-map _ _ (λ r found passed. (found, ground arith)) inbox (All-lookup inbox u)))

-- The rowcount test of `claim_next` never fails: it sees the row that it has just selected.
pub claim_next_lem :
    (now : ℕ) (id : Option String) (s : FeishuStore) (row : InboxRecord)
    → Unique s.inbox
    → next_to_claim id s.inbox ≡ some row
    → claim_next now id s ≡ (
      some (started now row),
      record s {
        inbox =
            where_update
              (λ r. r.message_id == row.message_id && is_queued r.status)
              (started now)
              s.inbox;
      },
    )
unfolding claim_next
claim_next_lem now id s row u h =
    let (found, waits) = next_to_claim_queued id s.inbox row u h in
    let one =
      rowcount_at_key (λ r. r.message_id == row.message_id && is_queued r.status) row.message_id
        s.inbox u (λ r passed. (eq_iff r.message_id row.message_id).0 (ground arith)) in
    rw (h, claim_next) (ground (arith, one, eq_iff row.message_id row.message_id))

pub claim_next-none :
    (now : ℕ) (id : Option String) (s : FeishuStore)
    → next_to_claim id s.inbox ≡ none
    → claim_next now id s ≡ (none, s)
unfolding claim_next
claim_next-none now id s h = ground arith

pub enqueue_message-Unique :
    (now : ℕ) (m : FeishuInboundMessage) (s : FeishuStore)
    → Unique s.inbox
    → Unique (enqueue_message now m s).1.inbox
enqueue_message-Unique now m s u = elim (Option-cases (lookup m.message_id s.inbox)) [
  | inl absent ↦
      subst (λ (o : Bool × FeishuStore). Unique o.1.inbox) (sym (enqueue_fresh now m s absent))
        (Unique-snoc s.inbox (queued_row now m) u absent)
  | inr present ↦
      subst (λ (o : Bool × FeishuStore). Unique o.1.inbox) (sym (enqueue_seen now m s present.1)) u
]

pub claim_next-Unique :
    (now : ℕ) (id : Option String) (s : FeishuStore)
    → Unique s.inbox
    → Unique (claim_next now id s).1.inbox
claim_next-Unique now id s u = elim (Option-cases (next_to_claim id s.inbox)) [
  | inl h ↦
      subst (λ (o : Option InboxRecord × FeishuStore). Unique o.1.inbox)
        (sym (claim_next-none now id s h)) u
  | inr found ↦
      subst (λ (o : Option InboxRecord × FeishuStore). Unique o.1.inbox)
        (sym (claim_next_lem now id s found.0 u found.1))
        (Unique-where_update _ _ (λ r. refl) s.inbox u)
]

-- No operation adds a second row for a message.
pub apply-Unique : (op : InboxOp) (s : FeishuStore) → Unique s.inbox → Unique (apply op s).inbox
unfolding apply rewrite_queued_text mark_completed mark_error recover_on_startup
apply-Unique (enqueue now m) s u = enqueue_message-Unique now m s u
apply-Unique (claim now id) s u = claim_next-Unique now id s u
apply-Unique (rewrite id text) s u = Unique-where_update _ _ (λ r. refl) s.inbox u
apply-Unique (complete now id response) s u = Unique-where_update _ _ (λ r. refl) s.inbox u
apply-Unique (fail now id code message) s u = Unique-where_update _ _ (λ r. refl) s.inbox u
apply-Unique (ignore now id code message) s u = Unique-where_update _ _ (λ r. refl) s.inbox u
apply-Unique recover s u = Unique-where_update _ _ (λ r. refl) s.inbox u
