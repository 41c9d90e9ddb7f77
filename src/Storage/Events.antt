-- ===== src/Storage/Events.antt =====
-- How often a rollout event is shown, and what the pruning of the events leaves.
use codex_feishu_remoter.Prelude.{
  ℕ, ◌+◌, ◌-◌, ◌≤◌, String, ◌≡◌, refl, inl, inr, Bool, false, not, ◌&&◌, ◌==◌, eq_iff, Option, none,
  some, List, [], arith, if◌then◌else◌, Option-cases, Bool-cases, ltb, eqb, lookup, lookup-snoc,
  where_delete, rowcount, total, total_bounded, All, All-of, All-where_delete, max,
}
use codex_feishu_remoter.Prelude.Caps.{
  key_in, rowcount-where_delete-le, where_delete-fails, oldest_gone,
}
use codex_feishu_remoter.Storage.{
  BindingStore, EventRow, event_keyed, seen_event, event_order, every_event, oldest, PrunedEvents,
  prune_event_dedupe,
}

pub data EventOp : Type 0 where
  seeing : ℕ → String → EventOp
  pruning : ℕ → ℕ → ℕ → EventOp

unfoldable pub apply : EventOp → BindingStore → BindingStore
apply (seeing now key) s = (seen_event now key s).1
apply (pruning max_rows max_age now) s = (prune_event_dedupe max_rows max_age now s).1

abbrev pub no_events : BindingStore
no_events = record { bindings = []; events = [] }

-- 1 if the call says that the event was not seen before
abbrev pub shown_in : String → EventOp → BindingStore → ℕ
shown_in key (seeing now which) s = if which == key && not (seen_event now which s).0 then 1 else 0
shown_in key (pruning max_rows max_age now) s = 0

abbrev pub prunings_in : EventOp → BindingStore → ℕ
prunings_in (seeing now which) s = 0
prunings_in (pruning max_rows max_age now) s = 1

abbrev unseen : Option EventRow → ℕ
unseen none = 1
unseen (some r) = 0

unseen_le_one : (o : Option EventRow) → unseen o ≤ 1
unseen_le_one none = omega arith
unseen_le_one (some r) = omega arith

step-unseen :
    (key : String) (op : EventOp) (s : BindingStore)
    → shown_in key op s + unseen (lookup key (apply op s).events)
      ≤ unseen (lookup key s.events) + prunings_in op s
unfolding apply seen_event
step-unseen key (seeing now which) s =
    let new : EventRow = record { event_key = which; created_at = now } in
    elim (Option-cases (lookup which s.events)) [
      | inl absent ↦ ground (arith, absent, eq_iff which key, lookup-snoc key s.events new)
      | inr (r, found) ↦ ground (arith, found, eq_iff which key)
    ]
step-unseen key (pruning max_rows max_age now) s =
    omega (arith, unseen_le_one (lookup key (apply (pruning max_rows max_age now) s).events))

-- Over any calls on an empty table, an event is reported as new at most once, and once more for
-- each pruning of the table.
pub shown-le-prunings :
    (key : String) (ops : List EventOp)
    → total apply (shown_in key) ops no_events ≤ 1 + total apply prunings_in ops no_events
unfolding lookup
shown-le-prunings key ops = omega (
  arith,
  total_bounded apply (λ _. Unit {0}) (λ _. Unit {0}) (λ s. unseen (lookup key s.events))
      (shown_in key) prunings_in (λ op s _ u. tt) (λ op s _ u. step-unseen key op s) ops no_events
      (All-of _ (λ _. tt) ops) tt,
)

-- what a pruning leaves of the events, and what it reports
pub record IsPruned (max_rows max_age now : ℕ) (s : BindingStore) (report : PrunedEvents)
    (s' : BindingStore) : Type 0 where
  pub few : rowcount every_event s'.events ≤ max 1 max_rows
  pub recent : All (λ r. ltb r.created_at (now - max_age) ≡ false) s'.events
  pub counted : report.after ≡ rowcount every_event s'.events
  pub adds_up : report.after + report.deleted ≡ rowcount every_event s.events
  pub same_bindings : s'.bindings ≡ s.bindings

-- `prune_event_dedupe` leaves at most `max(1, max_rows)` events, none of them older than the
-- age; its report counts the events that are left and those that it took, and no binding changes.
pub prune_event_dedupe-IsPruned :
    (max_rows max_age now : ℕ) (s : BindingStore)
    → IsPruned max_rows max_age now s
        (prune_event_dedupe max_rows max_age now s).0
        (prune_event_dedupe max_rows max_age now s).1
unfolding prune_event_dedupe
prune_event_dedupe-IsPruned max_rows max_age now s =
    let old : EventRow → Bool = λ r. ltb r.created_at (now - max_age) in
    let recent = where_delete old s.events in
    let excess = rowcount every_event recent - max 1 max_rows in
    let gone : EventRow → Bool = λ r. key_in r.event_key (oldest excess recent) in
    let fewer = rowcount-where_delete-le every_event old s.events in
    let fewer_still = rowcount-where_delete-le every_event gone recent in
    let bounded = oldest_gone event_order excess recent in
    let young = where_delete-fails old s.events in
    elim (Bool-cases (eqb excess 0)) [
      | inl none_over ↦ rw none_over (record {
        few = ground (arith, none_over);
        recent = young;
        counted = refl;
        adds_up = omega arith;
        same_bindings = refl;
      })
      | inr some_over ↦ rw some_over (record {
        few = ground (arith, some_over, bounded);
        recent = All-where_delete _ gone recent young;
        counted = refl;
        adds_up = omega arith;
        same_bindings = refl;
      })
    ]
