-- ===== src/Storage/Examples.antt =====
-- A binding store with a busy and an idle thread, and the theorems at it.
use codex_feishu_remoter.Prelude.{
  sql, upsert, ℕ, ◌+◌, ◌≤◌, ◌≡◌, ◌↔◌, refl, String, Option, false, none, some, List, [], ◌∷◌, total,
}
use codex_feishu_remoter.Storage.{
  BindingStore, BindingRecord, binding_keyed, EventRow, ThreadRef, new_binding, upsert_binding,
  get_binding, has_busy_bindings, seen_event, prune_event_dedupe,
}
use codex_feishu_remoter.Storage.Events.{
  EventOp, seeing, pruning, apply, no_events, shown_in, prunings_in, shown-le-prunings,
}
use codex_feishu_remoter.Storage.Busy.{IsIdle, has_busy_bindings_iff}

-- The event is pruned by its age, and then new again.
abbrev replayed : List EventOp
replayed = seeing 1 "e" ∷ seeing 2 "e" ∷ seeing 3 "f" ∷ pruning 10 5 9 ∷ seeing 10 "e" ∷ []

shown_twice : total apply (shown_in "e") replayed no_events ≡ 2
unfolding sql total apply seen_event prune_event_dedupe
shown_twice = refl

shown-le-prunings_example :
    total apply (shown_in "e") replayed no_events ≤ 1 + total apply prunings_in replayed no_events
shown-le-prunings_example = shown-le-prunings "e" replayed

abbrev event : String → ℕ → EventRow
event key at = record { event_key = key; created_at = at }

abbrev eventful : BindingStore
eventful = record {
  bindings = [];
  events = event "a" 7 ∷ event "b" 1 ∷ event "c" 6 ∷ event "d" 8 ∷ [];
}

newest_stay : (prune_event_dedupe 2 5 10 eventful).1.events ≡ event "a" 7 ∷ event "d" 8 ∷ []
unfolding sql prune_event_dedupe
newest_stay = refl

abbrev ref : String → ThreadRef
ref id = record { thread_id = id; name = none; cwd = "/w"; rollout_path = some "/r" }

abbrev two_threads : BindingStore
two_threads = record {
  bindings = new_binding 1 (ref "t") ∷ new_binding 2 (ref "u") ∷ [];
  events = [];
}

are_upserts : upsert_binding 2 (ref "u") (upsert_binding 1 (ref "t") no_events) ≡ two_threads
unfolding sql upsert upsert_binding
are_upserts = refl

has_busy_bindings_iff_example : (has_busy_bindings two_threads ≡ false) ↔ (
    (thread_id : String) (r : BindingRecord)
    → get_binding thread_id two_threads ≡ some r
    → IsIdle r)
unfolding sql
has_busy_bindings_iff_example =
    has_busy_bindings_iff two_threads (refl, (refl, tt)) ((λ h. never h), ((λ h. never h), tt))
  where
    never : ◌≡◌ {A = Option String} (some "idle") (some "") → ⊥
    never h = cc
