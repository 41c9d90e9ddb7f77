-- ===== src/Core/Telemetry/Bounds.antt =====
-- The record of a turn stays bounded, however long the turn is.
use codex_feishu_remoter.Prelude.{
  ℕ, zero, suc, ◌-◌, ◌≤◌, ◌≡◌, refl, inl, inr, String, Bool, true, false, not, ◌||◌, ◌==◌, Option,
  none, some, List, [], ◌∷◌, ◌++◌, arith, if◌then◌else◌, Bool-cases, or_else, has, where_delete,
  run, run_keeps,
}
use codex_feishu_remoter.Prelude.Caps.{skip}
use codex_feishu_remoter.Core.Telemetry.{
  TurnTelemetry, new_telemetry, Stamp, stamp_keyed, Event, ToolItem, max_events, count, keep_last,
  put_first, put_both, put_wall, put_stamp, recovers, recovered, recovered_state, retry_event,
  fallback_event, resumed_event, tool_event, tool_status, append_event, mark, mark_wall,
  set_identity, set_runtime_settings, add_event, set_stage, observe_native_activity,
  observe_transport_retry, observe_transport_fallback, observe_model_activity, observe_tool,
  item_id,
}

pub data TurnOp : Type 0 where
  marking : String → ℕ → ℕ → Bool → TurnOp
  marking_wall : String → Option ℕ → TurnOp
  identity : Option String → Option String → TurnOp
  settings : Option String → Option String → Option String → TurnOp
  event : String → String → Option String → ℕ → TurnOp
  staging : String → Option String → Option String → ℕ → TurnOp
  native_activity : ℕ → ℕ → Bool → TurnOp
  transport_retry transport_fallback model_activity : ℕ → ℕ → TurnOp
  tool : ToolItem → Bool → ℕ → ℕ → TurnOp

unfoldable pub apply : TurnOp → TurnTelemetry → TurnTelemetry
apply (marking name at wall_at overwrite) t = mark name at wall_at overwrite t
apply (marking_wall name wall_at) t = mark_wall name wall_at t
apply (identity thread turn) t = set_identity thread turn t
apply (settings model effort tier) t = set_runtime_settings model effort tier t
apply (event label category status wall_at) t = add_event label category status wall_at t
apply (staging stage status label wall_at) t = set_stage stage status label wall_at t
apply (native_activity at wall_at counts) t = observe_native_activity at wall_at counts t
apply (transport_retry at wall_at) t = observe_transport_retry at wall_at t
apply (transport_fallback at wall_at) t = observe_transport_fallback at wall_at t
apply (model_activity at wall_at) t = observe_model_activity at wall_at t
apply (tool item completed at wall_at) t = observe_tool item completed at wall_at t

-- at most 20 events, and at most 20 tools that are not completed
pub record IsBounded (t : TurnTelemetry) : Type 0 where
  pub events : count t.timeline ≤ max_events
  pub tools : count t.tool_started ≤ max_events

count-skip {ℓ} : {A : Type ℓ} (n : ℕ) (rest : List A) → count (skip n rest) ≡ count rest - n
count-skip zero rest = omega arith
count-skip (suc n) [] = omega arith
count-skip (suc n) (a ∷ rest) = omega (arith, count-skip n rest)

count-keep_last {ℓ} : {A : Type ℓ} (n : ℕ) (rest : List A) → count (keep_last n rest) ≤ n
count-keep_last n rest = omega (arith, count-skip (count rest - n) rest)

count-where_delete :
    (p : Stamp → Bool) (stamps : List Stamp) → count (where_delete p stamps) ≤ count stamps
unfolding where_delete
count-where_delete p [] = omega arith
count-where_delete p (s ∷ stamps) = ground (arith, count-where_delete p stamps)

append_event-IsBounded :
    (e : Event) (t : TurnTelemetry)
    → count t.tool_started ≤ max_events
    → IsBounded (append_event e t)
append_event-IsBounded e t few = record {
  events = count-keep_last max_events (t.timeline ++ e ∷ []);
  tools = few;
}

-- A change that leaves both lists alone.
same-IsBounded :
    (t t' : TurnTelemetry)
    → t'.timeline ≡ t.timeline
    → t'.tool_started ≡ t.tool_started
    → IsBounded t
    → IsBounded t'
same-IsBounded t t' e f h = record { events = rw e (h.events); tools = rw f (h.tools) }

put_first-IsBounded :
    (name : String) (at wall_at : ℕ) (t : TurnTelemetry)
    → IsBounded t
    → IsBounded (put_first name at wall_at t)
put_first-IsBounded name at wall_at t h = elim (Bool-cases (has name t.timestamps)) [
  | inl e ↦ rw e h
  | inr e ↦ rw e (same-IsBounded t (put_both name at wall_at t) refl refl h)
]

if-IsBounded :
    (b : Bool) (t t' : TurnTelemetry) → IsBounded t → IsBounded t' → IsBounded (if b then t else t')
if-IsBounded true t t' h k = h
if-IsBounded false t t' h k = k

apply-IsBounded : (op : TurnOp) (t : TurnTelemetry) → IsBounded t → IsBounded (apply op t)
unfolding apply mark mark_wall set_identity set_runtime_settings add_event set_stage
    observe_native_activity observe_transport_retry observe_transport_fallback
    observe_model_activity observe_tool
apply-IsBounded (marking name at wall_at overwrite) t h =
    if-IsBounded (overwrite || not (has name t.timestamps)) (put_both name at wall_at t) t
      (same-IsBounded t (put_both name at wall_at t) refl refl h) h
apply-IsBounded (marking_wall name none) t h = h
apply-IsBounded (marking_wall name (some wall_at)) t h =
    if-IsBounded (has name t.wall_timestamps) t (put_wall name wall_at t) h
      (same-IsBounded t (put_wall name wall_at t) refl refl h)
apply-IsBounded (identity thread turn) t h = same-IsBounded t _ refl refl h
apply-IsBounded (settings model effort tier) t h = same-IsBounded t _ refl refl h
apply-IsBounded (event label category status wall_at) t h = append_event-IsBounded _ t h.tools
apply-IsBounded (staging stage status none wall_at) t h = same-IsBounded t _ refl refl h
apply-IsBounded (staging stage status (some label) wall_at) t h =
    append_event-IsBounded _ (record t { stage = stage; status = or_else status t.status }) h.tools
apply-IsBounded (native_activity at wall_at counts) t h =
    let t' = if counts then put_first "first_native_activity_at" at wall_at t else t in
    same-IsBounded t' (put_both "last_native_activity_at" at wall_at t') refl refl (
      if-IsBounded counts (put_first "first_native_activity_at" at wall_at t) t
        (put_first-IsBounded "first_native_activity_at" at wall_at t h) h)
apply-IsBounded (transport_retry at wall_at) t h = record {
  events =
      count-keep_last max_events (
        (put_first "transport_retry_started_at" at wall_at t).timeline ++ retry_event wall_at ∷ []);
  tools = (put_first-IsBounded "transport_retry_started_at" at wall_at t h).tools;
}
apply-IsBounded (transport_fallback at wall_at) t h = record {
  events =
      count-keep_last max_events
        ((put_first "transport_fallback_at" at wall_at t).timeline ++ fallback_event wall_at ∷ []);
  tools = (put_first-IsBounded "transport_fallback_at" at wall_at t h).tools;
}
apply-IsBounded (model_activity at wall_at) t h =
    let begun = put_first-IsBounded "model_activity_started_at" at wall_at t h in
    let t' = put_first "model_activity_started_at" at wall_at t in
    if-IsBounded (recovers t') (recovered at wall_at t') t'
      (record {
        events =
            count-keep_last max_events
              (t'.timeline ++ resumed_event wall_at (recovered_state t') ∷ []);
        tools = begun.tools;
      })
      begun
apply-IsBounded (tool item false at wall_at) t h = record {
  events =
      count-keep_last max_events
        (t.timeline ++ tool_event wall_at item (tool_status item.failed false) ∷ []);
  tools = count-keep_last max_events (put_stamp (item_id item) at t.tool_started);
}
apply-IsBounded (tool item true at wall_at) t h =
    let fewer = count-where_delete (λ s. s.name == item_id item) t.tool_started in
    let few = h.tools in
    record {
      events =
          count-keep_last max_events
            (t.timeline ++ tool_event wall_at item (tool_status item.failed true) ∷ []);
      tools = omega arith;
    }

-- However a turn runs, its telemetry holds at most 20 events and at most 20 tools that have started
-- and not completed.
pub run-IsBounded : (ops : List TurnOp) → IsBounded (run apply ops new_telemetry)
run-IsBounded ops =
    run_keeps apply IsBounded apply-IsBounded ops new_telemetry
      (record { events = omega arith; tools = omega arith })
