-- ===== src/Core/Telemetry/Stamps.antt =====
-- The times of a turn are those of the first observation.
use codex_feishu_remoter.Prelude.{
  ℕ, ◌≡◌, ◌≢◌, refl, sym, inl, inr, String, Bool, true, false, not, ◌||◌, eq_iff, none, some, List,
  arith, if◌then◌else◌, Bool-cases, has, lookup, lookup-upsert, All, run, run_keeps_fitting,
}
use codex_feishu_remoter.Core.Telemetry.{
  TurnTelemetry, Stamp, stamp_keyed, put_first, put_both, put_wall, recovers, recovered, mark,
  mark_wall, set_identity, set_runtime_settings, add_event, set_stage, observe_native_activity,
  observe_transport_retry, observe_transport_fallback, observe_model_activity, observe_tool,
}
use codex_feishu_remoter.Core.Telemetry.Bounds.{
  TurnOp, marking, marking_wall, identity, settings, event, staging, native_activity,
  transport_retry, transport_fallback, model_activity, tool, apply,
}

-- any call but a `mark` of that name with `overwrite`
abbrev pub Leaves : String → TurnOp → Type 0
Leaves name (marking which at wall_at overwrite) = which ≡ name → overwrite ≡ false
Leaves name _ = Unit

abbrev pub Stamped : String → Stamp → TurnTelemetry → Type 0
Stamped name s t = lookup name t.timestamps ≡ some s

put-other :
    (name which : String) (at wall_at : ℕ) (s : Stamp) (t : TurnTelemetry)
    → which ≢ name
    → Stamped name s t
    → Stamped name s (put_both which at wall_at t)
put-other name which at wall_at s t n h =
    let new : Stamp = record { name = which; at = at } in
    ground (
      arith,
      h,
      n,
      eq_iff which name,
      lookup-upsert (λ (q : Stamp). record q { at = at }) (λ q. refl) new name t.timestamps,
    )

put_first-Stamped :
    (name which : String) (at wall_at : ℕ) (s : Stamp) (t : TurnTelemetry)
    → Stamped name s t
    → Stamped name s (put_first which at wall_at t)
put_first-Stamped name which at wall_at s t h = elim (Bool-cases (has which t.timestamps)) [
  | inl e ↦ rw e h
  | inr e ↦ rw e (put-other name which at wall_at s t (λ same. ground (arith, same, h, e)) h)
]

if-Stamped :
    (name : String) (s : Stamp) (b : Bool) (t t' : TurnTelemetry)
    → (b ≡ true → Stamped name s t)
    → Stamped name s t'
    → Stamped name s (if b then t else t')
if-Stamped name s true t t' h k = h refl
if-Stamped name s false t t' h k = k

apply-Stamped :
    (name : String) (s : Stamp)
    → name ≢ "last_native_activity_at"
    → (op : TurnOp) (t : TurnTelemetry) → Leaves name op
    → Stamped name s t
    → Stamped name s (apply op t)
unfolding apply mark mark_wall set_identity set_runtime_settings add_event set_stage
    observe_native_activity observe_transport_retry observe_transport_fallback
    observe_model_activity observe_tool
apply-Stamped name s n (marking which at wall_at overwrite) t leaves h =
    if-Stamped name s (overwrite || not (has which t.timestamps)) (put_both which at wall_at t) t
      (λ e. put-other name which at wall_at s t (λ same. ground (arith, leaves same, same, h, e)) h)
      h
apply-Stamped name s n (marking_wall which none) t leaves h = h
apply-Stamped name s n (marking_wall which (some wall_at)) t leaves h =
    if-Stamped name s (has which t.wall_timestamps) t (put_wall which wall_at t) (λ _. h) h
apply-Stamped name s n (identity thread turn) t leaves h = h
apply-Stamped name s n (settings model effort tier) t leaves h = h
apply-Stamped name s n (event label category status wall_at) t leaves h = h
apply-Stamped name s n (staging stage status none wall_at) t leaves h = h
apply-Stamped name s n (staging stage status (some label) wall_at) t leaves h = h
apply-Stamped name s n (native_activity at wall_at counts) t leaves h =
    put-other name "last_native_activity_at" at wall_at s
      (if counts then put_first "first_native_activity_at" at wall_at t else t)
      (λ same. n (sym same))
      (if-Stamped name s counts (put_first "first_native_activity_at" at wall_at t) t
        (λ _. put_first-Stamped name "first_native_activity_at" at wall_at s t h) h)
apply-Stamped name s n (transport_retry at wall_at) t leaves h =
    put_first-Stamped name "transport_retry_started_at" at wall_at s t h
apply-Stamped name s n (transport_fallback at wall_at) t leaves h =
    put_first-Stamped name "transport_fallback_at" at wall_at s t h
apply-Stamped name s n (model_activity at wall_at) t leaves h =
    let begun = put_first-Stamped name "model_activity_started_at" at wall_at s t h in
    let t' = put_first "model_activity_started_at" at wall_at t in
    if-Stamped name s (recovers t') (recovered at wall_at t') t'
      (λ e.
        put-other name "transport_recovered_at" at wall_at s t'
          (λ same. ground (arith, same, begun, e)) begun)
      begun
apply-Stamped name s n (tool item false at wall_at) t leaves h = h
apply-Stamped name s n (tool item true at wall_at) t leaves h = h

-- Once a time of a turn is recorded, it stays under any observations but a `mark` of its name with
-- `overwrite`, except for the time of the last native activity, which moves.
pub run-Stamped :
    (name : String) (s : Stamp) (ops : List TurnOp) (t : TurnTelemetry)
    → name ≢ "last_native_activity_at"
    → All (Leaves name) ops
    → Stamped name s t
    → Stamped name s (run apply ops t)
run-Stamped name s ops t n leaves h =
    run_keeps_fitting apply (Leaves name) (Stamped name s)
      (λ op u fits k. apply-Stamped name s n op u fits k) ops t leaves h
