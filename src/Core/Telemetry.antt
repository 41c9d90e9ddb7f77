-- ===== src/Core/Telemetry.antt =====
-- src/cfr/core/models.py: `TurnTelemetry`, the bounded record of one turn. Each method holds its
-- lock. The times `at` and `wall_at` are arguments, in milliseconds; a text that is empty counts
-- as absent. What the methods return is left out, and the token counts and the snapshot, which only
-- copy and format.
pub mod Bounds
pub mod Stamps
mod Examples
use codex_feishu_remoter.Prelude.{
  ℕ, String, ◌+◌, ◌-◌, Bool, true, false, not, ◌&&◌, ◌||◌, ◌==◌, ◌<>◌, Option, none, some, List, [],
  ◌∷◌, ◌++◌, if◌then◌else◌, eqb, ltb, is_some, or_else, coalesce, Keyed, lookup, has, upsert,
  where_delete, rowcount,
}
use codex_feishu_remoter.Prelude.Caps.{skip}

pub record Stamp : Type 0 where
  pub name : String
  pub at : ℕ

instance abbrev pub stamp_keyed : Keyed Stamp
stamp_keyed = record { key = λ s. s.name }

pub record Event : Type 0 where
  pub at : ℕ
  pub category : String
  pub label : String
  pub status : Option String

pub record Tool : Type 0 where
  pub category : String
  pub name : String
  pub status : String
  pub elapsed_ms : Option ℕ

pub record TurnTelemetry : Type 0 where
  pub thread_id : Option String
  pub turn_id : Option String
  pub status : String
  pub stage : String
  pub model : Option String
  pub reasoning_effort : Option String
  pub service_tier : Option String
  pub timestamps : List Stamp
  pub wall_timestamps : List Stamp
  pub transport_state : Option String
  pub transport_retry_count : ℕ
  pub transport_fallback_count : ℕ
  pub current_tool : Option Tool
  pub recent_tool : Option Tool
  pub timeline : List Event
  pub tool_started : List Stamp
  pub tool_total_ms : ℕ

abbrev pub new_telemetry : TurnTelemetry
new_telemetry = record {
  thread_id = none;
  turn_id = none;
  status = "queued";
  stage = "queued";
  model = none;
  reasoning_effort = none;
  service_tier = none;
  timestamps = [];
  wall_timestamps = [];
  transport_state = none;
  transport_retry_count = 0;
  transport_fallback_count = 0;
  current_tool = none;
  recent_tool = none;
  timeline = [];
  tool_started = [];
  tool_total_ms = 0;
}

-- `TURN_TIMELINE_MAX_EVENTS`
abbrev pub max_events : ℕ
max_events = 20

abbrev pub count {ℓ} : {A : Type ℓ} → List A → ℕ
count [] = 0
count (a ∷ rest) = 1 + count rest

-- the last `n` of a list: a `deque(maxlen=n)`, or `popitem(last=False)` while it is longer
abbrev pub keep_last {ℓ} : {A : Type ℓ} → ℕ → List A → List A
keep_last n rest = skip (count rest - n) rest

-- `d[name] = at`
abbrev pub put_stamp : String → ℕ → List Stamp → List Stamp
put_stamp name at stamps =
    upsert (λ (s : Stamp). record s { at = at }) (record { name = name; at = at }) stamps

abbrev pub append_event : Event → TurnTelemetry → TurnTelemetry
append_event event t = record t { timeline = keep_last max_events (t.timeline ++ event ∷ []) }

abbrev pub put_both : String → ℕ → ℕ → TurnTelemetry → TurnTelemetry
put_both name at wall_at t = record t {
  timestamps = put_stamp name at t.timestamps;
  wall_timestamps = put_stamp name wall_at t.wall_timestamps;
}

-- `if name not in self.timestamps`
abbrev pub put_first : String → ℕ → ℕ → TurnTelemetry → TurnTelemetry
put_first name at wall_at t = if has name t.timestamps then t else put_both name at wall_at t

unfoldable pub mark : String → ℕ → ℕ → Bool → TurnTelemetry → TurnTelemetry
mark name at wall_at overwrite t =
    if overwrite || not (has name t.timestamps) then put_both name at wall_at t else t

abbrev pub put_wall : String → ℕ → TurnTelemetry → TurnTelemetry
put_wall name wall_at t = record t { wall_timestamps = put_stamp name wall_at t.wall_timestamps }

unfoldable pub mark_wall : String → Option ℕ → TurnTelemetry → TurnTelemetry
mark_wall name none t = t
mark_wall name (some wall_at) t = if has name t.wall_timestamps then t else put_wall name wall_at t

unfoldable pub set_identity : Option String → Option String → TurnTelemetry → TurnTelemetry
set_identity thread_id turn_id t = record t {
  thread_id = coalesce thread_id t.thread_id;
  turn_id = coalesce turn_id t.turn_id;
}

-- `effort` is `values.get('reasoningEffort') or values.get('effort')`.
unfoldable pub set_runtime_settings :
    Option String → Option String → Option String → TurnTelemetry → TurnTelemetry
set_runtime_settings model effort service_tier t = record t {
  model = coalesce model t.model;
  reasoning_effort = coalesce effort t.reasoning_effort;
  service_tier = coalesce service_tier t.service_tier;
}

unfoldable pub add_event : String → String → Option String → ℕ → TurnTelemetry → TurnTelemetry
add_event label category status wall_at t =
    append_event (record { at = wall_at; category = category; label = label; status = status }) t

abbrev event_if : Option String → Option String → ℕ → TurnTelemetry → TurnTelemetry
event_if none status wall_at t = t
event_if (some event) status wall_at t =
    append_event (record { at = wall_at; category = "lifecycle"; label = event; status = status }) t

unfoldable pub set_stage :
    String → Option String → Option String → ℕ → TurnTelemetry → TurnTelemetry
set_stage stage status event wall_at t =
    event_if event status wall_at (record t { stage = stage; status = or_else status t.status })

unfoldable pub observe_native_activity : ℕ → ℕ → Bool → TurnTelemetry → TurnTelemetry
observe_native_activity at wall_at count_for_ttfn t =
    put_both "last_native_activity_at" at wall_at
      (if count_for_ttfn then put_first "first_native_activity_at" at wall_at t else t)

abbrev transport_event : ℕ → String → String → Event
transport_event wall_at label status = record {
  at = wall_at;
  category = "transport";
  label = label;
  status = some status;
}

abbrev pub retry_event : ℕ → Event
retry_event wall_at = transport_event wall_at "Codex transport reconnecting" "retrying"

abbrev pub fallback_event : ℕ → Event
fallback_event wall_at = transport_event wall_at "Codex switched to HTTPS" "fallback"

unfoldable pub observe_transport_retry : ℕ → ℕ → TurnTelemetry → TurnTelemetry
observe_transport_retry at wall_at t =
    let t' : TurnTelemetry = put_first "transport_retry_started_at" at wall_at t in
    append_event (retry_event wall_at) (record t' {
      transport_retry_count = t'.transport_retry_count + 1;
      transport_state = some "retrying";
    })

unfoldable pub observe_transport_fallback : ℕ → ℕ → TurnTelemetry → TurnTelemetry
observe_transport_fallback at wall_at t =
    let t' : TurnTelemetry = put_first "transport_fallback_at" at wall_at t in
    append_event (fallback_event wall_at) (record t' {
      transport_fallback_count = t'.transport_fallback_count + 1;
      transport_state = some "https_fallback";
    })

abbrev pub resumed_event : ℕ → Option String → Event
resumed_event wall_at state =
    transport_event wall_at "Codex response stream resumed" (or_else state "recovered")

abbrev pub recovers : TurnTelemetry → Bool
recovers t = not (eqb t.transport_retry_count 0) && not (has "transport_recovered_at" t.timestamps)

abbrev pub recovered_state : TurnTelemetry → Option String
recovered_state t =
    if eqb t.transport_fallback_count 0 then some "websocket_recovered" else t.transport_state

abbrev pub recovered : ℕ → ℕ → TurnTelemetry → TurnTelemetry
recovered at wall_at t =
    append_event (resumed_event wall_at (recovered_state t))
      (record (put_both "transport_recovered_at" at wall_at t) {
        transport_state = recovered_state t;
      })

unfoldable pub observe_model_activity : ℕ → ℕ → TurnTelemetry → TurnTelemetry
observe_model_activity at wall_at t =
    let t' : TurnTelemetry = put_first "model_activity_started_at" at wall_at t in
    if recovers t' then recovered at wall_at t' else t'

-- the fields of an item that `observe_tool` reads, with the category and the name that `_safe_tool`
-- gives it
pub record ToolItem : Type 0 where
  pub category : String
  pub name : String
  pub id : Option String
  pub failed : Bool
  pub duration_ms : Option ℕ

abbrev pub item_id : ToolItem → String
item_id item = or_else item.id (item.category <> (":" <> item.name))

-- `_elapsed_ms(started, at)`
abbrev elapsed_since : Option Stamp → ℕ → Option ℕ
elapsed_since none at = none
elapsed_since (some started) at = some (at - started.at)

abbrev named : String → Option Tool → Bool
named name none = false
named name (some tool) = tool.name == name

abbrev pub tool_status : Bool → Bool → String
tool_status true completed = "failed"
tool_status false true = "completed"
tool_status false false = "running"

abbrev pub tool_event : ℕ → ToolItem → String → Event
tool_event wall_at item status = record {
  at = wall_at;
  category = "tool";
  label = item.name;
  status = some status;
}

-- an item that `_safe_tool` recognises
unfoldable pub observe_tool : ToolItem → Bool → ℕ → ℕ → TurnTelemetry → TurnTelemetry
observe_tool item false at wall_at t =
    let status : String = tool_status item.failed false in
    append_event (tool_event wall_at item status) (record t {
      tool_started = keep_last max_events (put_stamp (item_id item) at t.tool_started);
      current_tool = some (record {
        category = item.category;
        name = item.name;
        status = status;
        elapsed_ms = none;
      });
    })
observe_tool item true at wall_at t =
    let status : String = tool_status item.failed true in
    let elapsed : Option ℕ =
      coalesce item.duration_ms (elapsed_since (lookup (item_id item) t.tool_started) at) in
    append_event (tool_event wall_at item status) (record t {
      tool_started = where_delete (λ (s : Stamp). s.name == item_id item) t.tool_started;
      recent_tool = some (record {
        category = item.category;
        name = item.name;
        status = status;
        elapsed_ms = elapsed;
      });
      tool_total_ms = t.tool_total_ms + or_else elapsed 0;
      current_tool = if named item.name t.current_tool then none else t.current_tool;
    })
