-- ===== src/Codex/Turns/Run.antt =====
-- src/cfr/codex/turns.py: `TurnManager.run_turn` from the answer to `turn/start` on. What the
-- subscription gives is a list of arrivals, each with the readings of the two clocks at it; when none
-- is left, `get` waits until the deadline. A notice is a message of the app server by its method, with
-- what the code reads of it. The calls of `on_progress` are a list, the latest first; the token counts
-- are left out. An empty id is none.
pub mod Loop
pub mod Ends
mod Examples
use codex_feishu_remoter.Prelude.{
  ℕ, zero, suc, String, ◌+◌, ◌-◌, Bool, true, false, not, ◌&&◌, ◌||◌, ◌==◌, ◌<>◌, Option, none,
  some, List, [], ◌∷◌, ◌++◌, if◌then◌else◌, eqb, leb, or_else, is_some, is_empty_text, Keyed, has,
  upsert, Outcome, ok, raised,
}
use codex_feishu_remoter.Core.Telemetry.{
  TurnTelemetry, ToolItem, stamp_keyed, mark, set_identity, add_event, set_stage,
  observe_native_activity, observe_transport_retry, observe_transport_fallback,
  observe_model_activity, observe_tool,
}
use codex_feishu_remoter.Codex.Turns.{
  ActiveTurn, TurnResult, Registry, observe, complete_telemetry, register, get, finish,
}
use Prim.Native.Char.{code}

-- an exception: its `type(exc).__name__` and `str(exc)`
pub record Fault : Type 0 where
  pub name : String
  pub text : String

-- `tool` is what `observe_tool` makes of the item.
pub record Item : Type 0 where
  pub type : String
  pub client_id : Option String
  pub text : String
  pub tool : Option ToolItem

pub record Completed : Type 0 where
  pub status : Option String
  pub items : List Item
  pub error_message : Option String
  pub started_at : Option ℕ
  pub completed_at : Option ℕ

pub data Notice : Type 0 where
  turn_started plan_delta token_usage_updated other : Notice
  error_notice : Bool → String → Notice
  warning summary_delta : String → Notice
  agent_delta : String → String → Notice
  item_started item_completed : Item → Notice
  turn_completed : Completed → Notice

-- what `subscription.get` gives: a message with the turn it names, nothing in time, or an exception
pub data Got : Type 0 where
  message : Option String → Notice → Got
  empty : Got
  broken : Fault → Got

pub record Arrival : Type 0 where
  pub now : ℕ
  pub wall : ℕ
  pub got : Got

-- a call of `on_progress`
pub record Progress : Type 0 where
  pub state : String
  pub stage : String
  pub steer_available : Bool
  pub text : String

pub record Delta : Type 0 where
  pub item_id : String
  pub text : String

instance abbrev pub delta_keyed : Keyed Delta
delta_keyed = record { key = λ d. d.item_id }

pub record Running : Type 0 where
  pub telemetry : TurnTelemetry
  pub deltas : List Delta
  pub summary : String
  pub preview : String
  pub progress : List Progress

-- `''.join(deltas.values())`
unfoldable pub joined_deltas : List Delta → String
joined_deltas [] = ""
joined_deltas (d ∷ deltas) = d.text <> joined_deltas deltas

abbrev pub chars : String → ℕ
chars String.[] = 0
chars (String.◌∷◌ c text) = suc (chars text)

abbrev drop_chars : ℕ → String → String
drop_chars zero text = text
drop_chars (suc n) String.[] = ""
drop_chars (suc n) (String.◌∷◌ c text) = drop_chars n text

-- `text[-n:]`
abbrev pub last_chars : ℕ → String → String
last_chars n text = drop_chars (chars text - n) text

abbrev pub starts_with : String → String → Bool
starts_with String.[] text = true
starts_with (String.◌∷◌ c word) String.[] = false
starts_with (String.◌∷◌ c word) (String.◌∷◌ d text) = eqb (code c) (code d) && starts_with word text

abbrev pub report : String → String → Bool → String → Running → Running
report state stage steer text r = record r {
  progress =
      record { state = state; stage = stage; steer_available = steer; text = text } ∷ r.progress;
}

abbrev pub with_telemetry : (TurnTelemetry → TurnTelemetry) → Running → Running
with_telemetry f r = record r { telemetry = f r.telemetry }

-- `if name not in telemetry.timestamps`: mark it, and enter the stage
abbrev enter_stage : String → String → String → ℕ → ℕ → TurnTelemetry → TurnTelemetry
enter_stage name stage event at wall t =
    if has name t.timestamps
    then t
    else set_stage stage none (some event) wall (mark name at wall false t)

abbrev first_delta : ℕ → ℕ → TurnTelemetry → TurnTelemetry
first_delta at wall t =
    if has "first_answer_delta_at" t.timestamps
    then t
    else add_event "First output" "lifecycle" none wall
        (mark "first_answer_delta_at" at wall false t)

abbrev generating : ℕ → ℕ → TurnTelemetry → TurnTelemetry
generating at wall t =
    enter_stage "agent_message_started_at" "generating" "Generating reply" at wall t

abbrev reasoning : ℕ → ℕ → TurnTelemetry → TurnTelemetry
reasoning at wall t = enter_stage "reasoning_started_at" "reasoning" "Reasoning started" at wall t

abbrev planning : ℕ → ℕ → TurnTelemetry → TurnTelemetry
planning at wall t = enter_stage "planning_started_at" "planning" "Planning started" at wall t

abbrev pub put_delta : String → String → List Delta → List Delta
put_delta item_id delta deltas =
    upsert (λ (d : Delta). record d { text = d.text <> delta })
      (record { item_id = item_id; text = delta }) deltas

abbrev observe_item : Option ToolItem → Bool → ℕ → ℕ → TurnTelemetry → TurnTelemetry
observe_item none completed at wall t = t
observe_item (some tool) completed at wall t = observe_tool tool completed at wall t

-- the stage of an item's type
abbrev pub stage_of : String → Option String
stage_of type =
    if type == "reasoning"
    then some "reasoning"
    else if type == "plan"
    then some "planning"
    else if type == "agentMessage"
    then some "generating"
    else if type == "commandExecution" || (type == "mcpToolCall" || type == "dynamicToolCall")
    then some "tool"
    else if type == "fileChange"
    then some "file_change"
    else if type == "collabAgentToolCall" || type == "subAgentActivity"
    then some "multi_agent"
    else none

abbrev enter_item_stage : Option String → Running → Running
enter_item_stage none r = r
enter_item_stage (some stage) r =
    let r' : Running =
      if stage == "tool" || (stage == "file_change" || stage == "multi_agent")
      then with_telemetry (λ t. set_stage stage none none 0 t) r
      else r in
    report (if stage == "generating" then "generating" else "running") stage true "" r'

abbrev start_item : ℕ → ℕ → Item → TurnTelemetry → TurnTelemetry
start_item at wall item t =
    if item.type == "reasoning"
    then reasoning at wall t
    else if item.type == "plan"
    then planning at wall t
    else if item.type == "agentMessage"
    then generating at wall t
    else t

abbrev on_item_started : ℕ → ℕ → Item → Running → Running
on_item_started at wall item r =
    let active : Running =
      if not (item.type == "") && not (item.type == "userMessage")
      then with_telemetry (observe_model_activity at wall) r
      else r in
    let steered : Running =
      if item.type == "userMessage" && starts_with "cfr-steer-" (or_else item.client_id "")
      then report "" "" true "steer_received" active
      else active in
    enter_item_stage (stage_of item.type) (
      with_telemetry (λ t. observe_item item.tool false at wall (start_item at wall item t))
        steered)

-- the telemetry's stage, and the state that is reported, for a status
abbrev pub final_stage : String → String
final_stage status =
    if status == "completed"
    then "completed"
    else if status == "interrupted"
    then "stopped"
    else if status == "timeout" || status == "timed_out"
    then "timed_out"
    else "failed"

abbrev pub status_of : Completed → String
status_of c = or_else c.status "completed"

abbrev end_telemetry : ℕ → ℕ → String → TurnTelemetry → TurnTelemetry
end_telemetry at wall stage t =
    set_stage stage (some stage) (some ("Turn " <> stage)) wall
      (mark "turn_completed_at" at wall false t)

-- The branches of the loop, after the activity is observed.
unfoldable pub on_notice : ℕ → ℕ → Notice → Running → Running
on_notice at wall turn_started r = report "running" "running" true "" r
on_notice at wall (error_notice will_retry text) r =
    if will_retry && starts_with "Reconnecting" text
    then report "running" "transport_retry" true ""
        (with_telemetry (observe_transport_retry at wall) r)
    else r
on_notice at wall (warning text) r =
    if starts_with "Falling back from WebSockets to HTTPS transport" text
    then report "running" "transport_fallback" true ""
        (with_telemetry (observe_transport_fallback at wall) r)
    else r
on_notice at wall (agent_delta item_id delta) r =
    let preview : String = last_chars 2000 (r.preview <> delta) in
    report "generating" "generating" true preview (record r {
      telemetry =
          first_delta at wall (generating at wall (observe_model_activity at wall r.telemetry));
      deltas = put_delta item_id delta r.deltas;
      preview = preview;
    })
on_notice at wall (summary_delta delta) r =
    let summary : String = last_chars 1200 (r.summary <> delta) in
    report "running" "reasoning" true summary (record r {
      telemetry = reasoning at wall (observe_model_activity at wall r.telemetry);
      summary = summary;
    })
on_notice at wall plan_delta r =
    report "running" "planning" true ""
      (with_telemetry (λ t. planning at wall (observe_model_activity at wall t)) r)
on_notice at wall token_usage_updated r = report "" "" false "context_usage_percent" r
on_notice at wall (item_started item) r = on_item_started at wall item r
on_notice at wall (item_completed item) r = with_telemetry (observe_item item.tool true at wall) r
on_notice at wall (turn_completed c) r =
    with_telemetry (end_telemetry at wall (final_stage (status_of c))) r
on_notice at wall other r = r

abbrev is_turn_started : Notice → Bool
is_turn_started turn_started = true
is_turn_started _ = false

unfoldable pub on_message : ℕ → ℕ → Notice → Running → Running
unfolding on_notice
on_message at wall notice r = on_notice at wall notice (
    report "" "" false "last_native_activity_at"
      (with_telemetry (observe_native_activity at wall (not (is_turn_started notice))) r))

-- `candidate_turn_id and candidate_turn_id != turn_id`
abbrev pub is_foreign : String → Option String → Bool
is_foreign turn_id none = false
is_foreign turn_id (some candidate) = not (candidate == turn_id)
