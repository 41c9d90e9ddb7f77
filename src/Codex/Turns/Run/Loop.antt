-- ===== src/Codex/Turns/Run/Loop.antt =====
-- src/cfr/codex/turns.py: the loop of `run_turn`, and how a turn ends: completed, timed out or failed.
use codex_feishu_remoter.Prelude.{
  ℕ, String, ◌+◌, true, false, ◌==◌, ◌<>◌, Option, none, some, List, [], ◌∷◌, if◌then◌else◌, eqb,
  leb, is_empty_text, Outcome, ok, raised,
}
use codex_feishu_remoter.Core.Telemetry.{TurnTelemetry, mark, set_identity, add_event, set_stage}
use codex_feishu_remoter.Codex.Turns.{
  ActiveTurn, TurnResult, Registry, observe, complete_telemetry, register, get, finish,
}
use codex_feishu_remoter.Codex.Turns.Run.{
  Fault, Item, Completed, Notice, turn_completed, Got, message, Got.empty, broken, Arrival, Running,
  joined_deltas, final_stage, status_of, report, with_telemetry, on_message, is_foreign,
}

-- how the loop is left
pub data Left : Type 0 where
  left_completed : Completed → Running → Left
  left_timeout : Running → Left
  left_raised : Fault → Running → Left

-- `rest` goes on with the arrivals that follow.
abbrev pub after_notice : Notice → (Running → Left) → Running → Left
after_notice (turn_completed c) rest r = left_completed c r
after_notice notice rest r = rest r

abbrev pub on_got : String → ℕ → ℕ → Got → (Running → Left) → Running → Left
on_got turn_id now wall empty rest r = left_timeout r
on_got turn_id now wall (broken e) rest r = left_raised e r
on_got turn_id now wall (message candidate notice) rest r =
    if is_foreign turn_id candidate
    then rest r
    else after_notice notice rest (on_message now wall notice r)

unfoldable pub turn_loop : String → ℕ → List Arrival → Running → Left
turn_loop turn_id deadline [] r = left_timeout r
turn_loop turn_id deadline (a ∷ arrivals) r =
    let next = on_got turn_id a.now a.wall a.got (turn_loop turn_id deadline arrivals) r in
    if leb deadline a.now then left_timeout r else next

-- A call of `run_turn`: `telemetry_id` names the telemetry, `response` is the turn id of the answer to
-- `turn/start`, `interrupt` the exception of the request that a timeout sends, and `ended_at` the clock
-- at the end.
pub record Call : Type 0 where
  pub thread_id : String
  pub telemetry_id : String
  pub timeout : ℕ
  pub started_at : ℕ
  pub now : ℕ
  pub wall : ℕ
  pub response : Outcome Fault String
  pub interrupt : Option Fault
  pub ended_at : ℕ
  pub ended_wall : ℕ

abbrev pub timeout_invalid : Fault
timeout_invalid = record {
  name = "StructuredError";
  text = "Codex turn timeout must be a positive finite number";
}

abbrev pub no_turn_id : Fault
no_turn_id = record { name = "RuntimeError"; text = "turn/start returned no turn id" }

-- what is returned or raised, the registry and the observations
abbrev pub Ended : Type 0
Ended = Outcome Fault TurnResult × (Registry × Running)

abbrev pub with_event : Option Fault → ℕ → TurnTelemetry → TurnTelemetry
with_event none wall t =
    add_event "Timeout interrupt requested" "lifecycle" (some "requested") wall t
with_event (some e) wall t =
    add_event "Timeout interrupt failed" "lifecycle" (some ("failed:" <> e.name)) wall t

abbrev pub interrupt_error : Option Fault → Option String
interrupt_error none = none
interrupt_error (some e) = some ("Native timeout interrupt failed:" <> e.name)

-- `_timeout_result`
unfoldable pub timeout_result : Call → String → Running → Registry → Ended
timeout_result call turn_id r reg =
    let result : TurnResult = record {
      thread_id = call.thread_id;
      turn_id = turn_id;
      status = "timeout";
      final_agent_message = joined_deltas r.deltas;
      started_at = call.started_at;
      completed_at = call.ended_at;
      error_message = interrupt_error call.interrupt;
      telemetry = some call.telemetry_id;
    } in
    let closed : TurnTelemetry → TurnTelemetry = λ t.
      set_stage "timed_out" (some "timed_out") (some "Turn timed out") call.ended_wall (
        mark "turn_completed_at" call.ended_at call.ended_wall false
          (with_event call.interrupt call.ended_wall t)) in
    (
      ok result,
      (finish result reg, report "timed_out" "timed_out" false "" (with_telemetry closed r)),
    )

-- the texts of the agent's messages, where no delta came
abbrev pub item_texts : List Item → String
item_texts [] = ""
item_texts (item ∷ items) =
    let rest = item_texts items in if item.type == "agentMessage" then item.text <> rest else rest

abbrev pub final_message : Completed → Running → String
final_message c r =
    if is_empty_text (joined_deltas r.deltas) then item_texts c.items else joined_deltas r.deltas

abbrev pub nonempty : Option String → Option String
nonempty none = none
nonempty (some text) = if is_empty_text text then none else some text

-- A time of 0 is none.
abbrev pub time_or : Option ℕ → ℕ → ℕ
time_or none default = default
time_or (some at) default = if eqb at 0 then default else at

abbrev pub completed_result : Call → String → Completed → Running → TurnResult
completed_result call turn_id c r = record {
  thread_id = call.thread_id;
  turn_id = turn_id;
  status = status_of c;
  final_agent_message = final_message c r;
  started_at = time_or c.started_at call.started_at;
  completed_at = time_or c.completed_at call.ended_at;
  error_message = nonempty c.error_message;
  telemetry = some call.telemetry_id;
}

abbrev pub failed_result : Call → String → Fault → Running → TurnResult
failed_result call turn_id e r = record {
  thread_id = call.thread_id;
  turn_id = turn_id;
  status = "failed";
  final_agent_message = joined_deltas r.deltas;
  started_at = call.started_at;
  completed_at = call.ended_at;
  error_message = some e.text;
  telemetry = some call.telemetry_id;
}

-- the registry after an exception: a turn that is active has failed
abbrev pub fail_active : Call → String → Fault → Running → Option ActiveTurn → Registry → Registry
fail_active call turn_id e r none reg = complete_telemetry (some call.telemetry_id) reg
fail_active call turn_id e r (some turn) reg = finish (failed_result call turn_id e r) reg

abbrev pub fail_registry : Call → Option String → Fault → Running → Registry → Registry
fail_registry call none e r reg = complete_telemetry (some call.telemetry_id) reg
fail_registry call (some turn_id) e r reg =
    fail_active call turn_id e r (get call.thread_id reg) reg

-- the `except` block
unfoldable pub fail_turn : Call → Option String → Fault → Running → Registry → Ended
fail_turn call turn_id e r reg =
    let closed : TurnTelemetry → TurnTelemetry = λ t.
      set_stage "failed" (some "failed") (some "Turn failed") call.ended_wall
        (mark "turn_completed_at" call.ended_at call.ended_wall false t) in
    (
      raised e,
      (
        fail_registry call turn_id e r reg,
        report "failed" "failed" false "" (with_telemetry closed r),
      ),
    )

unfoldable pub end_turn : Call → String → Left → Registry → Ended
unfolding timeout_result fail_turn
end_turn call turn_id (left_completed c r) reg =
    let result : TurnResult = completed_result call turn_id c r in
    (
      ok result,
      (
        finish result reg,
        report (final_stage result.status) (final_stage result.status) false "" r,
      ),
    )
end_turn call turn_id (left_timeout r) reg = timeout_result call turn_id r reg
end_turn call turn_id (left_raised e r) reg = fail_turn call (some turn_id) e r reg

abbrev pub started : Call → String → TurnTelemetry → TurnTelemetry
started call turn_id t =
    set_stage "running" (some "running") (some "Turn started") call.wall
      (set_identity none (some turn_id) (mark "turn_started_at" call.now call.wall false t))

abbrev pub after_start : Call → List Arrival → Registry → Running → Outcome Fault String → Ended
after_start call arrivals reg r (raised e) = fail_turn call none e r reg
after_start call arrivals reg r (ok turn_id) =
    if is_empty_text turn_id
    then fail_turn call none no_turn_id r reg
    else end_turn call turn_id
        (turn_loop turn_id (call.now + call.timeout) arrivals
          (report "running" "running" true "" (with_telemetry (started call turn_id) r)))
        (register
          (record {
            thread_id = call.thread_id;
            turn_id = turn_id;
            telemetry = some call.telemetry_id;
          })
          reg)

abbrev pub requested : Call → TurnTelemetry → Running
requested call t = record {
  telemetry =
      mark "turn_start_requested_at" call.now call.wall false
        (set_identity (some call.thread_id) none t);
  deltas = [];
  summary = "";
  preview = "";
  progress = [];
}

unfoldable pub run_turn : Call → TurnTelemetry → List Arrival → Registry → Ended
run_turn call t arrivals reg =
    let out =
      after_start call arrivals (observe (some call.telemetry_id) reg) (requested call t)
        call.response in
    if eqb call.timeout 0
    then (raised timeout_invalid, (reg, record (requested call t) { telemetry = t }))
    else out
