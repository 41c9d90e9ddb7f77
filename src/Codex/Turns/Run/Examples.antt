-- ===== src/Codex/Turns/Run/Examples.antt =====
-- A turn whose answer comes in two parts with a message of another turn between them, and the theorems
-- at it.
use codex_feishu_remoter.Prelude.{
  sql, ◌<>◌, ◌≡◌, refl, none, some, List, [], ◌∷◌, where_select, upsert, ok,
}
use codex_feishu_remoter.Core.Telemetry.{
  new_telemetry, mark, set_identity, add_event, set_stage, observe_native_activity,
  observe_model_activity,
}
use codex_feishu_remoter.Codex.Turns.{TurnResult, new_registry}
use codex_feishu_remoter.Codex.Turns.Run.{
  Completed, agent_delta, turn_completed, message, Arrival, joined_deltas, on_notice, on_message,
}
use codex_feishu_remoter.Codex.Turns.Run.Loop.{Call, turn_loop, end_turn, run_turn}
use codex_feishu_remoter.Codex.Turns.Run.Ends.{HasEnded, run_turn-HasEnded, is_own, run_turn_own}

abbrev call : Call
call = record {
  thread_id = "t";
  telemetry_id = "m";
  timeout = 100;
  started_at = 1;
  now = 1;
  wall = 1;
  response = ok "7";
  interrupt = none;
  ended_at = 9;
  ended_wall = 9;
}

abbrev done : Completed
done = record {
  status = none;
  items = [];
  error_message = none;
  started_at = none;
  completed_at = none;
}

abbrev arrivals : List Arrival
arrivals =
    record { now = 2; wall = 2; got = message (some "7") (agent_delta "i" "Hel") }
    ∷ record { now = 3; wall = 3; got = message (some "6") (agent_delta "i" "???") }
    ∷ record { now = 4; wall = 4; got = message none (agent_delta "i" "lo") }
    ∷ record { now = 5; wall = 5; got = message (some "7") (turn_completed done) }
    ∷ []

abbrev answer : TurnResult
answer = record {
  thread_id = "t";
  turn_id = "7";
  status = "completed";
  final_agent_message = "Hello";
  started_at = 1;
  completed_at = 9;
  error_message = none;
  telemetry = some "m";
}

answers : (run_turn call new_telemetry arrivals new_registry).0 ≡ ok answer
unfolding sql upsert ◌<>◌ run_turn turn_loop end_turn joined_deltas on_message on_notice mark
    set_identity add_event set_stage observe_native_activity observe_model_activity
answers = refl

run_turn-HasEnded_example : HasEnded "t" "7" (run_turn call new_telemetry arrivals new_registry)
run_turn-HasEnded_example =
    run_turn-HasEnded call new_telemetry arrivals new_registry "7" refl refl refl

run_turn_own_example :
    run_turn call new_telemetry
      (where_select (λ (a : Arrival). is_own "7" a.got) arrivals)
      new_registry
    ≡ run_turn call new_telemetry arrivals new_registry
run_turn_own_example =
    run_turn_own call new_telemetry arrivals new_registry "7" refl
      (refl, (refl, (refl, (refl, tt))))
