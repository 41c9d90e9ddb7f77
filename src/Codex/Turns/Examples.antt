-- ===== src/Codex/Turns/Examples.antt =====
-- A turn that is run twice, and the theorem at the calls.
use codex_feishu_remoter.Prelude.{
  sql, String, ◌≤◌, ◌≡◌, refl, true, none, some, List, [], ◌∷◌, lookup, has, upsert, run,
}
use codex_feishu_remoter.Core.Telemetry.{count}
use codex_feishu_remoter.Codex.Turns.{
  ActiveTurn, TurnResult, active_keyed, result_keyed, done_keyed, new_registry, recent_turn_limit,
  register, finish, result_of, RegistryOp, registering, finishing, apply,
}
use codex_feishu_remoter.Codex.Turns.Signals.{agrees}
use codex_feishu_remoter.Codex.Turns.Runs.{run-Agrees}

abbrev turn : String → ActiveTurn
turn id = record { thread_id = "t"; turn_id = id; telemetry = some "m" }

abbrev result : String → TurnResult
result id = record {
  thread_id = "t";
  turn_id = id;
  status = "completed";
  final_agent_message = "Done";
  started_at = 1;
  completed_at = 2;
  error_message = none;
  telemetry = some "m";
}

abbrev calls : List RegistryOp
calls = registering (turn "1") ∷ finishing (result "1") ∷ registering (turn "2") ∷ []

-- The result of the first turn is not taken for that of the second.
no_result_yet : result_of "t" (run apply calls new_registry) ≡ none
unfolding sql run apply register finish result_of upsert
no_result_yet = refl

run-Agrees_example :
    (agrees
        (lookup "t" (run apply calls new_registry).done)
        (has "t" (run apply calls new_registry).active)
        (has "t" (run apply calls new_registry).results)
      ≡ true)
    × (count (run apply calls new_registry).results ≤ recent_turn_limit)
run-Agrees_example = run-Agrees calls "t"
