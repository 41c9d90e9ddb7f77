-- ===== src/Core/Telemetry/Examples.antt =====
-- A turn whose transport fails once, and the theorems at it.
use codex_feishu_remoter.Prelude.{
  sql, upsert, ◌≡◌, refl, true, false, none, some, List, [], ◌∷◌, run,
}
use codex_feishu_remoter.Core.Telemetry.{
  TurnTelemetry, new_telemetry, stamp_keyed, ToolItem, mark, observe_native_activity,
  observe_transport_retry, observe_model_activity, observe_tool,
}
use codex_feishu_remoter.Core.Telemetry.Bounds.{
  TurnOp, marking, native_activity, transport_retry, model_activity, tool, apply, IsBounded,
  run-IsBounded,
}

abbrev shell : ToolItem
shell = record {
  category = "command";
  name = "Command execution";
  id = some "1";
  failed = false;
  duration_ms = none;
}

abbrev turn : List TurnOp
turn =
    marking "turn_started_at" 10 10 false
    ∷ transport_retry 11 11
    ∷ model_activity 12 12
    ∷ tool shell false 13 13
    ∷ tool shell true 20 20
    ∷ native_activity 21 21 true
    ∷ marking "turn_started_at" 30 30 false
    ∷ []

abbrev after : TurnTelemetry
after = run apply turn new_telemetry

takes_seven : (after.tool_total_ms ≡ 7) × (after.transport_state ≡ some "websocket_recovered")
unfolding sql run upsert apply mark observe_native_activity observe_transport_retry
    observe_model_activity observe_tool
takes_seven = (refl, refl)

run-IsBounded_example : IsBounded (run apply turn new_telemetry)
run-IsBounded_example = run-IsBounded turn
