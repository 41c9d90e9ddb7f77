-- ===== src/Codex/Binding/Examples.antt =====
-- A message to a bound thread whose client does not start, and the theorem at it.
use codex_feishu_remoter.Prelude.{
  sql, upsert, ◌≡◌, refl, true, false, none, some, [], ◌∷◌, ok, raised,
}
use codex_feishu_remoter.Core.Telemetry.{new_telemetry}
use codex_feishu_remoter.Codex.RuntimeLease.{
  LeaseRow, lease_keyed, Database, CfrThreadRuntimeLease, acquire,
}
use codex_feishu_remoter.Codex.WriterLease
use codex_feishu_remoter.Codex.WriterLease.{cfr_active, writer_active}
use codex_feishu_remoter.Storage.{BindingRow, BindingRecord, record_of, ThreadRef, get_binding}
use codex_feishu_remoter.Codex.Turns.{new_registry}
use codex_feishu_remoter.Codex.Turns.Run.{Fault}
use codex_feishu_remoter.Codex.Turns.Run.Loop.{Call}
use codex_feishu_remoter.Codex.Binding.{
  Adapter, of_fault, of_writer_lease, resumed, Chances, send_body, clean_up, send_message,
}
use codex_feishu_remoter.Codex.Binding.Released.{IsReleased, Holds, send_message-IsReleased}
use codex_feishu_remoter.Codex.Binding.Settings.{Update, update_thread_settings}
use codex_feishu_remoter.Codex.Binding.Settings.Released.{
  update_thread_settings-IsReleased, update_thread_settings-Holds,
}

abbrev thread : ThreadRef
thread = record { thread_id = "t"; name = none; cwd = "/w"; rollout_path = none }

abbrev bound_row : BindingRow
bound_row = record {
  thread_id = "t";
  thread_name = none;
  cwd = "/w";
  rollout_path = "";
  last_rollout_byte_offset = 0;
  last_seen_turn_id = none;
  desktop_sync_state = "unknown";
  active_turn_id = none;
  writer_state = none;
  observed_model = none;
  observed_reasoning_effort = none;
  observed_service_tier = none;
  observed_settings_at = none;
  created_at = 1;
  updated_at = 1;
}

abbrev bound : BindingRecord
bound = record_of bound_row

abbrev adapter : Adapter
adapter = record {
  database = record { leases = []; generations = [] };
  leases = [];
  store = record { bindings = bound_row ∷ []; events = [] };
  registry = new_registry;
}

abbrev start_failed : Fault
start_failed = record { name = "OSError"; text = "codex is not installed" }

abbrev chances : Chances
chances = record {
  manager = record { instance_id = "i"; owner_pid = 7; ttl = 30 };
  alive = λ pid. true;
  lease_busy = false;
  lease_id = "l";
  now = 5;
  heartbeat_fault = none;
  writer_projection_fails = false;
  client_fault = some start_failed;
  first_resume = resumed thread (record { model = none; effort = none; service_tier = none });
  unarchive = none;
  second_resume = resumed thread (record { model = none; effort = none; service_tier = none });
  observe_fault = none;
  lost_before = false;
  turn_projection_fails = false;
  lost_after = false;
  saved_fault = none;
  close_fault = none;
  clear_fault = none;
  release_fails = (true, (false, false));
}

abbrev call : Call
call = record {
  thread_id = "t";
  telemetry_id = "m";
  timeout = 100;
  started_at = 1;
  now = 1;
  wall = 1;
  response = ok "7";
  interrupt = none;
  ended_at = 9;
  ended_wall = 9;
}

fails : (send_message chances call new_telemetry [] adapter).0 ≡ raised (of_fault start_failed)
unfolding sql get_binding send_message send_body clean_up acquire WriterLease.state_for
    WriterLease.acquire
fails = refl

send_message-IsReleased_example :
    IsReleased "t" adapter (send_message chances call new_telemetry [] adapter).1
send_message-IsReleased_example =
    send_message-IsReleased chances call new_telemetry [] adapter refl tt

abbrev update : Update
update = record {
  changes = true;
  update = none;
  notified = ok none;
  confirm = resumed thread (record { model = none; effort = none; service_tier = none });
}

update_thread_settings-IsReleased_example :
    IsReleased "t" adapter (update_thread_settings chances update "t" adapter).1
unfolding sql WriterLease.state_for
update_thread_settings-IsReleased_example =
    update_thread_settings-IsReleased chances update "t" adapter refl refl tt

-- The process writes to the thread with a durable lease that has run out.
abbrev run_out : LeaseRow
run_out = record {
  thread_id = "t";
  lease_id = "k";
  owner_instance_id = "i";
  owner_pid = some 7;
  generation = 1;
  acquired_at = 1;
  heartbeat_at = 1;
  expires_at = 4;
}

abbrev writing : Adapter
writing = record adapter {
  leases = record { thread_id = "t"; state = cfr_active } ∷ [];
  database = record {
    leases = run_out ∷ [];
    generations = record { thread_id = "t"; generation = 1 } ∷ [];
  };
}

abbrev second : CfrThreadRuntimeLease
second = record {
  thread_id = "t";
  lease_id = "l";
  owner_instance_id = "i";
  owner_pid = 7;
  generation = 2;
  acquired_at = 5;
  heartbeat_at = 5;
  expires_at = 35;
  lease_lost = false;
}

abbrev taken_over : Database
taken_over = record {
  leases =
      record run_out {
        lease_id = "l";
        generation = 2;
        acquired_at = 5;
        heartbeat_at = 5;
        expires_at = 35;
      }
      ∷ [];
  generations = record { thread_id = "t"; generation = 2 } ∷ [];
}

takes_over :
    acquire chances.manager chances.alive false 5 "l" "t" writing.database ≡ (ok second, taken_over)
unfolding sql upsert acquire
takes_over = refl

update_thread_settings-Holds_example :
    ((update_thread_settings chances update "t" writing).0 ≡ raised (of_writer_lease writer_active))
    × Holds "t" second (update_thread_settings chances update "t" writing).1.database
unfolding sql get_binding WriterLease.state_for
update_thread_settings-Holds_example =
    update_thread_settings-Holds chances update "t" writing bound second taken_over refl refl
      takes_over refl (refl, tt)
