-- ===== src/Codex/Binding.antt =====
-- src/cfr/codex/binding.py: `CodexAdapter.send_message`, which runs a turn of a bound thread under the
-- durable lease and the writer lease. What the app server answers and which calls fail are the fields
-- of `Chances`; the thread that repeats the heartbeat, and the observations of the telemetry, are left
-- out. The adapter has a store and durable leases.
pub mod Released
pub mod Settings
mod Examples
use codex_feishu_remoter.Prelude.{
  ℕ, String, Bool, true, false, not, ◌&&◌, ◌||◌, ◌==◌, Option, none, some, List, [], ◌∷◌,
  if◌then◌else◌, is_empty_text, Outcome, ok, raised,
}
use codex_feishu_remoter.Core.Telemetry.{TurnTelemetry}
use codex_feishu_remoter.Codex.RuntimeLease
use codex_feishu_remoter.Codex.RuntimeLease.{Database, Manager, CfrThreadRuntimeLease, LeaseError}
use codex_feishu_remoter.Codex.WriterLease
use codex_feishu_remoter.Codex.WriterLease.{
  LeaseState, cfr_active, external_active, WriterLeaseManager, WriterError, is_external, state_for,
  mark_external, recover,
}
use codex_feishu_remoter.Storage.{
  BindingStore, BindingRecord, ObservedSettings, ThreadRef, get_binding, update_rollout_path,
  update_observed_settings, update_last_seen_turn, update_desktop_sync_state, set_active_turn,
  clear_active_turn, set_writer_state,
}
use codex_feishu_remoter.Codex.Turns.{TurnResult, Registry}
use codex_feishu_remoter.Codex.Turns.Run.{Fault, Arrival, Running}
use codex_feishu_remoter.Codex.Turns.Run.Loop.{Call, Ended, run_turn}

pub record Adapter : Type 0 where
  pub database : Database
  pub leases : WriterLeaseManager
  pub store : BindingStore
  pub registry : Registry

pub data SendError : Type 0 where
  binding_not_found external_writer_active thread_id_mismatch : SendError
  thread_settings_confirmation_unavailable : SendError
  cfr_runtime_lease_lost cfr_runtime_lease_release_failed : SendError
  of_runtime_lease : LeaseError → SendError
  of_writer_lease : WriterError → SendError
  of_fault : Fault → SendError

-- The answer to `thread/resume`. An `AppServerRpcError` tells whether its message says that the thread
-- is archived, and whether that it has an active writer.
pub data Resume : Type 0 where
  resumed : ThreadRef → ObservedSettings → Resume
  rpc_error : Bool → Bool → Fault → Resume
  broken : Fault → Resume

-- the readings of the clock, the answers, and the failures: `none` or `false` where a call returns
pub record Chances : Type 0 where
  pub manager : Manager
  pub alive : Option ℕ → Bool
  pub lease_busy : Bool
  pub lease_id : String
  pub now : ℕ
  pub heartbeat_fault : Option Fault
  pub writer_projection_fails : Bool
  pub client_fault : Option Fault
  pub first_resume : Resume
  pub unarchive : Option Fault
  pub second_resume : Resume
  pub observe_fault : Option Fault
  pub lost_before : Bool
  pub turn_projection_fails : Bool
  pub lost_after : Bool
  pub saved_fault : Option Fault
  pub close_fault : Option Fault
  pub clear_fault : Option Fault
  pub release_fails : Bool × (Bool × Bool)

-- what `run` returns or raises
abbrev pub Sent : Type 0 → Type 0
Sent R = Outcome SendError R × Adapter

abbrev pub unless_fault : {R : Type 0} → Option Fault → (Adapter → Sent R) → Adapter → Sent R
unless_fault none next a = next a
unless_fault (some e) next a = (raised (of_fault e), a)

abbrev pub state_text : LeaseState → String
state_text LeaseState.idle = "idle"
state_text cfr_active = "cfr_active"
state_text external_active = "external_active"
state_text LeaseState.unknown = "unknown"

abbrev pub is_cfr : LeaseState → Bool
is_cfr cfr_active = true
is_cfr _ = false

-- `_resume_bound_thread`: an archived thread is unarchived and resumed again.
abbrev pub resume_again : Option Fault → Resume → Resume
resume_again none second = second
resume_again (some e) second = broken e

unfoldable pub resume_bound_thread : Chances → Resume
resume_bound_thread c = by_first c.first_resume
  where
    by_first : Resume → Resume
    by_first (resumed ref settings) = resumed ref settings
    by_first (rpc_error true writer e) = resume_again c.unarchive c.second_resume
    by_first (rpc_error false writer e) = rpc_error false writer e
    by_first (broken e) = broken e

abbrev pub saved : Chances → String → TurnResult → Adapter → Sent TurnResult
saved c thread_id turn a = (
  ok turn,
  record a {
    store =
        update_desktop_sync_state c.now thread_id "refresh_required"
          (update_last_seen_turn c.now thread_id turn.turn_id a.store);
  },
)

abbrev pub after_turn : Chances → String → Adapter → Ended → Sent TurnResult
after_turn c thread_id a (raised e, (registry, r)) =
    (raised (of_fault e), record a { registry = registry })
after_turn c thread_id a (ok turn, (registry, r)) =
    let a' : Adapter = record a { registry = registry } in
    let rest = unless_fault c.saved_fault (saved c thread_id turn) a' in
    if c.lost_after then (raised cfr_runtime_lease_lost, a') else rest

-- `project_progress`: the first report of a turn that has started names it.
abbrev pub project_turn : Chances → String → Outcome Fault String → BindingStore → BindingStore
project_turn c thread_id (raised e) s = s
project_turn c thread_id (ok turn_id) s =
    if c.turn_projection_fails || is_empty_text turn_id
    then s
    else set_active_turn c.now thread_id turn_id "cfr_active" s

abbrev pub run_the_turn : Chances → Call → TurnTelemetry → List Arrival → Adapter → Sent TurnResult
run_the_turn c call t arrivals a =
    let a' : Adapter = record a { store = project_turn c call.thread_id call.response a.store } in
    let rest = after_turn c call.thread_id a' (run_turn call t arrivals a.registry) in
    if c.lost_before then (raised cfr_runtime_lease_lost, a) else rest

abbrev pub with_path : ℕ → String → Option String → BindingStore → BindingStore
with_path now thread_id none s = s
with_path now thread_id (some path) s = update_rollout_path now thread_id path s

abbrev pub after_resume :
    Chances → Call → TurnTelemetry → List Arrival → Adapter → Resume → Sent TurnResult
after_resume c call t arrivals a (broken e) = (raised (of_fault e), a)
after_resume c call t arrivals a (rpc_error archived false e) = (raised (of_fault e), a)
after_resume c call t arrivals a (rpc_error archived true e) = (
  raised external_writer_active,
  record a {
    leases = mark_external call.thread_id a.leases;
    store = set_writer_state c.now call.thread_id "external_active" a.store;
  },
)
after_resume c call t arrivals a (resumed ref settings) =
    let observed : Adapter = record a {
      store =
          update_observed_settings c.now call.thread_id settings
            (with_path c.now call.thread_id ref.rollout_path a.store);
      leases = recover call.thread_id a.leases;
    } in
    let rest = unless_fault c.observe_fault (λ b. run_the_turn c call t arrivals observed) a in
    if ref.thread_id == call.thread_id then rest else (raised thread_id_mismatch, a)

-- the `try` block
unfoldable pub send_body : Chances → Call → TurnTelemetry → List Arrival → Adapter → Sent TurnResult
send_body c call t arrivals a =
    let marked : Adapter =
      if c.writer_projection_fails
      then a
      else record a { store = set_writer_state c.now call.thread_id "cfr_active" a.store } in
    unless_fault c.client_fault (λ b. after_resume c call t arrivals b (resume_bound_thread c))
      marked

-- `_release_runtime_lease`, and the error that it adds
abbrev pub release_runtime : Chances → CfrThreadRuntimeLease → Database → Bool × Database
release_runtime c lease db =
    RuntimeLease.release c.release_fails.0 c.release_fails.1.0 c.release_fails.1.1 lease db

abbrev pub release_error : Bool → Option SendError
release_error true = none
release_error false = some cfr_runtime_lease_release_failed

abbrev pub first_error : Option Fault → Option Fault → Option SendError → Option SendError
first_error (some e) clear release = some (of_fault e)
first_error none (some e) release = some (of_fault e)
first_error none none release = release

-- An error of the clean-up is raised if there was none before.
abbrev pub outcome_of : {R : Type 0} → Outcome SendError R → Option SendError → Outcome SendError R
outcome_of (raised e) cleanup = raised e
outcome_of (ok turn) none = ok turn
outcome_of (ok turn) (some e) = raised e

abbrev pub cleared : Chances → String → LeaseState → Option Fault → BindingStore → BindingStore
cleared c thread_id state (some e) s = s
cleared c thread_id state none s =
    clear_active_turn c.now thread_id (if is_cfr state then "idle" else state_text state) s

-- the `finally` block
unfoldable pub clean_up : {R : Type 0} → Chances → String → CfrThreadRuntimeLease → Sent R → Sent R
clean_up c thread_id lease (o, a) =
    let state : LeaseState = state_for thread_id a.leases in
    let released = release_runtime c lease a.database in
    (
      outcome_of o (first_error c.close_fault c.clear_fault (release_error released.0)),
      record a {
        store = cleared c thread_id state c.clear_fault a.store;
        leases = if is_cfr state then WriterLease.release thread_id a.leases else a.leases;
        database = released.1;
      },
    )

-- The lease is given back before the body: then its failure replaces the error.
abbrev pub give_up : {R : Type 0} → Chances → CfrThreadRuntimeLease → SendError → Adapter → Sent R
give_up c lease e a =
    let released = release_runtime c lease a.database in
    (
      raised (if released.0 then e else cfr_runtime_lease_release_failed),
      record a { database = released.1 },
    )

abbrev pub with_writer_lease :
    Chances
    → Call
    → TurnTelemetry
    → List Arrival
    → CfrThreadRuntimeLease
    → Adapter
    → Outcome WriterError (Unit {0}) × WriterLeaseManager
    → Sent TurnResult
with_writer_lease c call t arrivals lease a (raised e, leases) =
    give_up c lease (of_writer_lease e) a
with_writer_lease c call t arrivals lease a (ok u, leases) =
    clean_up c call.thread_id lease (send_body c call t arrivals (record a { leases = leases }))

abbrev pub with_heartbeat :
    Chances
    → Call
    → TurnTelemetry
    → List Arrival
    → CfrThreadRuntimeLease
    → Option Fault
    → Adapter
    → Sent TurnResult
with_heartbeat c call t arrivals lease (some e) a = give_up c lease (of_fault e) a
with_heartbeat c call t arrivals lease none a =
    if is_external (state_for call.thread_id a.leases)
    then clean_up c call.thread_id lease (send_body c call t arrivals a)
    else with_writer_lease c call t arrivals lease a (WriterLease.acquire call.thread_id a.leases)

abbrev pub with_lease :
    Chances
    → Call
    → TurnTelemetry
    → List Arrival
    → Adapter
    → Outcome LeaseError CfrThreadRuntimeLease × Database
    → Sent TurnResult
with_lease c call t arrivals a (raised e, db) =
    (raised (of_runtime_lease e), record a { database = db })
with_lease c call t arrivals a (ok lease, db) =
    with_heartbeat c call t arrivals lease c.heartbeat_fault (record a { database = db })

abbrev pub with_binding :
    Chances → Call → TurnTelemetry → List Arrival → Adapter → Option BindingRecord → Sent TurnResult
with_binding c call t arrivals a none = (raised binding_not_found, a)
with_binding c call t arrivals a (some binding) =
    with_lease c call t arrivals a (
      RuntimeLease.acquire c.manager c.alive c.lease_busy c.now c.lease_id call.thread_id
        a.database)

unfoldable pub send_message :
    Chances → Call → TurnTelemetry → List Arrival → Adapter → Sent TurnResult
unfolding send_body clean_up
send_message c call t arrivals a =
    with_binding c call t arrivals a (get_binding call.thread_id a.store)
