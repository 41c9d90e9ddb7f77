-- ===== src/Codex/Binding/Settings.antt =====
-- src/cfr/codex/binding.py: `CodexAdapter.update_thread_settings`, which holds both leases as
-- `send_message` does. `update` and `notified` are what the request and the subscription give.
pub mod Released
use codex_feishu_remoter.Prelude.{
  ℕ, String, Bool, true, false, not, ◌&&◌, ◌==◌, Option, none, some, List, [], ◌∷◌, if◌then◌else◌,
  is_null, Outcome, ok, raised,
}
use codex_feishu_remoter.Codex.RuntimeLease
use codex_feishu_remoter.Codex.RuntimeLease.{Database, CfrThreadRuntimeLease, LeaseError}
use codex_feishu_remoter.Codex.WriterLease
use codex_feishu_remoter.Codex.WriterLease.{
  WriterLeaseManager, WriterError, is_external, state_for, mark_external, recover,
}
use codex_feishu_remoter.Storage.{
  BindingRecord, ObservedSettings, get_binding, update_observed_settings, update_desktop_sync_state,
  set_writer_state,
}
use codex_feishu_remoter.Codex.Turns.Run.{Fault}
use codex_feishu_remoter.Codex.Binding.{
  Adapter, SendError, binding_not_found, external_writer_active, thread_id_mismatch,
  thread_settings_confirmation_unavailable, cfr_runtime_lease_lost, of_runtime_lease,
  of_writer_lease, of_fault, Resume, resumed, rpc_error, broken, Chances, Sent, unless_fault,
  resume_bound_thread, clean_up, give_up,
}

-- `changes`: whether a setting is given; `update`: the failure of the request; `notified`: the settings
-- that the subscription gives in time, or its failure; `confirm`: the second `thread/resume`
pub record Update : Type 0 where
  pub changes : Bool
  pub update : Option Fault
  pub notified : Outcome Fault (Option ObservedSettings)
  pub confirm : Resume

-- `_observe_settings` gives nothing if no setting is in the response.
abbrev pub nothing_observed : ObservedSettings → Bool
nothing_observed s = is_null s.model && (is_null s.effort && is_null s.service_tier)

-- the row that `_projected_settings` shows
abbrev pub projected : String → Adapter → Option BindingRecord → Sent BindingRecord
projected thread_id a none = (raised binding_not_found, a)
projected thread_id a (some r) = (ok r, a)

unfoldable pub projected_settings : String → Adapter → Sent BindingRecord
projected_settings thread_id a = projected thread_id a (get_binding thread_id a.store)

abbrev pub synced : Chances → String → Bool → Adapter → Adapter
synced c thread_id changes a =
    if changes
    then record a { store = update_desktop_sync_state c.now thread_id "refresh_required" a.store }
    else a

abbrev pub confirmed : Chances → Update → String → ObservedSettings → Adapter → Sent BindingRecord
confirmed c u thread_id settings a =
    let observed : Adapter = record a {
      store = update_observed_settings c.now thread_id settings a.store;
    } in
    let rest = projected_settings thread_id (synced c thread_id u.changes observed) in
    if nothing_observed settings
    then (raised thread_settings_confirmation_unavailable, a)
    else if c.lost_after
    then (raised cfr_runtime_lease_lost, observed)
    else rest

-- without a notification: what the thread is resumed with
abbrev pub by_confirm : Chances → Update → String → Resume → Adapter → Sent BindingRecord
by_confirm c u thread_id (broken e) a = (raised (of_fault e), a)
by_confirm c u thread_id (rpc_error archived writer e) a = (raised (of_fault e), a)
by_confirm c u thread_id (resumed ref settings) a =
    let rest = confirmed c u thread_id settings a in
    if ref.thread_id == thread_id then rest else (raised thread_id_mismatch, a)

abbrev pub by_notified :
    Chances
    → Update
    → String
    → Outcome Fault (Option ObservedSettings)
    → Adapter
    → Sent BindingRecord
by_notified c u thread_id (raised e) a = (raised (of_fault e), a)
by_notified c u thread_id (ok (some settings)) a = confirmed c u thread_id settings a
by_notified c u thread_id (ok none) a = by_confirm c u thread_id u.confirm a

abbrev pub request_update :
    Chances → Update → String → ObservedSettings → Adapter → Sent BindingRecord
request_update c u thread_id settings a =
    let requested = unless_fault u.update (by_notified c u thread_id u.notified) a in
    let unchanged = confirmed c u thread_id settings a in
    if c.lost_before
    then (raised cfr_runtime_lease_lost, a)
    else if u.changes
    then requested
    else unchanged

abbrev pub settings_resumed : Chances → Update → String → Adapter → Resume → Sent BindingRecord
settings_resumed c u thread_id a (broken e) = (raised (of_fault e), a)
settings_resumed c u thread_id a (rpc_error archived false e) = (raised (of_fault e), a)
settings_resumed c u thread_id a (rpc_error archived true e) = (
  raised external_writer_active,
  record a {
    leases = mark_external thread_id a.leases;
    store = set_writer_state c.now thread_id "external_active" a.store;
  },
)
settings_resumed c u thread_id a (resumed ref settings) =
    let observed : Adapter = record a {
      store = update_observed_settings c.now thread_id settings a.store;
      leases = recover thread_id a.leases;
    } in
    let rest =
      unless_fault c.observe_fault (λ b. request_update c u thread_id settings observed) a in
    if ref.thread_id == thread_id then rest else (raised thread_id_mismatch, a)

-- the `try` block
unfoldable pub settings_body : Chances → Update → String → Adapter → Sent BindingRecord
settings_body c u thread_id a =
    let marked : Adapter =
      if c.writer_projection_fails
      then a
      else record a { store = set_writer_state c.now thread_id "cfr_active" a.store } in
    unless_fault c.client_fault (λ b. settings_resumed c u thread_id b (resume_bound_thread c))
      marked

-- A refused writer lease leaves the durable lease as it is.
abbrev pub settings_writer :
    Chances
    → Update
    → String
    → CfrThreadRuntimeLease
    → Adapter
    → Outcome WriterError (Unit {0}) × WriterLeaseManager
    → Sent BindingRecord
settings_writer c u thread_id lease a (raised e, leases) =
    (raised (of_writer_lease e), record a { leases = leases })
settings_writer c u thread_id lease a (ok t, leases) =
    clean_up c thread_id lease (settings_body c u thread_id (record a { leases = leases }))

abbrev pub settings_heartbeat :
    Chances → Update → String → CfrThreadRuntimeLease → Option Fault → Adapter → Sent BindingRecord
settings_heartbeat c u thread_id lease (some e) a = give_up c lease (of_fault e) a
settings_heartbeat c u thread_id lease none a =
    settings_writer c u thread_id lease a (WriterLease.acquire thread_id a.leases)

abbrev pub settings_lease :
    Chances
    → Update
    → String
    → Adapter
    → Outcome LeaseError CfrThreadRuntimeLease × Database
    → Sent BindingRecord
settings_lease c u thread_id a (raised e, db) =
    (raised (of_runtime_lease e), record a { database = db })
settings_lease c u thread_id a (ok lease, db) =
    settings_heartbeat c u thread_id lease c.heartbeat_fault (record a { database = db })

abbrev pub settings_binding :
    Chances → Update → String → Adapter → Option BindingRecord → Sent BindingRecord
settings_binding c u thread_id a none = (raised binding_not_found, a)
settings_binding c u thread_id a (some r) =
    let rest =
      settings_lease c u thread_id a (
        RuntimeLease.acquire c.manager c.alive c.lease_busy c.now c.lease_id thread_id
          a.database) in
    if is_external (state_for thread_id a.leases) then (raised external_writer_active, a) else rest

unfoldable pub update_thread_settings : Chances → Update → String → Adapter → Sent BindingRecord
unfolding settings_body
update_thread_settings c u thread_id a =
    settings_binding c u thread_id a (get_binding thread_id a.store)
