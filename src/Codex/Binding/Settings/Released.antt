-- ===== src/Codex/Binding/Settings/Released.antt =====
-- `update_thread_settings` gives back both leases if this process is not writing to the thread; else
-- the durable lease that it takes stays.
use codex_feishu_remoter.Prelude.{
  String, ◌≡◌, refl, sym, subst, ◌∙◌, inl, inr, Bool, true, false, ◌==◌, Option, none, some,
  if◌then◌else◌, Unique, Outcome, ok, raised,
}
use codex_feishu_remoter.Codex.RuntimeLease
use codex_feishu_remoter.Codex.RuntimeLease.{
  Database, CfrThreadRuntimeLease, LeaseError, lease_keyed,
}
use codex_feishu_remoter.Codex.WriterLease
use codex_feishu_remoter.Codex.WriterLease.{
  LeaseState, cfr_active, WriterLeaseManager, WriterError, writer_active, is_idle, is_external,
  state_for, put, grant_if,
}
use codex_feishu_remoter.Storage.{
  BindingRecord, ObservedSettings, get_binding, set_writer_state, update_observed_settings,
}
use codex_feishu_remoter.Codex.Turns.Run.{Fault}
use codex_feishu_remoter.Codex.Binding.{
  Adapter, external_writer_active, of_writer_lease, Resume, resumed, rpc_error, broken, Chances,
  unless_fault, resume_bound_thread,
}
use codex_feishu_remoter.Codex.Binding.Released.{
  IsReleased, Holds, Acquired, Works, Same, if_Same, unless_fault-Same, acquire-Acquired,
  release_gone, clean_up-IsReleased,
}
use codex_feishu_remoter.Codex.Binding.Settings.{
  Update, projected, projected_settings, synced, confirmed, by_confirm, by_notified, request_update,
  settings_resumed, settings_body, settings_writer, settings_heartbeat, settings_lease,
  settings_binding, update_thread_settings,
}

projected-Same :
    (thread_id : String) (a : Adapter) (o : Option BindingRecord)
    → Same a.database (projected thread_id a o)
projected-Same thread_id a none = refl
projected-Same thread_id a (some r) = refl

synced-database :
    (c : Chances) (thread_id : String) (b : Bool) (a : Adapter)
    → (synced c thread_id b a).database ≡ a.database
synced-database c thread_id true a = refl
synced-database c thread_id false a = refl

confirmed-Same :
    (c : Chances) (u : Update) (thread_id : String) (settings : ObservedSettings) (a : Adapter)
    → Same a.database (confirmed c u thread_id settings a)
unfolding projected_settings
confirmed-Same c u thread_id settings a =
    let observed : Adapter = record a {
      store = update_observed_settings c.now thread_id settings a.store;
    } in
    let last : Adapter = synced c thread_id u.changes observed in
    if_Same a.database _ _ _ refl (
      if_Same a.database c.lost_after _ _ refl (
        projected-Same thread_id last (get_binding thread_id last.store)
        ∙ synced-database c thread_id u.changes observed))

by_confirm-Same :
    (c : Chances) (u : Update) (thread_id : String) (r : Resume) (a : Adapter)
    → Same a.database (by_confirm c u thread_id r a)
by_confirm-Same c u thread_id (broken e) a = refl
by_confirm-Same c u thread_id (rpc_error archived writer e) a = refl
by_confirm-Same c u thread_id (resumed ref settings) a =
    if_Same a.database (ref.thread_id == thread_id) _ _ (confirmed-Same c u thread_id settings a)
      refl

by_notified-Same :
    (c : Chances) (u : Update) (thread_id : String) (o : Outcome Fault (Option ObservedSettings))
    (a : Adapter)
    → Same a.database (by_notified c u thread_id o a)
by_notified-Same c u thread_id (raised e) a = refl
by_notified-Same c u thread_id (ok (some settings)) a = confirmed-Same c u thread_id settings a
by_notified-Same c u thread_id (ok none) a = by_confirm-Same c u thread_id u.confirm a

request_update-Same :
    (c : Chances) (u : Update) (thread_id : String) (settings : ObservedSettings) (a : Adapter)
    → Same a.database (request_update c u thread_id settings a)
request_update-Same c u thread_id settings a = if_Same a.database c.lost_before _ _ refl (
    if_Same a.database u.changes _ _
      (unless_fault-Same a.database u.update _ a refl (by_notified-Same c u thread_id u.notified a))
      (confirmed-Same c u thread_id settings a))

resumed-Same :
    (c : Chances) (u : Update) (thread_id : String) (a : Adapter) (r : Resume)
    → Same a.database (settings_resumed c u thread_id a r)
resumed-Same c u thread_id a (broken e) = refl
resumed-Same c u thread_id a (rpc_error archived false e) = refl
resumed-Same c u thread_id a (rpc_error archived true e) = refl
resumed-Same c u thread_id a (resumed ref settings) =
    if_Same a.database (ref.thread_id == thread_id) _ _
      (unless_fault-Same a.database c.observe_fault _ a refl
        (request_update-Same c u thread_id settings _))
      refl

settings_body-Same :
    (c : Chances) (u : Update) (thread_id : String) (a : Adapter)
    → Same a.database (settings_body c u thread_id a)
unfolding settings_body
settings_body-Same c u thread_id a =
    elim c.writer_projection_fails
      as (λ b. Same a.database (
        unless_fault c.client_fault (λ x. settings_resumed c u thread_id x (resume_bound_thread c))
          (if b
            then a
            else record a { store = set_writer_state c.now thread_id "cfr_active" a.store }))) [
              | true ↦
                  unless_fault-Same a.database c.client_fault _ a refl
                    (resumed-Same c u thread_id a (resume_bound_thread c))
              | false ↦
                  unless_fault-Same a.database c.client_fault _ _ refl
                    (resumed-Same c u thread_id _ (resume_bound_thread c))
            ]

writer-IsReleased :
    (c : Chances) (u : Update) (thread_id : String) (lease : CfrThreadRuntimeLease)
    (before a : Adapter)
    → Works c
    → is_idle (state_for thread_id a.leases) ≡ true
    → Holds thread_id lease a.database
    → IsReleased thread_id before
        (settings_writer c u thread_id lease a (WriterLease.acquire thread_id a.leases)).1
unfolding WriterLease.acquire
writer-IsReleased c u thread_id lease before a works idle h =
    let leased : Adapter = record a { leases = put thread_id cfr_active a.leases } in
    subst
      (λ b.
        IsReleased thread_id before
          (settings_writer c u thread_id lease a (grant_if b thread_id a.leases)).1)
      (sym idle)
      (clean_up-IsReleased c thread_id lease before (settings_body c u thread_id leased) works
        (subst (Holds thread_id lease) (sym (settings_body-Same c u thread_id leased)) h))

heartbeat-IsReleased :
    (c : Chances) (u : Update) (thread_id : String) (lease : CfrThreadRuntimeLease)
    (before a : Adapter) (f : Option Fault)
    → Works c
    → is_idle (state_for thread_id a.leases) ≡ true
    → a.leases ≡ before.leases
    → Holds thread_id lease a.database
    → IsReleased thread_id before (settings_heartbeat c u thread_id lease f a).1
heartbeat-IsReleased c u thread_id lease before a (some e) works idle same h = record {
  writer = inr same;
  runtime = inl (release_gone c thread_id lease a.database works h);
}
heartbeat-IsReleased c u thread_id lease before a none works idle same h =
    writer-IsReleased c u thread_id lease before a works idle h

lease-IsReleased :
    (c : Chances) (u : Update) (thread_id : String) (a : Adapter)
    (o : Outcome LeaseError CfrThreadRuntimeLease × Database)
    → Works c
    → is_idle (state_for thread_id a.leases) ≡ true
    → Acquired thread_id a.database o
    → IsReleased thread_id a (settings_lease c u thread_id a o).1
lease-IsReleased c u thread_id a (raised e, db) works idle h = record {
  writer = inr refl;
  runtime = inr h;
}
lease-IsReleased c u thread_id a (ok lease, db) works idle h =
    heartbeat-IsReleased c u thread_id lease a (record a { database = db }) c.heartbeat_fault works
      idle refl h

binding-IsReleased :
    (c : Chances) (u : Update) (thread_id : String) (a : Adapter) (o : Option BindingRecord)
    → Works c
    → is_idle (state_for thread_id a.leases) ≡ true
    → Unique a.database.leases
    → IsReleased thread_id a (settings_binding c u thread_id a o).1
binding-IsReleased c u thread_id a none works idle unique = record {
  writer = inr refl;
  runtime = inr refl;
}
binding-IsReleased c u thread_id a (some r) works idle unique =
    let out =
      lease-IsReleased c u thread_id a _ works idle
        (acquire-Acquired c thread_id a.database unique) in
    elim (is_external (state_for thread_id a.leases))
      as (λ b.
        IsReleased thread_id a
          (if b
            then (raised external_writer_active, a)
            else settings_lease c u thread_id a (
                RuntimeLease.acquire c.manager c.alive c.lease_busy c.now c.lease_id thread_id
                  a.database)).1) [
                    | true ↦ record { writer = inr refl; runtime = inr refl }
                    | false ↦ out
                  ]

-- If this process is not writing to the thread, then however a call of `update_thread_settings` ends,
-- and whatever fails in it, the thread has no durable lease after it or the durable leases are as
-- before, and this process is not writing to the thread or the writer leases are as before; this if one
-- of the three attempts to release the durable lease can write.
pub update_thread_settings-IsReleased :
    (c : Chances) (u : Update) (thread_id : String) (a : Adapter)
    → Works c
    → is_idle (state_for thread_id a.leases) ≡ true
    → Unique a.database.leases
    → IsReleased thread_id a (update_thread_settings c u thread_id a).1
unfolding update_thread_settings
update_thread_settings-IsReleased c u thread_id a works idle unique =
    binding-IsReleased c u thread_id a (get_binding thread_id a.store) works idle unique

-- If this process is writing to the thread and its durable lease has run out, then a call of
-- `update_thread_settings` of a bound thread that gets the durable lease raises `writer_active` and
-- leaves the new lease in the table.
pub update_thread_settings-Holds :
    (c : Chances) (u : Update) (thread_id : String) (a : Adapter) (r : BindingRecord)
    (lease : CfrThreadRuntimeLease) (db : Database)
    → get_binding thread_id a.store ≡ some r
    → state_for thread_id a.leases ≡ cfr_active
    → RuntimeLease.acquire c.manager c.alive c.lease_busy c.now c.lease_id thread_id a.database
      ≡ (ok lease, db)
    → c.heartbeat_fault ≡ none
    → Unique a.database.leases
    → ((update_thread_settings c u thread_id a).0 ≡ raised (of_writer_lease writer_active))
      × Holds thread_id lease (update_thread_settings c u thread_id a).1.database
unfolding update_thread_settings WriterLease.acquire
update_thread_settings-Holds c u thread_id a r lease db bound ours taken alive unique =
    let held =
      subst (Acquired thread_id a.database) taken
        (acquire-Acquired c thread_id a.database unique) in
    rw (bound, ours, taken, alive, ours) (refl, held)
