-- ===== src/Feishu/Store/Daemon/Exclusive.antt =====
-- While a daemon's lease has not run out, no other instance gets the app.
use mathlib.Core.Option
use codex_feishu_remoter.Prelude.{
  ℕ, ◌+◌, ◌≡◌, refl, ap, ◌∙◌, String, Bool, true, false, ◌==◌, eq_iff, some, List, arith, ltb,
  lookup, lookup-where_update, lookup-where_delete, lookup-upsert, Unique, Unique-where_update,
  Unique-where_delete, Unique-upsert, rowcount_at_key, raised, All, run, run_keeps_fitting,
}
use codex_feishu_remoter.Feishu.Model.{ErrorCode}
use codex_feishu_remoter.Feishu.Store.{FeishuStore, DaemonLease, daemon_lease_keyed}
use codex_feishu_remoter.Feishu.Store.Daemon.{
  daemon_row, taken_over, is_running_elsewhere, take_unless, acquire_daemon_lease, owned_by,
  kept_alive, heartbeat_daemon_lease, release_daemon_lease, inspect_daemon_lease,
}

pub data DaemonOp : Type 0 where
  acquiring : ℕ → ℕ → String → String → ℕ → DaemonOp
  beating : ℕ → ℕ → ℕ → String → String → DaemonOp
  releasing : String → String → DaemonOp

unfoldable pub apply : DaemonOp → FeishuStore → FeishuStore
apply (acquiring now ttl key owner pid) s = (acquire_daemon_lease now ttl key owner pid s).1
apply (beating now later ttl key owner) s = (heartbeat_daemon_lease now later ttl key owner s).1
apply (releasing key owner) s = (release_daemon_lease key owner s).1

-- a call of another instance, or on another app; an attempt at the app comes before the lease has
-- run out
abbrev pub ByOthers : DaemonLease → DaemonOp → Type 0
ByOthers row (acquiring now ttl key owner pid) =
    key ≡ row.lease_key
    → (ltb now row.expires_at ≡ true) × ((row.owner_instance_id == owner) ≡ false)
ByOthers row (beating now later ttl key owner) = owned_by key owner row ≡ false
ByOthers row (releasing key owner) = owned_by key owner row ≡ false

abbrev pub HasLease : DaemonLease → FeishuStore → Type 0
HasLease row s = Unique s.daemon_leases × (lookup row.lease_key s.daemon_leases ≡ some row)

take-others :
    (row new : DaemonLease) (s : FeishuStore) (elsewhere : Bool)
    → (new.lease_key ≡ row.lease_key → elsewhere ≡ true)
    → HasLease row s
    → HasLease row (take_unless elsewhere new s).1
take-others row new s true other h = h
take-others row new s false other h = (
  Unique-upsert (taken_over new) (λ r. refl) new s.daemon_leases h.0,
  ground (
    arith,
    h.1,
    other,
    eq_iff new.lease_key row.lease_key,
    lookup-upsert (taken_over new) (λ r. refl) new row.lease_key s.daemon_leases,
  ),
)

acquire-elsewhere :
    (row : DaemonLease) (now : ℕ) (key owner : String) (s : FeishuStore)
    → lookup row.lease_key s.daemon_leases ≡ some row
    → (key ≡ row.lease_key
        → (ltb now row.expires_at ≡ true) × ((row.owner_instance_id == owner) ≡ false))
    → key ≡ row.lease_key
    → is_running_elsewhere now owner (lookup key s.daemon_leases) ≡ true
acquire-elsewhere row now key owner s held other e =
    let found : lookup key s.daemon_leases ≡ some row =
      ap (λ k. lookup k s.daemon_leases) e ∙ held in
    let (early, distinct) = other e in rw found (ground (arith, early, distinct))

step-others :
    (row : DaemonLease) (op : DaemonOp) (s : FeishuStore)
    → ByOthers row op
    → HasLease row s
    → HasLease row (apply op s)
unfolding apply acquire_daemon_lease heartbeat_daemon_lease release_daemon_lease
step-others row (acquiring now ttl key owner pid) s other h =
    take-others row (daemon_row now ttl key owner pid) s _
      (acquire-elsewhere row now key owner s h.1 other) h
step-others row (beating now later ttl key owner) s other h = (
  Unique-where_update (owned_by key owner) (kept_alive now (later + ttl)) (λ r. refl)
      s.daemon_leases h.0,
  lookup-where_update (owned_by key owner) (kept_alive now (later + ttl)) (λ r. refl) row.lease_key
        s.daemon_leases
      ∙ ap (Option.map _) h.1
      ∙ rw other,
)
step-others row (releasing key owner) s other h = (
  Unique-where_delete (owned_by key owner) s.daemon_leases h.0,
  lookup-where_delete (owned_by key owner) row.lease_key s.daemon_leases h.0 ∙ rw (h.1, other),
)

-- A lease that an instance has stays as it is under any calls of others before it runs out, each
-- such attempt to acquire it is refused, and after them the owner's heartbeat and release succeed.
pub daemon_exclusive :
    (row : DaemonLease) (ops : List DaemonOp) (s : FeishuStore) (now ttl : ℕ) (owner : String)
    (pid : ℕ)
    → HasLease row s
    → All (ByOthers row) ops
    → ltb now row.expires_at ≡ true
    → (row.owner_instance_id == owner) ≡ false
    → (inspect_daemon_lease row.lease_key (run apply ops s) ≡ some row)
      × (acquire_daemon_lease now ttl row.lease_key owner pid (run apply ops s)
          ≡ (raised ErrorCode.feishu_daemon_already_running, run apply ops s))
      × ((later after : ℕ)
          → (heartbeat_daemon_lease later after ttl row.lease_key row.owner_instance_id
              (run apply ops s)).0
            ≡ true)
      × ((release_daemon_lease row.lease_key row.owner_instance_id (run apply ops s)).0 ≡ true)
unfolding acquire_daemon_lease heartbeat_daemon_lease release_daemon_lease inspect_daemon_lease
daemon_exclusive row ops s now ttl owner pid h fits early distinct =
    let kept =
      run_keeps_fitting apply (ByOthers row) (HasLease row) (λ op s f k. step-others row op s f k)
        ops s fits h in
    let rows = (run apply ops s).daemon_leases in
    let one =
      rowcount_at_key (owned_by row.lease_key row.owner_instance_id) row.lease_key rows kept.0
        (λ r e. (eq_iff r.lease_key row.lease_key).0 (ground arith)) in
    let mine : owned_by row.lease_key row.owner_instance_id row ≡ true = ground (
      arith,
      eq_iff row.lease_key row.lease_key,
      eq_iff row.owner_instance_id row.owner_instance_id,
    ) in
    (
      kept.1,
      rw (kept.1, early, distinct),
      (λ later after. ground (arith, one, kept.1, mine)),
      ground (arith, one, kept.1, mine),
    )
