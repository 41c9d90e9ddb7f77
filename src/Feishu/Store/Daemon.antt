-- ===== src/Feishu/Store/Daemon.antt =====
-- The daemon lease of `FeishuStore`: one Feishu daemon for each app.
pub mod Exclusive
mod Examples
use codex_feishu_remoter.Prelude.{
  ℕ, String, ◌+◌, Bool, true, false, not, ◌&&◌, ◌==◌, Option, none, some, if◌then◌else◌, ltb, eqb,
  lookup, where_update, where_delete, rowcount, upsert, Outcome, ok, raised,
}
use codex_feishu_remoter.Feishu.Model.{ErrorCode, feishu_daemon_already_running}
use codex_feishu_remoter.Feishu.Store.{FeishuStore, DaemonLease, daemon_lease_keyed}

abbrev pub daemon_row : ℕ → ℕ → String → String → ℕ → DaemonLease
daemon_row now ttl lease_key owner_instance_id owner_pid = record {
  lease_key = lease_key;
  owner_instance_id = owner_instance_id;
  owner_pid = owner_pid;
  acquired_at = now;
  heartbeat_at = now;
  expires_at = now + ttl;
}

-- `do update set`: every column but the key is the new row's.
abbrev pub taken_over : DaemonLease → DaemonLease → DaemonLease
taken_over new r = record new { lease_key = r.lease_key }

-- `row and now < row['expires_at'] and row['owner_instance_id'] != owner_instance_id`
abbrev pub is_running_elsewhere : ℕ → String → Option DaemonLease → Bool
is_running_elsewhere now owner_instance_id none = false
is_running_elsewhere now owner_instance_id (some row) =
    ltb now row.expires_at && not (row.owner_instance_id == owner_instance_id)

abbrev pub take_unless :
    Bool → DaemonLease → FeishuStore → Outcome ErrorCode (Unit {0}) × FeishuStore
take_unless true new s = (raised feishu_daemon_already_running, s)
take_unless false new s =
    (ok tt, record s { daemon_leases = upsert (taken_over new) new s.daemon_leases })

unfoldable pub acquire_daemon_lease :
    ℕ → ℕ → String → String → ℕ → FeishuStore → Outcome ErrorCode (Unit {0}) × FeishuStore
acquire_daemon_lease now ttl lease_key owner_instance_id owner_pid s =
    take_unless (is_running_elsewhere now owner_instance_id (lookup lease_key s.daemon_leases))
      (daemon_row now ttl lease_key owner_instance_id owner_pid) s

-- `where lease_key=? and owner_instance_id=?`
abbrev pub owned_by : String → String → DaemonLease → Bool
owned_by lease_key owner_instance_id r =
    r.lease_key == lease_key && r.owner_instance_id == owner_instance_id

-- `now` and `later` are the two readings of the clock.
abbrev pub kept_alive : ℕ → ℕ → DaemonLease → DaemonLease
kept_alive now expires r = record r { heartbeat_at = now; expires_at = expires }

unfoldable pub heartbeat_daemon_lease :
    ℕ → ℕ → ℕ → String → String → FeishuStore → Bool × FeishuStore
heartbeat_daemon_lease now later ttl lease_key owner_instance_id s = (
  eqb (rowcount (owned_by lease_key owner_instance_id) s.daemon_leases) 1,
  record s {
    daemon_leases =
        where_update (owned_by lease_key owner_instance_id) (kept_alive now (later + ttl))
          s.daemon_leases;
  },
)

unfoldable pub release_daemon_lease : String → String → FeishuStore → Bool × FeishuStore
release_daemon_lease lease_key owner_instance_id s = (
  eqb (rowcount (owned_by lease_key owner_instance_id) s.daemon_leases) 1,
  record s { daemon_leases = where_delete (owned_by lease_key owner_instance_id) s.daemon_leases },
)

unfoldable pub inspect_daemon_lease : String → FeishuStore → Option DaemonLease
inspect_daemon_lease lease_key s = lookup lease_key s.daemon_leases
