-- ===== src/Codex/RuntimeLease.antt =====
-- src/cfr/codex/runtime_lease.py: the durable lease of a native thread, shared by the CFR processes
-- through two SQLite tables. The outcome of `os.kill` and the failures of SQLite are arguments; the
-- thread that repeats `heartbeat`, and `stop_heartbeat`, change no table.
pub mod Ops
pub mod Fencing
pub mod Exclusion
mod Examples
use codex_feishu_remoter.Prelude.{
  ℕ, zero, suc, String, ◌+◌, Bool, true, false, not, ◌&&◌, ◌||◌, ◌==◌, Option, none, some, List, [],
  ◌∷◌, ◌++◌, if◌then◌else◌, ltb, eqb, lookup, has, where_update, where_delete, rowcount, upsert,
  Keyed, Outcome, ok, raised,
}

-- cfr_thread_runtime_leases
pub record LeaseRow : Type 0 where
  pub thread_id : String
  pub lease_id : String
  pub owner_instance_id : String
  pub owner_pid : Option ℕ
  pub generation : ℕ
  pub acquired_at : ℕ
  pub heartbeat_at : ℕ
  pub expires_at : ℕ

instance abbrev pub lease_keyed : Keyed LeaseRow
lease_keyed = record { key = λ r. r.thread_id }

-- cfr_thread_runtime_lease_generations
pub record GenerationRow : Type 0 where
  pub thread_id : String
  pub generation : ℕ

instance abbrev pub generation_keyed : Keyed GenerationRow
generation_keyed = record { key = λ r. r.thread_id }

pub record Database : Type 0 where
  pub leases : List LeaseRow
  pub generations : List GenerationRow

-- `CfrThreadRuntimeLease`, the handle that the owner keeps
pub record CfrThreadRuntimeLease : Type 0 where
  pub thread_id : String
  pub lease_id : String
  pub owner_instance_id : String
  pub owner_pid : ℕ
  pub generation : ℕ
  pub acquired_at : ℕ
  pub heartbeat_at : ℕ
  pub expires_at : ℕ
  pub lease_lost : Bool

-- the fields of a manager that its methods read
pub record Manager : Type 0 where
  pub instance_id : String
  pub owner_pid : ℕ
  pub ttl : ℕ

pub data LeaseError : Type 0 where
  cfr_runtime_writer_active cfr_runtime_lease_busy : LeaseError

-- what `os.kill(pid, 0)` does: it returns, or raises one of the errors that are told apart
pub data Kill : Type 0 where
  returns process_lookup_error permission_error no_such_process other_os_error : Kill

abbrev signalled : Kill → Bool
signalled returns = true
signalled process_lookup_error = false
signalled permission_error = true
signalled no_such_process = false
signalled other_os_error = true

-- `own_pid` is `os.getpid()`. A pid that is null or no number counts as alive; a pid at or below 0
-- is 0 here.
unfoldable pub pid_is_alive : ℕ → (ℕ → Kill) → Option ℕ → Bool
pid_is_alive own_pid kill none = true
pid_is_alive own_pid kill (some pid) = eqb pid 0 || eqb pid own_pid || signalled (kill pid)

abbrev pub next_generation : Option GenerationRow → ℕ
next_generation none = 1
next_generation (some row) = row.generation + 1

abbrev pub new_row : Manager → ℕ → String → String → ℕ → LeaseRow
new_row m now lease_id thread_id generation = record {
  thread_id = thread_id;
  lease_id = lease_id;
  owner_instance_id = m.instance_id;
  owner_pid = some m.owner_pid;
  generation = generation;
  acquired_at = now;
  heartbeat_at = now;
  expires_at = now + m.ttl;
}

abbrev pub handle_of : Manager → ℕ → String → String → ℕ → CfrThreadRuntimeLease
handle_of m now lease_id thread_id generation = record {
  thread_id = thread_id;
  lease_id = lease_id;
  owner_instance_id = m.instance_id;
  owner_pid = m.owner_pid;
  generation = generation;
  acquired_at = now;
  heartbeat_at = now;
  expires_at = now + m.ttl;
  lease_lost = false;
}

-- `do update set`: every column but the key is the new row's.
abbrev pub replacing : LeaseRow → LeaseRow → LeaseRow
replacing new r = record new { thread_id = r.thread_id }

abbrev pub regenerated : ℕ → GenerationRow → GenerationRow
regenerated generation r = record r { generation = generation }

abbrev pub granted :
    Manager → ℕ → String → String → Database → Outcome LeaseError CfrThreadRuntimeLease × Database
granted m now lease_id thread_id db =
    let generation : ℕ = next_generation (lookup thread_id db.generations) in
    let new : LeaseRow = new_row m now lease_id thread_id generation in
    (
      ok (handle_of m now lease_id thread_id generation),
      record {
        leases = upsert (replacing new) new db.leases;
        generations =
            upsert (regenerated generation)
              (record { thread_id = thread_id; generation = generation }) db.generations;
      },
    )

-- `row and now < row[6] and self._pid_is_alive(row[2])`
abbrev pub is_held : (Option ℕ → Bool) → ℕ → Option LeaseRow → Bool
is_held alive now none = false
is_held alive now (some row) = ltb now row.expires_at && alive row.owner_pid

-- `busy`: SQLite raises an `OperationalError` on the way, and the transaction is rolled back.
unfoldable pub acquire :
    Manager
    → (Option ℕ → Bool)
    → Bool
    → ℕ
    → String
    → String
    → Database
    → Outcome LeaseError CfrThreadRuntimeLease × Database
acquire m alive busy now lease_id thread_id db =
    if busy
    then (raised cfr_runtime_lease_busy, db)
    else if is_held alive now (lookup thread_id db.leases)
    then (raised cfr_runtime_writer_active, db)
    else granted m now lease_id thread_id db

-- the `where` of `heartbeat` and `release`
abbrev pub is_mine : CfrThreadRuntimeLease → LeaseRow → Bool
is_mine lease r =
    r.thread_id == lease.thread_id
    && (r.lease_id == lease.lease_id
        && (eqb r.generation lease.generation && r.owner_instance_id == lease.owner_instance_id))

abbrev pub beaten : ℕ → ℕ → LeaseRow → LeaseRow
beaten now expires r = record r { heartbeat_at = now; expires_at = expires }

-- A `sqlite3.Error` leaves the table alone. The lease is lost only if it has run out by the second
-- reading of the clock, `later`.
abbrev pub beat :
    Manager
    → ℕ
    → Option ℕ
    → CfrThreadRuntimeLease
    → Database
    → Bool × CfrThreadRuntimeLease × Database
beat m now (some later) lease db =
    if ltb later lease.expires_at
    then (true, lease, db)
    else (false, record lease { lease_lost = true }, db)
beat m now none lease db =
    if eqb (rowcount (is_mine lease) db.leases) 1
    then (
      true,
      record lease { heartbeat_at = now; expires_at = now + m.ttl },
      record db { leases = where_update (is_mine lease) (beaten now (now + m.ttl)) db.leases },
    )
    else (false, record lease { lease_lost = true }, db)

unfoldable pub heartbeat :
    Manager
    → ℕ
    → Option ℕ
    → CfrThreadRuntimeLease
    → Database
    → Bool × CfrThreadRuntimeLease × Database
heartbeat m now error lease db =
    if lease.lease_lost then (false, lease, db) else beat m now error lease db

-- `for attempt in range(3)`: the attempts that are left, each with the failure that SQLite makes.
abbrev pub attempts : CfrThreadRuntimeLease → Database → List Bool → Bool × Database
attempts lease db [] = (false, db)
attempts lease db (fails ∷ rest) =
    let next = attempts lease db rest in
    if fails then next else (
      eqb (rowcount (is_mine lease) db.leases) 1,
      record db { leases = where_delete (is_mine lease) db.leases },
    )

unfoldable pub release : Bool → Bool → Bool → CfrThreadRuntimeLease → Database → Bool × Database
release first_fails second_fails third_fails lease db =
    attempts lease db (first_fails ∷ second_fails ∷ third_fails ∷ [])
