-- ===== src/Codex/WriterLease.antt =====
-- src/cfr/codex/lease.py: the writer state that one CFR process keeps for each native thread. The
-- dictionary is a table of its keys in insertion order; each method holds the manager's lock.
mod Examples
pub mod Traces
use codex_feishu_remoter.Prelude.{
  String, Bool, true, false, not, ◌==◌, Option, none, some, List, [], ◌∷◌, ◌++◌, if◌then◌else◌,
  lookup, where_update, where_delete, where_select, upsert, map, Keyed, Outcome, ok, raised,
}

pub data LeaseState : Type 0 where
  idle cfr_active external_active unknown : LeaseState

pub record WriterState : Type 0 where
  pub thread_id : String
  pub state : LeaseState

instance abbrev pub writer_keyed : Keyed WriterState
writer_keyed = record { key = λ r. r.thread_id }

-- `WriterLeaseManager`: its `_states`
abbrev pub WriterLeaseManager : Type 0
WriterLeaseManager = List WriterState

pub data WriterError : Type 0 where
  writer_active : WriterError

abbrev pub is_idle : LeaseState → Bool
is_idle idle = true
is_idle _ = false

abbrev pub is_external : LeaseState → Bool
is_external external_active = true
is_external _ = false

-- `self._states.get(thread_id, LeaseState.IDLE)`
abbrev pub state_or_idle : Option WriterState → LeaseState
state_or_idle none = idle
state_or_idle (some r) = r.state

unfoldable pub state_for : String → WriterLeaseManager → LeaseState
state_for thread_id m = state_or_idle (lookup thread_id m)

abbrev pub in_state : LeaseState → WriterState → WriterState
in_state state r = record r { state = state }

-- `self._states[thread_id] = state`
abbrev pub put : String → LeaseState → WriterLeaseManager → WriterLeaseManager
put thread_id state m = upsert (in_state state) (record { thread_id = thread_id; state = state }) m

abbrev pub grant_if :
    Bool → String → WriterLeaseManager → Outcome WriterError (Unit {0}) × WriterLeaseManager
grant_if true thread_id m = (ok tt, put thread_id cfr_active m)
grant_if false thread_id m = (raised writer_active, m)

unfoldable pub acquire :
    String → WriterLeaseManager → Outcome WriterError (Unit {0}) × WriterLeaseManager
unfolding state_for
acquire thread_id m = grant_if (is_idle (state_for thread_id m)) thread_id m

unfoldable pub mark_external : String → WriterLeaseManager → WriterLeaseManager
mark_external thread_id m = put thread_id external_active m

unfoldable pub recover : String → WriterLeaseManager → WriterLeaseManager
unfolding state_for
recover thread_id m = if is_external (state_for thread_id m) then put thread_id cfr_active m else m

unfoldable pub release : String → WriterLeaseManager → WriterLeaseManager
release thread_id m = where_delete (λ (r : WriterState). r.thread_id == thread_id) m

unfoldable pub busy_threads : WriterLeaseManager → List String
busy_threads m =
    map (λ (r : WriterState). r.thread_id) (where_select (λ r. not (is_idle r.state)) m)
