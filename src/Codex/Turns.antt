-- ===== src/Codex/Turns.antt =====
-- src/cfr/codex/turns.py: `ActiveTurnRegistry`, and the turns that `TurnManager` runs (Turns/Run). A
-- telemetry record is shared: the registry holds it by its correlation id. The events that `wait`
-- waits for are flags.
pub mod Signals
pub mod Runs
pub mod Run
mod Examples
use codex_feishu_remoter.Prelude.{
  ℕ, zero, suc, String, ◌-◌, Bool, true, false, ◌==◌, Option, none, some, List, [], ◌∷◌, ◌++◌,
  if◌then◌else◌, Keyed, lookup, upsert, where_delete, where_update,
}
use codex_feishu_remoter.Core.Telemetry.{count}

pub record ActiveTurn : Type 0 where
  pub thread_id : String
  pub turn_id : String
  pub telemetry : Option String

pub record TurnResult : Type 0 where
  pub thread_id : String
  pub turn_id : String
  pub status : String
  pub final_agent_message : String
  pub started_at : ℕ
  pub completed_at : ℕ
  pub error_message : Option String
  pub telemetry : Option String

-- an entry of `_done`: the event, and whether it is set
pub record Done : Type 0 where
  pub thread_id : String
  pub is_set : Bool

instance abbrev pub active_keyed : Keyed ActiveTurn
active_keyed = record { key = λ r. r.thread_id }

instance abbrev pub result_keyed : Keyed TurnResult
result_keyed = record { key = λ r. r.thread_id }

instance abbrev pub done_keyed : Keyed Done
done_keyed = record { key = λ r. r.thread_id }

pub record Registry : Type 0 where
  pub active : List ActiveTurn
  pub results : List TurnResult
  pub pending : List String
  pub telemetry : List String
  pub done : List Done

abbrev pub new_registry : Registry
new_registry = record { active = []; results = []; pending = []; telemetry = []; done = [] }

-- `RECENT_TURN_LIMIT`
abbrev pub recent_turn_limit : ℕ
recent_turn_limit = 20

-- `d.pop(key, None)` and `d[key] = …` on the keys of a dictionary
abbrev pub pop : String → List String → List String
pop k ks = where_delete (λ j. j == k) ks

abbrev pub put_last : String → List String → List String
put_last k [] = k ∷ []
put_last k (j ∷ ks) = let rest = put_last k ks in if j == k then j ∷ ks else j ∷ rest

-- `popitem(last=False)` of `n` telemetry records, which are no longer pending then
abbrev pub drop_telemetry : ℕ → List String → List String → List String × List String
drop_telemetry zero telemetry pending = (telemetry, pending)
drop_telemetry (suc n) [] pending = ([], pending)
drop_telemetry (suc n) (oldest ∷ telemetry) pending =
    drop_telemetry n telemetry (pop oldest pending)

-- `while len(self._telemetry) > RECENT_TURN_LIMIT`
abbrev pub trim_telemetry : Registry → Registry
trim_telemetry r =
    let kept = drop_telemetry (count r.telemetry - recent_turn_limit) r.telemetry r.pending in
    record r { telemetry = kept.0; pending = kept.1 }

-- `begin`, whose marks are the telemetry's
unfoldable pub begin_turn : String → Registry → Registry
begin_turn correlation_id r = trim_telemetry (record r {
  pending = put_last correlation_id r.pending;
  telemetry = put_last correlation_id r.telemetry;
})

unfoldable pub observe : Option String → Registry → Registry
observe none r = r
observe (some id) r = trim_telemetry (record r { telemetry = pop id r.telemetry ++ id ∷ [] })

unfoldable pub complete_telemetry : Option String → Registry → Registry
complete_telemetry none r = r
complete_telemetry (some id) r =
    trim_telemetry
      (record r { pending = pop id r.pending; telemetry = pop id r.telemetry ++ id ∷ [] })

abbrev pub register_telemetry : Option String → Registry → Registry
register_telemetry none r = r
register_telemetry (some id) r = record r {
  pending = pop id r.pending;
  telemetry = pop id r.telemetry ++ id ∷ [];
}

unfoldable pub register : ActiveTurn → Registry → Registry
register turn r = register_telemetry turn.telemetry (record r {
  results = where_delete (λ (q : TurnResult). q.thread_id == turn.thread_id) r.results;
  active = upsert (λ (q : ActiveTurn). record turn { thread_id = q.thread_id }) turn r.active;
  done =
      upsert (λ (d : Done). record d { is_set = false })
        (record { thread_id = turn.thread_id; is_set = false }) r.done;
})

unfoldable pub get : String → Registry → Option ActiveTurn
get thread_id r = lookup thread_id r.active

-- `popitem(last=False)` of `n` results, whose events go with them
unfoldable pub evict : ℕ → List TurnResult → List Done → List TurnResult × List Done
evict zero results done = (results, done)
evict (suc n) [] done = ([], done)
evict (suc n) (oldest ∷ results) done =
    evict n results (where_delete (λ (d : Done). d.thread_id == oldest.thread_id) done)

abbrev pub set_done : String → List Done → List Done
set_done thread_id done =
    where_update (λ (d : Done). d.thread_id == thread_id) (λ (d : Done). record d { is_set = true })
      done

-- the result in its place, before the oldest are evicted
abbrev pub with_result : TurnResult → List TurnResult → List TurnResult
with_result result results =
    where_delete (λ (q : TurnResult). q.thread_id == result.thread_id) results ++ result ∷ []

unfoldable pub finish : TurnResult → Registry → Registry
unfolding complete_telemetry evict
finish result r =
    let results = with_result result r.results in
    let kept = evict (count results - recent_turn_limit) results r.done in
    complete_telemetry result.telemetry (record r {
      results = kept.0;
      active = where_delete (λ (q : ActiveTurn). q.thread_id == result.thread_id) r.active;
      done = set_done result.thread_id kept.1;
    })

-- what `wait` returns once it does not wait
unfoldable pub result_of : String → Registry → Option TurnResult
result_of thread_id r = lookup thread_id r.results

pub data RegistryOp : Type 0 where
  beginning : String → RegistryOp
  observing completing : Option String → RegistryOp
  registering : ActiveTurn → RegistryOp
  finishing : TurnResult → RegistryOp

unfoldable pub apply : RegistryOp → Registry → Registry
apply (beginning id) r = begin_turn id r
apply (observing id) r = observe id r
apply (completing id) r = complete_telemetry id r
apply (registering turn) r = register turn r
apply (finishing result) r = finish result r
