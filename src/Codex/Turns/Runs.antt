-- ===== src/Codex/Turns/Runs.antt =====
-- What holds of the registry after any calls of its methods.
use codex_feishu_remoter.Prelude.{
  ℕ, zero, suc, String, ◌-◌, ◌≤◌, ◌≡◌, refl, Bool, true, ◌==◌, Option, none, some, List, [], ◌∷◌,
  arith, lookup, has, where_delete, run, run_keeps,
}
use codex_feishu_remoter.Core.Telemetry.{count}
use codex_feishu_remoter.Codex.Turns.{
  TurnResult, Done, Registry, active_keyed, result_keyed, done_keyed, new_registry,
  recent_turn_limit, begin_turn, observe, complete_telemetry, register_telemetry, register, evict,
  with_result, finish, RegistryOp, beginning, observing, completing, registering, finishing, apply,
}
use codex_feishu_remoter.Codex.Turns.Signals.{agrees, Agree, register-Agree, finish-Agree}

-- The tables of turns agree, and at most 20 results are kept.
pub record IsSound (r : Registry) : Type 0 where
  pub agree : Agree r.active r.results r.done
  pub bounded : count r.results ≤ recent_turn_limit

count-evict :
    (n : ℕ) (results : List TurnResult) (done : List Done)
    → count (evict n results done).0 ≡ count results - n
unfolding evict
count-evict zero results done = omega arith
count-evict (suc n) [] done = omega arith
count-evict (suc n) (oldest ∷ results) done = omega (
  arith,
  count-evict n results (where_delete (λ (d : Done). d.thread_id == oldest.thread_id) done),
)

count-where_delete-le :
    (p : TurnResult → Bool) (results : List TurnResult)
    → count (where_delete p results) ≤ count results
unfolding where_delete
count-where_delete-le p [] = omega arith
count-where_delete-le p (r ∷ results) = ground (arith, count-where_delete-le p results)

-- The telemetry records do not touch the tables of turns.
complete_telemetry-IsSound :
    (id : Option String) (r : Registry) → IsSound r → IsSound (complete_telemetry id r)
unfolding complete_telemetry
complete_telemetry-IsSound none r h = h
complete_telemetry-IsSound (some id) r h = record { agree = h.agree; bounded = h.bounded }

observe-IsSound : (id : Option String) (r : Registry) → IsSound r → IsSound (observe id r)
unfolding observe
observe-IsSound none r h = h
observe-IsSound (some id) r h = record { agree = h.agree; bounded = h.bounded }

register_telemetry-IsSound :
    (id : Option String) (r : Registry) → IsSound r → IsSound (register_telemetry id r)
register_telemetry-IsSound none r h = h
register_telemetry-IsSound (some id) r h = record { agree = h.agree; bounded = h.bounded }

apply-IsSound : (op : RegistryOp) (r : Registry) → IsSound r → IsSound (apply op r)
unfolding apply begin_turn register finish
apply-IsSound (beginning id) r h = record { agree = h.agree; bounded = h.bounded }
apply-IsSound (observing id) r h = observe-IsSound id r h
apply-IsSound (completing id) r h = complete_telemetry-IsSound id r h
apply-IsSound (registering turn) r h = register_telemetry-IsSound turn.telemetry _ (record {
  agree = register-Agree turn r.active r.results r.done h.agree;
  bounded = omega (
    arith,
    h.bounded,
    count-where_delete-le (λ (q : TurnResult). q.thread_id == turn.thread_id) r.results,
  );
})
apply-IsSound (finishing result) r h =
    let n : ℕ = count (with_result result r.results) - recent_turn_limit in
    complete_telemetry-IsSound result.telemetry _ (record {
      agree = finish-Agree result r.active r.results r.done n h.agree;
      bounded = omega (arith, count-evict n (with_result result r.results) r.done);
    })

-- After any calls of the registry's methods: the event of a thread is set exactly when the thread has
-- a result, and then the thread is not active; a thread without an event is not active; and at most
-- 20 results are kept.
pub run-Agrees :
    (ops : List RegistryOp) (t : String)
    → (agrees
          (lookup t (run apply ops new_registry).done)
          (has t (run apply ops new_registry).active)
          (has t (run apply ops new_registry).results)
        ≡ true)
      × (count (run apply ops new_registry).results ≤ recent_turn_limit)
unfolding lookup
run-Agrees ops t =
    let sound = run_keeps apply IsSound apply-IsSound ops new_registry (record {
      agree = record {
        signals = λ x. refl;
        unique_active = tt;
        unique_results = tt;
        unique_done = tt;
      };
      bounded = omega arith;
    }) in
    (sound.agree.signals t, sound.bounded)
