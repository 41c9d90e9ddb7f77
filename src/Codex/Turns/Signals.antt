-- ===== src/Codex/Turns/Signals.antt =====
-- The registry of turns: who is active, who has a result, and whose event is set.
use codex_feishu_remoter.Prelude.{
  ℕ, zero, suc, String, ◌≡◌, refl, ap, subst, ◌∙◌, inl, inr, Bool, true, false, not, ◌&&◌, ◌==◌,
  eq_iff, Option, none, some, List, [], ◌∷◌, arith, if◌then◌else◌, Bool-cases, Option-cases, lookup,
  has, Unique, upsert, where_delete, where_update, lookup-key, lookup-snoc, lookup-upsert,
  lookup-where_delete, lookup-where_delete_self, lookup-where_update, Unique-snoc, Unique-upsert,
  Unique-where_delete, Unique-where_update,
}
use codex_feishu_remoter.Codex.Turns.{
  ActiveTurn, TurnResult, Done, active_keyed, result_keyed, done_keyed, evict, set_done,
  with_result,
}

-- An event is set if the thread has a result, and else the thread is active; without an event it is not.
abbrev pub agrees : Option Done → Bool → Bool → Bool
agrees none active result = not active
agrees (some d) active result = if d.is_set then result && not active else active && not result

-- The three tables agree on every thread.
pub record Agree (active : List ActiveTurn) (results : List TurnResult) (done : List Done)
    : Type 0 where
  pub signals : (t : String) → agrees (lookup t done) (has t active) (has t results) ≡ true
  pub unique_active : Unique active
  pub unique_results : Unique results
  pub unique_done : Unique done

evicted_one :
    (active : List ActiveTurn) (oldest : TurnResult) (results : List TurnResult) (done : List Done)
    → Agree active (oldest ∷ results) done
    → (t : String)
    → agrees
        (lookup t (where_delete (λ (d : Done). d.thread_id == oldest.thread_id) done))
        (has t active)
        (has t results)
      ≡ true
unfolding lookup
evicted_one active oldest results done h t =
    let after =
      lookup-where_delete (λ (d : Done). d.thread_id == oldest.thread_id) t done h.unique_done in
    let before = h.signals t in
    let alone = h.unique_results.0 in
    elim (Option-cases (lookup t done)) [
      | inl absent ↦ ground (arith, after, before, absent)
      | inr (d, found) ↦ ground (
        arith,
        after,
        before,
        found,
        alone,
        eq_iff oldest.thread_id t,
        eq_iff d.thread_id oldest.thread_id,
        lookup-key t done d found,
      )
    ]

evict-Agree :
    (n : ℕ) (active : List ActiveTurn) (results : List TurnResult) (done : List Done)
    → Agree active results done
    → Agree active (evict n results done).0 (evict n results done).1
unfolding evict
evict-Agree zero active results done h = h
evict-Agree (suc n) active [] done h = h
evict-Agree (suc n) active (oldest ∷ results) done h =
    evict-Agree n active results (where_delete (λ (d : Done). d.thread_id == oldest.thread_id) done)
      (record {
        signals = λ t. evicted_one active oldest results done h t;
        unique_active = h.unique_active;
        unique_results = h.unique_results.1;
        unique_done = Unique-where_delete _ done h.unique_done;
      })

result_gone :
    (thread_id t : String) (results : List TurnResult)
    → Unique results
    → has t (where_delete (λ (q : TurnResult). q.thread_id == thread_id) results)
      ≡ (if thread_id == t then false else has t results)
result_gone thread_id t results u =
    let after = lookup-where_delete (λ (q : TurnResult). q.thread_id == thread_id) t results u in
    elim (Option-cases (lookup t results)) [
      | inl absent ↦ ground (arith, after, absent)
      | inr (q, found) ↦ ground (
        arith,
        after,
        found,
        lookup-key t results q found,
        eq_iff q.thread_id thread_id,
        eq_iff thread_id t,
      )
    ]

active_gone :
    (thread_id t : String) (active : List ActiveTurn)
    → Unique active
    → has t (where_delete (λ (q : ActiveTurn). q.thread_id == thread_id) active)
      ≡ (if thread_id == t then false else has t active)
active_gone thread_id t active u =
    let after = lookup-where_delete (λ (q : ActiveTurn). q.thread_id == thread_id) t active u in
    elim (Option-cases (lookup t active)) [
      | inl absent ↦ ground (arith, after, absent)
      | inr (q, found) ↦ ground (
        arith,
        after,
        found,
        lookup-key t active q found,
        eq_iff q.thread_id thread_id,
        eq_iff thread_id t,
      )
    ]

active_put :
    (turn : ActiveTurn) (t : String) (active : List ActiveTurn)
    → has t (upsert (λ (q : ActiveTurn). record turn { thread_id = q.thread_id }) turn active)
      ≡ (if turn.thread_id == t then true else has t active)
active_put turn t active =
    let after =
      lookup-upsert (λ (q : ActiveTurn). record turn { thread_id = q.thread_id }) (λ r. refl) turn t
        active in
    elim (Option-cases (lookup t active)) [
      | inl absent ↦ ground (arith, after, absent)
      | inr (q, found) ↦ ground (arith, after, found)
    ]

result_put :
    (result : TurnResult) (t : String) (results : List TurnResult)
    → Unique results
    → has t (with_result result results) ≡ (if result.thread_id == t then true else has t results)
result_put result t results u =
    let rest = where_delete (λ (q : TurnResult). q.thread_id == result.thread_id) results in
    let gone = result_gone result.thread_id t results u in
    let added = lookup-snoc t rest result in
    elim (Option-cases (lookup t rest)) [
      | inl absent ↦ ground (arith, gone, added, absent)
      | inr (q, found) ↦ ground (arith, gone, added, found)
    ]

registered :
    (turn : ActiveTurn) (active : List ActiveTurn) (results : List TurnResult) (done : List Done)
    → Agree active results done
    → (t : String)
    → agrees
        (lookup t (
          upsert
            (λ (d : Done). record d { is_set = false })
            (record { thread_id = turn.thread_id; is_set = false })
            done))
        (has t (upsert (λ (q : ActiveTurn). record turn { thread_id = q.thread_id }) turn active))
        (has t (where_delete (λ (q : TurnResult). q.thread_id == turn.thread_id) results))
      ≡ true
registered turn active results done h t =
    let event : Done = record { thread_id = turn.thread_id; is_set = false } in
    let of_done =
      lookup-upsert (λ (d : Done). record d { is_set = false }) (λ r. refl) event t done in
    let of_active = active_put turn t active in
    let of_results = result_gone turn.thread_id t results h.unique_results in
    let before = h.signals t in
    elim (Bool-cases (turn.thread_id == t)) [
      | inl same ↦ elim (Option-cases (lookup t done)) [
        | inl absent ↦ rw (of_done, of_active, of_results, same, absent) refl
        | inr (d, found) ↦ rw (of_done, of_active, of_results, same, found) refl
      ]
      | inr other ↦ rw (of_done, of_active, of_results, other) before
    ]

pub register-Agree :
    (turn : ActiveTurn) (active : List ActiveTurn) (results : List TurnResult) (done : List Done)
    → Agree active results done
    → Agree
        (upsert (λ (q : ActiveTurn). record turn { thread_id = q.thread_id }) turn active)
        (where_delete (λ (q : TurnResult). q.thread_id == turn.thread_id) results)
        (upsert
          (λ (d : Done). record d { is_set = false })
          (record { thread_id = turn.thread_id; is_set = false })
          done)
register-Agree turn active results done h =
    let renew : ActiveTurn → ActiveTurn = λ q. record turn { thread_id = q.thread_id } in
    let clear : Done → Done = λ d. record d { is_set = false } in
    let event : Done = record { thread_id = turn.thread_id; is_set = false } in
    record {
      signals = registered turn active results done h;
      unique_active = Unique-upsert renew (λ r. refl) turn active h.unique_active;
      unique_results = Unique-where_delete _ results h.unique_results;
      unique_done = Unique-upsert clear (λ r. refl) event done h.unique_done;
    }

finished :
    (result : TurnResult) (active : List ActiveTurn) (results : List TurnResult) (done : List Done)
    → Agree active results done
    → (t : String)
    → agrees
        (lookup t (set_done result.thread_id done))
        (has t (where_delete (λ (q : ActiveTurn). q.thread_id == result.thread_id) active))
        (has t (with_result result results))
      ≡ true
finished result active results done h t =
    let k : String = result.thread_id in
    let of_done =
      lookup-where_update (λ (d : Done). d.thread_id == k)
        (λ (d : Done). record d { is_set = true }) (λ d. refl) t done in
    let of_active = active_gone k t active h.unique_active in
    let of_results = result_put result t results h.unique_results in
    let before = h.signals t in
    elim (Option-cases (lookup t done)) [
      | inl absent ↦ ground (arith, of_done, of_active, of_results, before, absent)
      | inr (d, found) ↦ ground (
        arith,
        of_done,
        of_active,
        of_results,
        before,
        found,
        lookup-key t done d found,
        eq_iff d.thread_id k,
        eq_iff k t,
      )
    ]

delete-set_done :
    (k j : String) (done : List Done)
    → where_delete (λ (d : Done). d.thread_id == j) (set_done k done)
      ≡ set_done k (where_delete (λ (d : Done). d.thread_id == j) done)
unfolding where_delete where_update
delete-set_done k j [] = refl
delete-set_done k j (d ∷ done) = ground (arith, delete-set_done k j done)

evict-set_done :
    (k : String) (n : ℕ) (results : List TurnResult) (done : List Done)
    → evict n results (set_done k done)
      ≡ ((evict n results done).0, set_done k (evict n results done).1)
unfolding evict
evict-set_done k zero results done = refl
evict-set_done k (suc n) [] done = refl
evict-set_done k (suc n) (oldest ∷ results) done =
    ap (evict n results) (delete-set_done k oldest.thread_id done)
    ∙ evict-set_done k n results (where_delete (λ (d : Done). d.thread_id == oldest.thread_id) done)

pub finish-Agree :
    (result : TurnResult) (active : List ActiveTurn) (results : List TurnResult) (done : List Done)
    (n : ℕ)
    → Agree active results done
    → Agree
        (where_delete (λ (q : ActiveTurn). q.thread_id == result.thread_id) active)
        (evict n (with_result result results) done).0
        (set_done result.thread_id (evict n (with_result result results) done).1)
finish-Agree result active results done n h =
    let k : String = result.thread_id in
    let set =
      lookup-where_update (λ (d : Done). d.thread_id == k)
        (λ (d : Done). record d { is_set = true }) (λ d. refl) in
    let gone = λ (t : String). result_gone k t results h.unique_results in
    let settled : Agree (where_delete (λ (q : ActiveTurn). q.thread_id == k) active)
        (with_result result results) (set_done k done) =
      record {
        signals = finished result active results done h;
        unique_active = Unique-where_delete _ active h.unique_active;
        unique_results =
            Unique-snoc _ result (Unique-where_delete _ results h.unique_results)
              (lookup-where_delete_self k results);
        unique_done = Unique-where_update _ _ (λ d. refl) done h.unique_done;
      } in
    let out = evict-Agree n _ (with_result result results) (set_done k done) settled in
    let same = evict-set_done k n (with_result result results) done in
    subst (λ x. Agree (where_delete (λ (q : ActiveTurn). q.thread_id == k) active) x.0 x.1) same out
