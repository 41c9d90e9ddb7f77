-- ===== src/Codex/Turns/Run/Ends.antt =====
-- A turn that was started ends with a result in the registry, and messages of other turns do not count.
use codex_feishu_remoter.Prelude.{
  ℕ, zero, suc, String, ◌+◌, ◌-◌, ◌≤◌, ◌≡◌, refl, sym, ap, subst, ◌∙◌, inl, inr, Bool, true, false,
  not, ◌==◌, eq_iff, eq_refl, Option, none, some, List, [], ◌∷◌, ◌++◌, arith, if◌then◌else◌, eqb,
  leb, is_empty_text, Bool-cases, Option-cases, All, lookup, lookup-snoc, lookup-upsert,
  lookup-where_delete_self, where_select, where_delete, ok, raised,
}
use codex_feishu_remoter.Core.Telemetry.{TurnTelemetry, count}
use codex_feishu_remoter.Codex.Turns.{
  ActiveTurn, TurnResult, Done, Registry, active_keyed, result_keyed, recent_turn_limit, observe,
  complete_telemetry, register_telemetry, register, get, evict, with_result, finish, result_of,
}
use codex_feishu_remoter.Codex.Turns.Run.{
  Got, message, Got.empty, broken, Arrival, Running, report, with_telemetry, is_foreign,
}
use codex_feishu_remoter.Codex.Turns.Run.Loop.{
  Left, left_completed, left_timeout, left_raised, on_got, turn_loop, Call, Ended, timeout_result,
  completed_result, failed_result, fail_turn, end_turn, after_start, requested,
  started as begin_telemetry, no_turn_id, timeout_invalid, run_turn,
}

-- The thread is idle, and has this result.
pub record IsOver (thread_id : String) (result : TurnResult) (reg : Registry) : Type 0 where
  pub kept : result_of thread_id reg ≡ some result
  pub idle : get thread_id reg ≡ none

evict_keeps :
    (k : String) (n : ℕ) (rest : List TurnResult) (result : TurnResult) (done : List Done)
    → n ≤ count rest
    → result.thread_id ≡ k
    → lookup k rest ≡ none
    → lookup k (evict n (rest ++ result ∷ []) done).0 ≡ some result
unfolding evict lookup
evict_keeps k zero rest result done h e absent =
    ground (arith, lookup-snoc k rest result, absent, eq_iff result.thread_id k)
evict_keeps k (suc n) [] result done h e absent = absurd (omega arith)
evict_keeps k (suc n) (oldest ∷ rest) result done h e absent =
    evict_keeps k n rest result (where_delete (λ (d : Done). d.thread_id == oldest.thread_id) done)
      (omega arith) e (ground (arith, absent))

count-snoc :
    (rest : List TurnResult) (result : TurnResult) → count (rest ++ result ∷ []) ≡ count rest + 1
count-snoc [] result = omega arith
count-snoc (r ∷ rest) result = omega (arith, count-snoc rest result)

complete-IsOver :
    (id : Option String) (thread_id : String) (result : TurnResult) (reg : Registry)
    → IsOver thread_id result reg
    → IsOver thread_id result (complete_telemetry id reg)
unfolding complete_telemetry result_of get
complete-IsOver none thread_id result reg h = h
complete-IsOver (some id) thread_id result reg h = record { kept = h.kept; idle = h.idle }

finish-IsOver :
    (result : TurnResult) (reg : Registry) → IsOver result.thread_id result (finish result reg)
unfolding finish result_of get
finish-IsOver result reg =
    let k : String = result.thread_id in
    let rest = where_delete (λ (q : TurnResult). q.thread_id == k) reg.results in
    let n : ℕ = count (with_result result reg.results) - recent_turn_limit in
    let size = count-snoc rest result in
    complete-IsOver result.telemetry k result _ (record {
      kept =
          evict_keeps k n rest result reg.done (omega (arith, size)) refl
            (lookup-where_delete_self k reg.results);
      idle = lookup-where_delete_self k reg.active;
    })

-- A result is returned and kept; an exception leaves a result of the turn that has failed.
abbrev pub HasEnded : String → String → Ended → Type 0
HasEnded thread_id turn_id (ok result, (reg, r)) =
    (result.turn_id ≡ turn_id) × IsOver thread_id result reg
HasEnded thread_id turn_id (raised e, (reg, r)) =
    (result : TurnResult) × ((result.turn_id ≡ turn_id)
      × ((result.status ≡ "failed")
          × ((result.error_message ≡ some e.text) × IsOver thread_id result reg)))

telemetry-active :
    (id : Option String) (reg : Registry) → (register_telemetry id reg).active ≡ reg.active
telemetry-active none reg = refl
telemetry-active (some id) reg = refl

register-active :
    (turn : ActiveTurn) (reg : Registry)
    → (a : ActiveTurn) × (get turn.thread_id (register turn reg) ≡ some a)
unfolding register get
register-active turn reg =
    let renew : ActiveTurn → ActiveTurn = λ q. record turn { thread_id = q.thread_id } in
    let put = lookup-upsert renew (λ r. refl) turn turn.thread_id reg.active in
    let same = telemetry-active turn.telemetry _ in
    elim (Option-cases (lookup turn.thread_id reg.active)) [
      | inl absent ↦ (
        turn,
        ap (λ x. lookup turn.thread_id x) same ∙ put ∙ rw (absent, eq_refl turn.thread_id) refl,
      )
      | inr (a, found) ↦ (
        renew a,
        ap (λ x. lookup turn.thread_id x) same ∙ put ∙ rw (found, eq_refl turn.thread_id) refl,
      )
    ]

end_turn-HasEnded :
    (call : Call) (turn_id : String) (left : Left) (reg : Registry) (a : ActiveTurn)
    → get call.thread_id reg ≡ some a
    → HasEnded call.thread_id turn_id (end_turn call turn_id left reg)
unfolding end_turn timeout_result fail_turn
end_turn-HasEnded call turn_id (left_completed c r) reg a h =
    (refl, finish-IsOver (completed_result call turn_id c r) reg)
end_turn-HasEnded call turn_id (left_timeout r) reg a h = (refl, finish-IsOver _ reg)
end_turn-HasEnded call turn_id (left_raised e r) reg a h = rw h (
  failed_result call turn_id e r,
  (refl, (refl, (refl, finish-IsOver (failed_result call turn_id e r) reg))),
)

-- A turn that the app server has started ends, whatever messages come and whatever fails: the thread is
-- not active then, and the registry has the result that is returned, or a failed one if the call raises.
pub run_turn-HasEnded :
    (call : Call) (t : TurnTelemetry) (arrivals : List Arrival) (reg : Registry) (turn_id : String)
    → call.response ≡ ok turn_id
    → is_empty_text turn_id ≡ false
    → eqb call.timeout 0 ≡ false
    → HasEnded call.thread_id turn_id (run_turn call t arrivals reg)
unfolding run_turn
run_turn-HasEnded call t arrivals reg turn_id started named positive =
    let turn : ActiveTurn = record {
      thread_id = call.thread_id;
      turn_id = turn_id;
      telemetry = some call.telemetry_id;
    } in
    let active = register-active turn (observe (some call.telemetry_id) reg) in
    rw positive (
      subst
        (λ o.
          HasEnded call.thread_id turn_id
            (after_start call arrivals (observe (some call.telemetry_id) reg) (requested call t) o))
        (sym started) (rw named (end_turn-HasEnded call turn_id _ _ active.0 active.1)))

-- whether an arrival is not a message of another turn
abbrev pub is_own : String → Got → Bool
is_own turn_id (message candidate notice) = not (is_foreign turn_id candidate)
is_own turn_id _ = true

skipped :
    (turn_id : String) (now wall : ℕ) (got : Got) (rest : Running → Left) (r : Running)
    → is_own turn_id got ≡ false
    → on_got turn_id now wall got rest r ≡ rest r
skipped turn_id now wall (message candidate notice) rest r h = ground (arith, h)
skipped turn_id now wall empty rest r h = cc
skipped turn_id now wall (broken e) rest r h = cc

turn_loop-own :
    (turn_id : String) (deadline : ℕ) (arrivals : List Arrival) (r : Running)
    → All (λ (a : Arrival). leb deadline a.now ≡ false) arrivals
    → turn_loop turn_id deadline (where_select (λ (a : Arrival). is_own turn_id a.got) arrivals) r
      ≡ turn_loop turn_id deadline arrivals r
unfolding turn_loop where_select
turn_loop-own turn_id deadline [] r early = refl
turn_loop-own turn_id deadline (a ∷ arrivals) r early = elim (Bool-cases (is_own turn_id a.got)) [
  | inl own ↦
      let same : turn_loop turn_id deadline
            (where_select (λ (b : Arrival). is_own turn_id b.got) arrivals)
          ≡ turn_loop turn_id deadline arrivals =
        λ i x. turn_loop-own turn_id deadline arrivals x early.1 i in
      rw own (rw early.0 (ap (λ rest. on_got turn_id a.now a.wall a.got rest r) same))
  | inr foreign ↦
      rw (foreign, early.0)
        (turn_loop-own turn_id deadline arrivals r early.1
          ∙ sym
              (skipped turn_id a.now a.wall a.got (turn_loop turn_id deadline arrivals) r foreign))
]

after_start-own :
    (call : Call) (arrivals : List Arrival) (reg : Registry) (r : Running) (turn_id : String)
    → All (λ (a : Arrival). leb (call.now + call.timeout) a.now ≡ false) arrivals
    → after_start call
        (where_select (λ (a : Arrival). is_own turn_id a.got) arrivals)
        reg
        r
        (ok turn_id)
      ≡ after_start call arrivals reg r (ok turn_id)
after_start-own call arrivals reg r turn_id early =
    let deadline : ℕ = call.now + call.timeout in
    let same : turn_loop turn_id deadline
          (where_select (λ (a : Arrival). is_own turn_id a.got) arrivals)
        ≡ turn_loop turn_id deadline arrivals =
      λ i x. turn_loop-own turn_id deadline arrivals x early i in
    let turn : ActiveTurn = record {
      thread_id = call.thread_id;
      turn_id = turn_id;
      telemetry = some call.telemetry_id;
    } in
    let first : Running =
      report "running" "running" true "" (with_telemetry (begin_telemetry call turn_id) r) in
    ap
      (λ loop.
        if is_empty_text turn_id
        then fail_turn call none no_turn_id r reg
        else end_turn call turn_id (loop first) (register turn reg))
      same

-- Messages that name another turn do not count: without them the turn ends in the same way, with the
-- same result, registry and observations, if all arrivals come before the deadline.
pub run_turn_own :
    (call : Call) (t : TurnTelemetry) (arrivals : List Arrival) (reg : Registry) (turn_id : String)
    → call.response ≡ ok turn_id
    → All (λ (a : Arrival). leb (call.now + call.timeout) a.now ≡ false) arrivals
    → run_turn call t (where_select (λ (a : Arrival). is_own turn_id a.got) arrivals) reg
      ≡ run_turn call t arrivals reg
unfolding run_turn
run_turn_own call t arrivals reg turn_id started early =
    let begun : Registry = observe (some call.telemetry_id) reg in
    let own = where_select (λ (a : Arrival). is_own turn_id a.got) arrivals in
    let inner = after_start-own call arrivals begun (requested call t) turn_id early in
    ap
      (λ out.
        if eqb call.timeout 0
        then (raised timeout_invalid, (reg, record (requested call t) { telemetry = t }))
        else out)
      (subst
        (λ o.
          after_start call own begun (requested call t) o
          ≡ after_start call arrivals begun (requested call t) o)
        (sym started) inner)
