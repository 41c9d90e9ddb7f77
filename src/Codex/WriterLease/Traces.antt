-- ===== src/Codex/WriterLease/Traces.antt =====
-- One writer for a thread at a time, and the threads that `busy_threads` lists.
use codex_feishu_remoter.Prelude.{
  ℕ, ◌+◌, ◌≤◌, String, ◌≡◌, refl, inl, inr, Bool, true, false, not, ◌&&◌, ◌||◌, ◌==◌, eq_iff, List,
  [], ◌∷◌, arith, if◌then◌else◌, Option-cases, lookup, lookup-key, lookup-upsert,
  lookup-where_delete, where_select, Unique, Unique-upsert, Unique-where_delete, Outcome, ok,
  raised, All-of, total, total_bounded, run, run_keeps,
}
use codex_feishu_remoter.Codex.WriterLease.{
  LeaseState, idle, cfr_active, external_active, WriterState, writer_keyed, WriterLeaseManager,
  WriterError, is_idle, is_external, state_for, in_state, put, grant_if, acquire, mark_external,
  recover, release, busy_threads,
}

pub data WriterOp : Type 0 where
  acquiring marking recovering releasing : String → WriterOp

unfoldable pub apply : WriterOp → WriterLeaseManager → WriterLeaseManager
apply (acquiring thread) m = (acquire thread m).1
apply (marking thread) m = mark_external thread m
apply (recovering thread) m = recover thread m
apply (releasing thread) m = release thread m

-- What a method does to the states of all threads.
pub state_for-put :
    (thread other : String) (state : LeaseState) (m : WriterLeaseManager)
    → state_for other (put thread state m) ≡ (if thread == other then state else state_for other m)
unfolding state_for
state_for-put thread other state m =
    let new : WriterState = record { thread_id = thread; state = state } in
    elim (Option-cases (lookup other m)) [
      | inl absent ↦ ground (arith, absent, lookup-upsert (in_state state) (λ r. refl) new other m)
      | inr (r, found) ↦
          ground (arith, found, lookup-upsert (in_state state) (λ q. refl) new other m)
    ]

pub state_for-release :
    (thread other : String) (m : WriterLeaseManager)
    → Unique m
    → state_for other (release thread m) ≡ (if thread == other then idle else state_for other m)
unfolding state_for release
state_for-release thread other m u = elim (Option-cases (lookup other m)) [
  | inl absent ↦
      ground
        (arith, absent, lookup-where_delete (λ (r : WriterState). r.thread_id == thread) other m u)
  | inr (r, found) ↦ ground (
    arith,
    found,
    lookup-where_delete (λ (q : WriterState). q.thread_id == thread) other m u,
    lookup-key other m r found,
    eq_iff r.thread_id thread,
    eq_iff thread other,
  )
]

put-Unique :
    (thread : String) (state : LeaseState) (m : WriterLeaseManager)
    → Unique m
    → Unique (put thread state m)
put-Unique thread state m u = Unique-upsert (in_state state) (λ r. refl) _ m u

acquire-Unique :
    (thread : String) (m : WriterLeaseManager) (free : Bool)
    → Unique m
    → Unique (grant_if free thread m).1
acquire-Unique thread m true u = put-Unique thread cfr_active m u
acquire-Unique thread m false u = u

recover-Unique :
    (thread : String) (m : WriterLeaseManager) (external : Bool)
    → Unique m
    → Unique (if external then put thread cfr_active m else m)
recover-Unique thread m true u = put-Unique thread cfr_active m u
recover-Unique thread m false u = u

pub apply-Unique : (op : WriterOp) (m : WriterLeaseManager) → Unique m → Unique (apply op m)
unfolding apply acquire mark_external recover release
apply-Unique (acquiring thread) m u = acquire-Unique thread m (is_idle (state_for thread m)) u
apply-Unique (marking thread) m u = put-Unique thread external_active m u
apply-Unique (recovering thread) m u = recover-Unique thread m (is_external (state_for thread m)) u
apply-Unique (releasing thread) m u = Unique-where_delete _ m u

abbrev is_ok {ℓ} : {A : Type ℓ} → Outcome WriterError A → Bool
is_ok (ok a) = true
is_ok (raised e) = false

-- 1 if the call made CFR the writer of the thread
abbrev pub acquisitions_in : String → WriterOp → WriterLeaseManager → ℕ
acquisitions_in thread (acquiring which) m =
    if which == thread && is_ok (acquire which m).0 then 1 else 0
acquisitions_in thread _ m = 0

-- 1 if the call releases the thread
abbrev pub releases_in : String → WriterOp → WriterLeaseManager → ℕ
releases_in thread (releasing which) m = if which == thread then 1 else 0
releases_in thread _ m = 0

-- 1 if the thread has no writer
abbrev vacancy : LeaseState → ℕ
vacancy state = if is_idle state then 1 else 0

step-vacancy :
    (thread : String) (op : WriterOp) (m : WriterLeaseManager)
    → Unique m
    → acquisitions_in thread op m + vacancy (state_for thread (apply op m))
      ≤ vacancy (state_for thread m) + releases_in thread op m
unfolding apply acquire mark_external recover
step-vacancy thread (acquiring which) m u =
    ground (arith, state_for-put which thread cfr_active m, eq_iff which thread)
step-vacancy thread (marking which) m u =
    ground (arith, state_for-put which thread external_active m)
step-vacancy thread (recovering which) m u =
    ground (arith, state_for-put which thread cfr_active m, eq_iff which thread)
step-vacancy thread (releasing which) m u = ground (arith, state_for-release which thread m u)

-- Over any calls from the start, the acquisitions of a thread that succeed are at most one more
-- than the calls that release it: between two of them there is a release.
pub acquisitions-le-releases :
    (thread : String) (ops : List WriterOp)
    → total apply (acquisitions_in thread) ops [] ≤ 1 + total apply (releases_in thread) ops []
unfolding state_for lookup
acquisitions-le-releases thread ops = omega (
  arith,
  total_bounded apply (λ _. Unit {0}) (λ m. Unique m) (λ m. vacancy (state_for thread m))
      (acquisitions_in thread) (releases_in thread) (λ op m _ u. apply-Unique op m u)
      (λ op m _ u. step-vacancy thread op m u) ops [] (All-of _ (λ _. tt) ops) tt,
)

abbrev pub contains : String → List String → Bool
contains k [] = false
contains k (j ∷ ks) = j == k || contains k ks

busy_threads-exact :
    (thread : String) (m : WriterLeaseManager)
    → Unique m
    → contains thread (busy_threads m) ≡ not (is_idle (state_for thread m))
unfolding busy_threads state_for lookup where_select
busy_threads-exact thread [] u = refl
busy_threads-exact thread (r ∷ m) u =
    ground (arith, busy_threads-exact thread m u.1, eq_iff r.thread_id thread, u.0)

-- However CFR calls its methods from the start, `busy_threads` then lists exactly the threads that
-- have a writer.
pub run-busy_threads :
    (thread : String) (ops : List WriterOp)
    → contains thread (busy_threads (run apply ops []))
      ≡ not (is_idle (state_for thread (run apply ops [])))
run-busy_threads thread ops =
    busy_threads-exact thread (run apply ops [])
      (run_keeps apply (λ m. Unique m) apply-Unique ops [] tt)
