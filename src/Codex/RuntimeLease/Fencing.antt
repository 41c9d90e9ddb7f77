-- ===== src/Codex/RuntimeLease/Fencing.antt =====
-- The generation of a lease is a fencing token: once a thread has been leased again, the handle of
-- the former owner writes nothing.
use native.Mathlib.Nat.{le_refl, le_trans}
use codex_feishu_remoter.Prelude.{
  ℕ, suc, String, ◌≤◌, ◌<◌, ◌≡◌, refl, inl, inr, subst, ◌∙◌, Bool, true, false, eq_iff, eq_refl,
  Option, none, some, List, [], ◌∷◌, arith, Bool-cases, lookup, where_delete, rowcount, ok, Outcome,
  All, All-map, All-lookup, where_delete-misses, rowcount-misses, run, run_keeps,
}
use codex_feishu_remoter.Codex.RuntimeLease.{
  lease_keyed, generation_keyed, Database, CfrThreadRuntimeLease, Manager, next_generation, granted,
  is_held, acquire, is_mine, heartbeat, attempts, release, LeaseError,
}
use codex_feishu_remoter.Codex.RuntimeLease.Ops.{
  LeaseOp, acquiring, beating, releasing, apply, last_generation, IsConsistent, generation-granted,
  next_generation_lem, acquire-IsConsistent, apply-IsConsistent,
}

granted-generation :
    (m : Manager) (now : ℕ) (lease_id thread other : String) (db : Database)
    → last_generation other db ≤ last_generation other (granted m now lease_id thread db).1
granted-generation m now lease_id thread other db = ground (
  arith,
  eq_iff thread other,
  generation-granted (next_generation (lookup thread db.generations)) thread db.generations other,
  next_generation_lem (lookup thread db.generations),
)

acquire-generation :
    (m : Manager) (alive : Option ℕ → Bool) (busy : Bool) (now : ℕ) (lease_id thread other : String)
    (db : Database)
    → last_generation other db
      ≤ last_generation other (acquire m alive busy now lease_id thread db).1
unfolding acquire
acquire-generation m alive true now lease_id thread other db = le_refl _
acquire-generation m alive false now lease_id thread other db =
    elim (Bool-cases (is_held alive now (lookup thread db.leases))) [
      | inl held ↦ rw held (le_refl _)
      | inr free ↦ rw free (granted-generation m now lease_id thread other db)
    ]

heartbeat-generation :
    (m : Manager) (now : ℕ) (error : Option ℕ) (lease : CfrThreadRuntimeLease) (db : Database)
    → (heartbeat m now error lease db).2.generations ≡ db.generations
unfolding heartbeat
heartbeat-generation m now none lease db = ground arith
heartbeat-generation m now (some later) lease db = ground arith

attempts-generation :
    (lease : CfrThreadRuntimeLease) (db : Database) (fails : List Bool)
    → (attempts lease db fails).1.generations ≡ db.generations
attempts-generation lease db [] = refl
attempts-generation lease db (true ∷ rest) = attempts-generation lease db rest
attempts-generation lease db (false ∷ rest) = refl

-- No call takes a generation back, not even the release of the lease.
pub apply-generation :
    (thread : String) (op : LeaseOp) (db : Database)
    → last_generation thread db ≤ last_generation thread (apply op db)
unfolding apply release
apply-generation thread (acquiring m alive busy now lease_id which) db =
    acquire-generation m alive busy now lease_id which thread db
apply-generation thread (beating m now error lease) db =
    rw (heartbeat-generation m now error lease db) (le_refl _)
apply-generation thread (releasing a b c lease) db =
    rw (attempts-generation lease db (a ∷ b ∷ c ∷ [])) (le_refl _)

run-generation :
    (thread : String) (ops : List LeaseOp) (db : Database)
    → last_generation thread db ≤ last_generation thread (run apply ops db)
run-generation thread ops db =
    run_keeps apply (λ d. last_generation thread db ≤ last_generation thread d)
      (λ op d h. le_trans h (apply-generation thread op d)) ops db (le_refl _)

-- A successful call of `acquire` hands out the next generation, which is then the last.
pub acquire-next :
    (m : Manager) (alive : Option ℕ → Bool) (busy : Bool) (now : ℕ) (lease_id thread : String)
    (db db' : Database) (lease : CfrThreadRuntimeLease)
    → acquire m alive busy now lease_id thread db ≡ (ok lease, db')
    → (lease.thread_id ≡ thread)
      × (lease.generation ≡ suc (last_generation thread db))
      × (lease.generation ≡ last_generation thread db')
unfolding acquire
acquire-next m alive busy now lease_id thread db db' lease h = ground (
  arith,
  eq_refl thread,
  generation-granted (next_generation (lookup thread db.generations)) thread db.generations thread,
  next_generation_lem (lookup thread db.generations),
)

-- no row of the table is the handle's
stale-misses :
    (lease : CfrThreadRuntimeLease) (db : Database)
    → IsConsistent db
    → lease.generation < last_generation lease.thread_id db
    → All (λ r. is_mine lease r ≡ false) db.leases
stale-misses lease db h old =
    All-map _ _
      (λ r found. ground (arith, eq_iff r.thread_id lease.thread_id, h.agree r.thread_id r found))
      db.leases (All-lookup db.leases h.keys)

-- Neither method writes for the handle, and without a failure of SQLite both say so.
pub record IsFenced (lease : CfrThreadRuntimeLease) (db : Database) : Type 0 where
  pub writes_nothing :
      (m : Manager) (now : ℕ) (error : Option ℕ) → (heartbeat m now error lease db).2 ≡ db
  pub beats_false : (m : Manager) (now : ℕ) → (heartbeat m now none lease db).0 ≡ false
  pub releases_nothing : (a b c : Bool) → release a b c lease db ≡ (false, db)

beat-stale :
    (m : Manager) (now : ℕ) (error : Option ℕ) (lease : CfrThreadRuntimeLease) (db : Database)
    → rowcount (is_mine lease) db.leases ≡ 0
    → (heartbeat m now error lease db).2 ≡ db
unfolding heartbeat
beat-stale m now none lease db e = ground arith
beat-stale m now (some later) lease db e = ground arith

beat-false :
    (m : Manager) (now : ℕ) (lease : CfrThreadRuntimeLease) (db : Database)
    → rowcount (is_mine lease) db.leases ≡ 0
    → (heartbeat m now none lease db).0 ≡ false
unfolding heartbeat
beat-false m now lease db e = ground arith

attempts-stale :
    (lease : CfrThreadRuntimeLease) (db : Database) (fails : List Bool)
    → rowcount (is_mine lease) db.leases ≡ 0
    → where_delete (is_mine lease) db.leases ≡ db.leases
    → attempts lease db fails ≡ (false, db)
attempts-stale lease db [] e same = refl
attempts-stale lease db (true ∷ rest) e same = attempts-stale lease db rest e same
attempts-stale lease db (false ∷ rest) e same = ground arith

pub stale-IsFenced :
    (lease : CfrThreadRuntimeLease) (db : Database)
    → IsConsistent db
    → lease.generation < last_generation lease.thread_id db
    → IsFenced lease db
unfolding release
stale-IsFenced lease db h old =
    let misses = stale-misses lease db h old in
    let none_mine = rowcount-misses (is_mine lease) db.leases misses in
    record {
      writes_nothing = λ m now error. beat-stale m now error lease db none_mine;
      beats_false = λ m now. beat-false m now lease db none_mine;
      releases_nothing = λ a b c.
          attempts-stale lease db (a ∷ b ∷ c ∷ []) none_mine
            (where_delete-misses (is_mine lease) db.leases misses);
    }

-- Two successful calls of `acquire` for a thread, with any calls between them and after them: the
-- second lease has the greater generation, and a handle of the first (with the times that its
-- heartbeats gave it) is fenced from then on.
pub takeover-fences :
    (m n : Manager) (alive others_alive : Option ℕ → Bool) (busy busy_again : Bool) (now later : ℕ)
    (lease_id next_id thread : String) (start granted again : Database)
    (first second handle : CfrThreadRuntimeLease) (between after : List LeaseOp)
    → IsConsistent start
    → acquire m alive busy now lease_id thread start ≡ (ok first, granted)
    → acquire n others_alive busy_again later next_id thread (run apply between granted)
      ≡ (ok second, again)
    → handle.thread_id ≡ first.thread_id
    → handle.generation ≡ first.generation
    → (first.generation < second.generation) × IsFenced handle (run apply after again)
takeover-fences m n alive others_alive busy busy_again now later lease_id next_id thread start
      granted again first second handle between after ok_start one two same_thread same_generation =
    let at_first = acquire-next m alive busy now lease_id thread start granted first one in
    let at_second =
      acquire-next n others_alive busy_again later next_id thread (run apply between granted) again
        second two in
    let grown = run-generation thread between granted in
    let newer : first.generation < second.generation = omega arith in
    let granted_ok : IsConsistent granted =
      subst (λ (o : Outcome LeaseError CfrThreadRuntimeLease × Database). IsConsistent o.1) one
        (acquire-IsConsistent m alive busy now lease_id thread start ok_start) in
    let between_ok = run_keeps apply IsConsistent apply-IsConsistent between granted granted_ok in
    let again_ok : IsConsistent again =
      subst (λ (o : Outcome LeaseError CfrThreadRuntimeLease × Database). IsConsistent o.1) two
        (acquire-IsConsistent n others_alive busy_again later next_id thread
          (run apply between granted) between_ok) in
    let kept = run-generation thread after again in
    (
      newer,
      stale-IsFenced handle (run apply after again)
          (run_keeps apply IsConsistent apply-IsConsistent after again again_ok)
          (rw (same_thread ∙ at_first.0) (omega arith)),
    )
