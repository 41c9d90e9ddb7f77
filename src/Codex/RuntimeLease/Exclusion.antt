-- ===== src/Codex/RuntimeLease/Exclusion.antt =====
-- While a lease has not run out and its owner lives, nobody else gets the thread.
use mathlib.Core.Option
use codex_feishu_remoter.Prelude.{
  ℕ, String, ◌+◌, ◌≡◌, refl, inl, inr, ap, ◌∙◌, Bool, true, false, ◌&&◌, ◌==◌, eq_iff, Option, none,
  some, List, [], ◌∷◌, arith, if◌then◌else◌, Bool-cases, ltb, lookup, lookup-where_update,
  lookup-where_delete, where_update, ok, raised, Outcome, All, run, total, total_paid,
  run_keeps_fitting,
}
use codex_feishu_remoter.Codex.RuntimeLease.{
  LeaseRow, lease_keyed, generation_keyed, Database, CfrThreadRuntimeLease, Manager,
  next_generation, new_row, acquire, is_mine, beaten, heartbeat, attempts, release, LeaseError,
}
use codex_feishu_remoter.Codex.RuntimeLease.Ops.{
  LeaseOp, acquiring, beating, releasing, apply, IsConsistent, lookup-granted, apply-IsConsistent,
}

-- A call by anyone but the owner of `row`: an attempt at the thread comes before the lease has run
-- out and finds the owner alive, and a handle is not the row's.
abbrev pub ByOthers : LeaseRow → LeaseOp → Type 0
ByOthers row (acquiring m alive busy now lease_id thread) =
    thread ≡ row.thread_id → (ltb now row.expires_at ≡ true) × (alive row.owner_pid ≡ true)
ByOthers row (beating m now error lease) = is_mine lease row ≡ false
ByOthers row (releasing a b c lease) = is_mine lease row ≡ false

abbrev is_ok {ℓ} : {A : Type ℓ} → Outcome LeaseError A → Bool
is_ok (ok a) = true
is_ok (raised e) = false

-- 1 if the call got the lease of the thread
abbrev pub grants_in : String → LeaseOp → Database → ℕ
grants_in thread (acquiring m alive busy now lease_id which) db =
    if which == thread && is_ok (acquire m alive busy now lease_id which db).0 then 1 else 0
grants_in thread _ db = 0

acquire-others :
    (row : LeaseRow) (m : Manager) (alive : Option ℕ → Bool) (busy : Bool) (now : ℕ)
    (lease_id which : String) (db : Database)
    → ByOthers row (acquiring m alive busy now lease_id which)
    → lookup row.thread_id db.leases ≡ some row
    → (lookup row.thread_id (acquire m alive busy now lease_id which db).1.leases ≡ some row)
      × (grants_in row.thread_id (acquiring m alive busy now lease_id which) db ≡ 0)
unfolding acquire
acquire-others row m alive true now lease_id which db other held = (held, ground arith)
acquire-others row m alive false now lease_id which db other held =
    elim (Bool-cases (which == row.thread_id)) [
      | inl same ↦
          let at_row : which ≡ row.thread_id = (eq_iff which row.thread_id).0 same in
          let (early, lives) = other at_row in
          let found : lookup which db.leases ≡ some row =
            ap (λ k. lookup k db.leases) at_row ∙ held in
          (ground (arith, found, held, early, lives), ground (arith, found, early, lives))
      | inr different ↦ (
        ground (
          arith,
          held,
          different,
          lookup-granted
              (new_row m now lease_id which (next_generation (lookup which db.generations)))
              db.leases row.thread_id,
        ),
        rw different,
      )
    ]

heartbeat-others :
    (row : LeaseRow) (m : Manager) (now : ℕ) (error : Option ℕ) (lease : CfrThreadRuntimeLease)
    (db : Database)
    → is_mine lease row ≡ false
    → lookup row.thread_id db.leases ≡ some row
    → lookup row.thread_id (heartbeat m now error lease db).2.leases ≡ some row
unfolding heartbeat
heartbeat-others row m now (some later) lease db other held = ground arith
heartbeat-others row m now none lease db other held =
    let after =
      lookup-where_update (is_mine lease) (beaten now (now + m.ttl)) (λ r. refl) row.thread_id
        db.leases in
    let kept : lookup row.thread_id
          (where_update (is_mine lease) (beaten now (now + m.ttl)) db.leases)
        ≡ some row =
      after ∙ ap (Option.map _) held ∙ rw other in
    ground (arith, kept)

attempts-others :
    (row : LeaseRow) (lease : CfrThreadRuntimeLease) (db : Database) (fails : List Bool)
    → IsConsistent db
    → is_mine lease row ≡ false
    → lookup row.thread_id db.leases ≡ some row
    → lookup row.thread_id (attempts lease db fails).1.leases ≡ some row
attempts-others row lease db [] h other held = held
attempts-others row lease db (true ∷ rest) h other held =
    attempts-others row lease db rest h other held
attempts-others row lease db (false ∷ rest) h other held =
    lookup-where_delete (is_mine lease) row.thread_id db.leases h.keys ∙ rw (held, other)

step-others :
    (row : LeaseRow) (op : LeaseOp) (db : Database)
    → ByOthers row op
    → IsConsistent db
    → lookup row.thread_id db.leases ≡ some row
    → (lookup row.thread_id (apply op db).leases ≡ some row) × (grants_in row.thread_id op db ≡ 0)
unfolding apply release
step-others row (acquiring m alive busy now lease_id which) db other h held =
    acquire-others row m alive busy now lease_id which db other held
step-others row (beating m now error lease) db other h held =
    (heartbeat-others row m now error lease db other held, refl)
step-others row (releasing a b c lease) db other h held =
    (attempts-others row lease db (a ∷ b ∷ c ∷ []) h other held, refl)

-- Over any calls by others that come before the lease has run out and find its owner alive, the
-- row of the lease stays as it is, and none of them is granted the thread.
pub held_exclusively :
    (row : LeaseRow) (ops : List LeaseOp) (db : Database)
    → IsConsistent db
    → lookup row.thread_id db.leases ≡ some row
    → All (ByOthers row) ops
    → (lookup row.thread_id (run apply ops db).leases ≡ some row)
      × (total apply (grants_in row.thread_id) ops db ≡ 0)
held_exclusively row ops db h held others = (
  (run_keeps_fitting apply (ByOthers row)
      (λ d. IsConsistent d × (lookup row.thread_id d.leases ≡ some row))
      (λ op d fits k. (apply-IsConsistent op d k.0, (step-others row op d fits k.0 k.1).0)) ops db
      others (h, held)).1,
  omega (
    arith,
    total_paid apply (ByOthers row)
        (λ d. IsConsistent d × (lookup row.thread_id d.leases ≡ some row)) (λ _. 0)
        (grants_in row.thread_id)
        (λ op d fits k. (apply-IsConsistent op d k.0, (step-others row op d fits k.0 k.1).0))
        (λ op d fits k. omega (arith, (step-others row op d fits k.0 k.1).1)) ops db others
        (h, held),
  ),
)
