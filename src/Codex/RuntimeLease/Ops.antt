-- ===== src/Codex/RuntimeLease/Ops.antt =====
-- The calls on the lease tables as one type, and what holds of the tables after any of them.
use codex_feishu_remoter.Prelude.{
  ℕ, suc, String, ◌+◌, ◌≡◌, refl, inl, inr, Bool, true, false, ◌==◌, eq_iff, Option, none, some,
  List, [], ◌∷◌, arith, if◌then◌else◌, Option-cases, Bool-cases, eqb, ltb, lookup, lookup-key,
  lookup-where_update, lookup-where_delete, upsert, lookup-upsert, Unique-upsert, where_update,
  where_delete, rowcount, Unique, Unique-where_update, Unique-where_delete,
}
use codex_feishu_remoter.Codex.RuntimeLease.{
  LeaseRow, lease_keyed, GenerationRow, generation_keyed, Database, CfrThreadRuntimeLease, Manager,
  next_generation, new_row, replacing, regenerated, granted, is_held, acquire, is_mine, beaten,
  beat, heartbeat, attempts, release,
}

pub data LeaseOp : Type 0 where
  acquiring : Manager → (Option ℕ → Bool) → Bool → ℕ → String → String → LeaseOp
  beating : Manager → ℕ → Option ℕ → CfrThreadRuntimeLease → LeaseOp
  releasing : Bool → Bool → Bool → CfrThreadRuntimeLease → LeaseOp

unfoldable pub apply : LeaseOp → Database → Database
apply (acquiring m alive busy now lease_id thread) db =
    (acquire m alive busy now lease_id thread db).1
apply (beating m now error lease) db = (heartbeat m now error lease db).2
apply (releasing a b c lease) db = (release a b c lease db).1

abbrev pub generation_of : Option GenerationRow → ℕ
generation_of none = 0
generation_of (some g) = g.generation

-- the last generation that a thread was leased at
abbrev pub last_generation : String → Database → ℕ
last_generation thread db = generation_of (lookup thread db.generations)

-- One row for a thread in each table, and a lease is of its thread's last generation.
pub record IsConsistent (db : Database) : Type 0 where
  pub keys : Unique db.leases
  pub generation_keys : Unique db.generations
  pub agree :
      (thread : String) (r : LeaseRow)
      → lookup thread db.leases ≡ some r
      → r.generation ≡ last_generation thread db

replacing_lem : (new r : LeaseRow) → r.thread_id ≡ new.thread_id → replacing new r ≡ new
replacing_lem new r e = ground arith

-- After a grant the thread has the new row, and the other threads have theirs.
pub lookup-granted :
    (new : LeaseRow) (rows : List LeaseRow) (thread : String)
    → lookup thread (upsert (replacing new) new rows)
      ≡ (if new.thread_id == thread then some new else lookup thread rows)
lookup-granted new rows thread = elim (Option-cases (lookup thread rows)) [
  | inl absent ↦ ground (arith, absent, lookup-upsert (replacing new) (λ r. refl) new thread rows)
  | inr (r, found) ↦ ground (
    arith,
    found,
    lookup-upsert (replacing new) (λ q. refl) new thread rows,
    lookup-key thread rows r found,
    eq_iff new.thread_id thread,
    replacing_lem new r,
  )
]

pub generation-granted :
    (g : ℕ) (thread : String) (rows : List GenerationRow) (other : String)
    → generation_of
        (lookup other (upsert (regenerated g) (record { thread_id = thread; generation = g }) rows))
      ≡ (if thread == other then g else generation_of (lookup other rows))
generation-granted g thread rows other =
    let new : GenerationRow = record { thread_id = thread; generation = g } in
    ground (arith, lookup-upsert (regenerated g) (λ r. refl) new other rows)

pub next_generation_lem :
    (row : Option GenerationRow) → next_generation row ≡ suc (generation_of row)
next_generation_lem none = refl
next_generation_lem (some row) = omega arith

granted-IsConsistent :
    (m : Manager) (now : ℕ) (lease_id thread : String) (db : Database)
    → IsConsistent db
    → IsConsistent (granted m now lease_id thread db).1
granted-IsConsistent m now lease_id thread db h = record {
  keys = Unique-upsert _ (λ r. refl) _ db.leases h.keys;
  generation_keys = Unique-upsert _ (λ r. refl) _ db.generations h.generation_keys;
  agree = λ other r found.
      let g = next_generation (lookup thread db.generations) in
      let new = new_row m now lease_id thread g in
      ground (
        arith,
        lookup-granted new db.leases other,
        generation-granted g thread db.generations other,
        h.agree other r,
      );
}

pub acquire-IsConsistent :
    (m : Manager) (alive : Option ℕ → Bool) (busy : Bool) (now : ℕ) (lease_id thread : String)
    (db : Database)
    → IsConsistent db
    → IsConsistent (acquire m alive busy now lease_id thread db).1
unfolding acquire
acquire-IsConsistent m alive true now lease_id thread db h = h
acquire-IsConsistent m alive false now lease_id thread db h =
    elim (Bool-cases (is_held alive now (lookup thread db.leases))) [
      | inl held ↦ rw held h
      | inr free ↦ rw free (granted-IsConsistent m now lease_id thread db h)
    ]

update-IsConsistent :
    (p : LeaseRow → Bool) (f : LeaseRow → LeaseRow) (db : Database)
    → ((r : LeaseRow) → (f r).thread_id ≡ r.thread_id)
    → ((r : LeaseRow) → (f r).generation ≡ r.generation)
    → IsConsistent db
    → IsConsistent (record db { leases = where_update p f db.leases })
update-IsConsistent p f db keeps same h = record {
  keys = Unique-where_update p f keeps db.leases h.keys;
  generation_keys = h.generation_keys;
  agree = λ thread r found. elim (Option-cases (lookup thread db.leases)) [
    | inl absent ↦ ground (arith, found, absent, lookup-where_update p f keeps thread db.leases)
    | inr (q, there) ↦ ground (
      arith,
      found,
      there,
      lookup-where_update p f keeps thread db.leases,
      same q,
      h.agree thread q there,
    )
  ];
}

delete-IsConsistent :
    (p : LeaseRow → Bool) (db : Database)
    → IsConsistent db
    → IsConsistent (record db { leases = where_delete p db.leases })
delete-IsConsistent p db h = record {
  keys = Unique-where_delete p db.leases h.keys;
  generation_keys = h.generation_keys;
  agree = λ thread r found.
      ground (arith, found, lookup-where_delete p thread db.leases h.keys, h.agree thread r);
}

heartbeat-IsConsistent :
    (m : Manager) (now : ℕ) (error : Option ℕ) (lease : CfrThreadRuntimeLease) (db : Database)
    → IsConsistent db
    → IsConsistent (heartbeat m now error lease db).2
unfolding heartbeat
heartbeat-IsConsistent m now error lease db h = elim (Bool-cases lease.lease_lost) [
  | inl lost ↦ simp lost h
  | inr owned ↦ simp owned (beat-IsConsistent error)
]
  where
    beat-IsConsistent : (error : Option ℕ) → IsConsistent (beat m now error lease db).2
    beat-IsConsistent (some later) = elim (Bool-cases (ltb later lease.expires_at)) [
      | inl early ↦ rw early h
      | inr late ↦ rw late h
    ]
    beat-IsConsistent none = elim (Bool-cases (eqb (rowcount (is_mine lease) db.leases) 1)) [
      | inl one ↦ rw one (
          update-IsConsistent (is_mine lease) (beaten now (now + m.ttl)) db (λ r. refl) (λ r. refl)
            h)
      | inr other ↦ rw other h
    ]

attempts-IsConsistent :
    (lease : CfrThreadRuntimeLease) (db : Database) (fails : List Bool)
    → IsConsistent db
    → IsConsistent (attempts lease db fails).1
attempts-IsConsistent lease db [] h = h
attempts-IsConsistent lease db (true ∷ rest) h = attempts-IsConsistent lease db rest h
attempts-IsConsistent lease db (false ∷ rest) h = delete-IsConsistent (is_mine lease) db h

-- No call breaks the agreement of the two tables.
pub apply-IsConsistent :
    (op : LeaseOp) (db : Database) → IsConsistent db → IsConsistent (apply op db)
unfolding apply release
apply-IsConsistent (acquiring m alive busy now lease_id thread) db h =
    acquire-IsConsistent m alive busy now lease_id thread db h
apply-IsConsistent (beating m now error lease) db h = heartbeat-IsConsistent m now error lease db h
apply-IsConsistent (releasing a b c lease) db h = attempts-IsConsistent lease db (a ∷ b ∷ c ∷ []) h
