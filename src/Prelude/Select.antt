-- ===== src/Prelude/Select.antt =====
-- `select … where … order by … limit …` over a table: a filter, a stable insertion sort (ties stay
-- in rowid order) and a prefix.
use Prim.Native.String.{String}
use mathlib.Core.Path.{◌≡◌, refl, subst}
use mathlib.Core.Logic.{◌⊎◌, inl, inr}
use mathlib.Core.Bool.{Bool, true, false}
use mathlib.Core.Option.{Option, none, some}
use mathlib.Core.List.{List, [], ◌∷◌, ◌++◌, Perm}
use mathlib.Core.List.Perm
use text.Mathlib.Text.{◌==◌}
use text.Mathlib.TextEquality.{eq_iff}
use text.Mathlib.TextPositions.{eq_refl}
use native.Mathlib.Omega.{arith}
use codex_feishu_remoter.Prelude.Table.{Keyed, lookup, Unique, where_update, where_delete, rowcount}
use codex_feishu_remoter.Prelude.Tests.{if◌then◌else◌, Bool-cases}

module _ {ℓ} {R : Type ℓ} where
  unfoldable pub where_select : (R → Bool) → List R → List R
  where_select p [] = []
  where_select p (r ∷ rs) = let rest = where_select p rs in if p r then r ∷ rest else rest

  unfoldable pub insert_by : (R → R → Bool) → R → List R → List R
  insert_by le r [] = r ∷ []
  insert_by le r (q ∷ qs) = let rest = insert_by le r qs in if le r q then r ∷ q ∷ qs else q ∷ rest

  unfoldable pub order_by : (R → R → Bool) → List R → List R
  unfolding insert_by
  order_by le [] = []
  order_by le (r ∷ rs) = insert_by le r (order_by le rs)

  -- `limit 1`
  abbrev pub first : List R → Option R
  first [] = none
  first (r ∷ rs) = some r

  -- every row satisfies `P`
  abbrev pub All {κ} : (R → Type κ) → List R → Type κ
  All P [] = Unit
  All P (r ∷ rs) = P r × All P rs

  pub record IsOrder (le : R → R → Bool) : Type ℓ where
    pub total : (a b : R) → (le a b ≡ true) ⊎ (le b a ≡ true)
    pub trans : (a b c : R) → le a b ≡ true → le b c ≡ true → le a c ≡ true

  -- each row stands before those that follow it
  abbrev pub IsSorted : (R → R → Bool) → List R → Type 0
  IsSorted le [] = Unit
  IsSorted le (r ∷ rs) = All (λ q. le r q ≡ true) rs × IsSorted le rs

  module _ {κ} (P : R → Type κ) where
    All-insert_by :
        (le : R → R → Bool) (r : R) (rs : List R) → P r → All P rs → All P (insert_by le r rs)
    unfolding insert_by
    All-insert_by le r [] h a = (h, tt)
    All-insert_by le r (q ∷ qs) h a = elim (Bool-cases (le r q)) [
      | inl e ↦ rw e (h, a)
      | inr e ↦ rw e (a.0, All-insert_by le r qs h a.1)
    ]

    pub All-order_by : (le : R → R → Bool) (rs : List R) → All P rs → All P (order_by le rs)
    unfolding order_by
    All-order_by le [] a = tt
    All-order_by le (r ∷ rs) a = All-insert_by le r (order_by le rs) a.0 (All-order_by le rs a.1)

    -- A selected row satisfies the test, and what the rows of the table that pass it satisfy.
    pub All-where_select :
        (p : R → Bool) (rs : List R) → All (λ r. p r ≡ true → P r) rs → All P (where_select p rs)
    unfolding where_select
    All-where_select p [] a = tt
    All-where_select p (r ∷ rs) a = elim (Bool-cases (p r)) [
      | inl e ↦ rw e (a.0 e, All-where_select p rs a.1)
      | inr e ↦ rw e (All-where_select p rs a.1)
    ]

    -- The other way round.
    pub All-of_where_select :
        (p : R → Bool) (rs : List R) → All P (where_select p rs) → All (λ r. p r ≡ true → P r) rs
    unfolding where_select
    All-of_where_select p [] a = tt
    All-of_where_select p (r ∷ rs) a = elim (Bool-cases (p r)) [
      | inl e ↦
          let b : All P (r ∷ where_select p rs) = rw e at a in
          ((λ _. b.0), All-of_where_select p rs b.1)
      | inr e ↦
          let b : All P (where_select p rs) = rw e at a in ((λ h. cc), All-of_where_select p rs b)
    ]

    pub All-of : ((r : R) → P r) → (rs : List R) → All P rs
    All-of h [] = tt
    All-of h (r ∷ rs) = (h r, All-of h rs)

  pub All-map {κ μ} :
      (P : R → Type κ) (Q : R → Type μ)
      → ((r : R) → P r → Q r)
      → (rs : List R) → All P rs
      → All Q rs
  All-map P Q f [] a = tt
  All-map P Q f (r ∷ rs) a = (f r a.0, All-map P Q f rs a.1)

  module _ (le : R → R → Bool) (o : IsOrder le) where
    insert_by-IsSorted : (r : R) (rs : List R) → IsSorted le rs → IsSorted le (insert_by le r rs)
    unfolding insert_by
    insert_by-IsSorted r [] s = (tt, tt)
    insert_by-IsSorted r (q ∷ qs) s = elim (Bool-cases (le r q)) [
      | inl e ↦ rw e ((e, All-map _ _ (λ x h. o.trans r q x e h) qs s.0), s)
      | inr e ↦
          rw e (
            All-insert_by (λ x. le q x ≡ true) le r qs (below q e) s.0,
            insert_by-IsSorted r qs s.1,
          )
    ]
      where
        below : (x : R) → le r x ≡ false → le x r ≡ true
        below x e = elim (o.total r x) [ inl h ↦ cc | inr h ↦ h ]

    pub order_by-IsSorted : (rs : List R) → IsSorted le (order_by le rs)
    unfolding order_by
    order_by-IsSorted [] = tt
    order_by-IsSorted (r ∷ rs) = insert_by-IsSorted r (order_by le rs) (order_by-IsSorted rs)

    -- What all rows of the ordered list satisfy, the rows of the table satisfy.
    All-of_insert_by {κ} :
        (P : R → Type κ) (r : R) (rs : List R) → All P (insert_by le r rs) → P r × All P rs
    unfolding insert_by
    All-of_insert_by P r [] a = a
    All-of_insert_by P r (q ∷ qs) a = elim (Bool-cases (le r q)) [
      | inl e ↦ let b : All P (r ∷ q ∷ qs) = rw e at a in b
      | inr e ↦
          let b : All P (q ∷ insert_by le r qs) = rw e at a in
          let rest = All-of_insert_by P r qs b.1 in (rest.0, (b.0, rest.1))
    ]

    pub All-of_order_by {κ} : (P : R → Type κ) (rs : List R) → All P (order_by le rs) → All P rs
    unfolding order_by
    All-of_order_by P [] a = tt
    All-of_order_by P (r ∷ rs) a =
        let b = All-of_insert_by P r (order_by le rs) a in (b.0, All-of_order_by P rs b.1)

    IsSorted-first :
        (rs : List R) (r : R) → IsSorted le rs → first rs ≡ some r → All (λ q. le r q ≡ true) rs
    IsSorted-first [] r s h = tt
    IsSorted-first (q ∷ qs) r s h =
        subst (λ x. All (λ y. le x y ≡ true) (q ∷ qs)) (cc) (refl_le q, s.0)
      where
        refl_le : (x : R) → le x x ≡ true
        refl_le x = elim (o.total x x) [ inl y ↦ y | inr y ↦ y ]

    -- The first row of an ordered selection stands before every row of the table that passes.
    pub first-order_by-le :
        (rs : List R) (r : R) → first (order_by le rs) ≡ some r → All (λ q. le r q ≡ true) rs
    first-order_by-le rs r h =
        All-of_order_by _ rs (IsSorted-first (order_by le rs) r (order_by-IsSorted rs) h)

module _ {ℓ} {R : Type ℓ} where
  pub All-of_first-none {κ} : (P : R → Type κ) (rs : List R) → first rs ≡ none → All P rs
  All-of_first-none P [] h = tt
  All-of_first-none P (q ∷ qs) h = cc

  pub All_first {κ} : (P : R → Type κ) (rs : List R) (r : R) → first rs ≡ some r → All P rs → P r
  All_first P [] r h a = cc
  All_first P (q ∷ qs) r h a = let e : q ≡ r = cc in rw e at (a.0)

  pub All-where_update {κ} :
      (P : R → Type κ) (p : R → Bool) (f : R → R)
      → ((r : R) → p r ≡ true → P r → P (f r))
      → (rs : List R) → All P rs
      → All P (where_update p f rs)
  unfolding where_update
  All-where_update P p f keep [] a = tt
  All-where_update P p f keep (r ∷ rs) a = elim (Bool-cases (p r)) [
    | inl e ↦ rw e (keep r e a.0, All-where_update P p f keep rs a.1)
    | inr e ↦ rw e (a.0, All-where_update P p f keep rs a.1)
  ]

  -- After the update the rows that it touched have `P`, and those that it did not touch fail the
  -- test.
  pub All-where_update_new {κ} :
      (P : R → Type κ) (p : R → Bool) (f : R → R)
      → ((r : R) → p r ≡ true → P (f r))
      → ((r : R) → p r ≡ false → P r)
      → (rs : List R) → All P (where_update p f rs)
  unfolding where_update
  All-where_update_new P p f hit miss [] = tt
  All-where_update_new P p f hit miss (r ∷ rs) = elim (Bool-cases (p r)) [
    | inl e ↦ rw e (hit r e, All-where_update_new P p f hit miss rs)
    | inr e ↦ rw e (miss r e, All-where_update_new P p f hit miss rs)
  ]

  pub All-where_delete {κ} :
      (P : R → Type κ) (p : R → Bool) (rs : List R) → All P rs → All P (where_delete p rs)
  unfolding where_delete
  All-where_delete P p [] a = tt
  All-where_delete P p (r ∷ rs) a = elim (Bool-cases (p r)) [
    | inl e ↦ rw e (All-where_delete P p rs a.1)
    | inr e ↦ rw e (a.0, All-where_delete P p rs a.1)
  ]

  pub All-snoc {κ} : (P : R → Type κ) (rs : List R) (r : R) → All P rs → P r → All P (rs ++ r ∷ [])
  All-snoc P [] r a h = (h, tt)
  All-snoc P (q ∷ rs) r a h = (a.0, All-snoc P rs r a.1 h)

  pub All-both {κ μ} :
      (P : R → Type κ) (Q : R → Type μ) (rs : List R)
      → All P rs
      → All Q rs
      → All (λ r. P r × Q r) rs
  All-both P Q [] a b = tt
  All-both P Q (r ∷ rs) a b = ((a.0, b.0), All-both P Q rs a.1 b.1)

module _ {ℓ} {R : Type ℓ} ⦃t : Keyed R⦄ where
  -- Under a primary key each row is found by its key.
  pub All-lookup : (rs : List R) → Unique rs → All (λ r. lookup (t.key r) rs ≡ some r) rs
  unfolding lookup
  All-lookup [] u = tt
  All-lookup (r ∷ rs) u = (rw (eq_refl (t.key r)), All-map _ _ later rs (All-lookup rs u.1))
    where
      later : (q : R) → lookup (t.key q) rs ≡ some q → lookup (t.key q) (r ∷ rs) ≡ some q
      later q h = ground (arith, eq_iff (t.key r) (t.key q), u.0)

  pub All_at_lookup {κ} :
      (P : R → Type κ) (k : String) (rs : List R) (r : R) → lookup k rs ≡ some r → All P rs → P r
  unfolding lookup
  All_at_lookup P k [] r h a = cc
  All_at_lookup P k (q ∷ rs) r h a = elim (Bool-cases (t.key q == k)) [
    | inl e ↦ let same : q ≡ r = ground (arith, e) in rw same at (a.0)
    | inr e ↦ All_at_lookup P k rs r (ground (arith, e)) a.1
  ]

module _ {ℓ} {R : Type ℓ} (le : R → R → Bool) where
  insert_by-perm : (r : R) (rs : List R) → Perm (insert_by le r rs) (r ∷ rs)
  unfolding insert_by
  insert_by-perm r [] = Perm.refl (r ∷ [])
  insert_by-perm r (q ∷ qs) = elim (Bool-cases (le r q)) [
    | inl e ↦ rw e (Perm.refl (r ∷ q ∷ qs))
    | inr e ↦ rw e (Perm.trans (Perm.cons q (insert_by-perm r qs)) (Perm.swap r q qs))
  ]

  -- Ordering keeps every row, as often.
  pub order_by-perm : (rs : List R) → Perm (order_by le rs) rs
  unfolding order_by
  order_by-perm [] = Perm.refl []
  order_by-perm (r ∷ rs) =
      Perm.trans (insert_by-perm r (order_by le rs)) (Perm.cons r (order_by-perm rs))

module _ {ℓ} {R : Type ℓ} where
  -- A selection without a first row: no row passes the test.
  pub none_selected :
      (p : R → Bool) (rs : List R) → first (where_select p rs) ≡ none → All (λ r. p r ≡ false) rs
  none_selected p rs h =
      All-map _ _ (λ r never. elim (Bool-cases (p r)) [ inl e ↦ absurd (never e) | inr e ↦ e ]) rs
        (All-of_where_select (λ _. ⊥) p rs (All-of_first-none (λ _. ⊥) _ h))

  -- A statement whose test no row passes does nothing.
  pub where_update-misses :
      (p : R → Bool) (f : R → R) (rs : List R)
      → All (λ r. p r ≡ false) rs
      → where_update p f rs ≡ rs
  unfolding where_update
  where_update-misses p f [] a = refl
  where_update-misses p f (r ∷ rs) a = rw (a.0, where_update-misses p f rs a.1)

  pub where_delete-misses :
      (p : R → Bool) (rs : List R) → All (λ r. p r ≡ false) rs → where_delete p rs ≡ rs
  unfolding where_delete
  where_delete-misses p [] a = refl
  where_delete-misses p (r ∷ rs) a = rw (a.0, where_delete-misses p rs a.1)

  pub rowcount-misses : (p : R → Bool) (rs : List R) → All (λ r. p r ≡ false) rs → rowcount p rs ≡ 0
  unfolding rowcount
  rowcount-misses p [] a = refl
  rowcount-misses p (r ∷ rs) a = rw a.0 (rowcount-misses p rs a.1)

-- An `unfolding` line that names this opens every statement on tables.
unfoldable pub sql : Unit {0}
unfolding lookup where_update where_delete rowcount where_select order_by
sql = tt
