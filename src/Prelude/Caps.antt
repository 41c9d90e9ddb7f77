-- ===== src/Prelude/Caps.antt =====
-- Retention by a cap: `delete … where key in (select key … where p order by … limit -1 offset n)`.
use Prim.Native.Nat.{ℕ, zero, suc, ◌+◌, ◌≤◌}
use Prim.Native.String.{String}
use mathlib.Core.Path.{◌≡◌, refl, sym, ap, ◌∙◌}
use mathlib.Core.Logic.{inl, inr}
use mathlib.Core.Bool.{Bool, true, false, not, ◌||◌}
use mathlib.Core.Option.{Option, none, some}
use mathlib.Core.List.{List, [], ◌∷◌}
use native.Mathlib.Omega.{arith}
use text.Mathlib.Text.{◌==◌}
use text.Mathlib.TextEquality.{eq_iff}
use text.Mathlib.TextPositions.{eq_refl}
use codex_feishu_remoter.Prelude.Tests.{Bool-cases}
use codex_feishu_remoter.Prelude.Table.{
  Keyed, lookup, where_delete, rowcount, Unique, lookup-where_delete,
}
use codex_feishu_remoter.Prelude.Select.{
  where_select, order_by, insert_by, All, All-map, All-order_by, All-where_select, All-lookup,
}

module _ {ℓ} {R : Type ℓ} where
  -- `limit -1 offset n`
  abbrev pub skip : ℕ → List R → List R
  skip zero rs = rs
  skip (suc n) [] = []
  skip (suc n) (r ∷ rs) = skip n rs

  -- `limit ?`, where `none` is no limit
  abbrev pub keep_first : Option ℕ → List R → List R
  keep_first none rs = rs
  keep_first (some n) rs = prefix n rs
    where
      prefix : ℕ → List R → List R
      prefix zero rs = []
      prefix (suc n) [] = []
      prefix (suc n) (r ∷ rs) = r ∷ prefix n rs

  All-skip {κ} : (P : R → Type κ) (n : ℕ) (rs : List R) → All P rs → All P (skip n rs)
  All-skip P zero rs a = a
  All-skip P (suc n) [] a = tt
  All-skip P (suc n) (r ∷ rs) a = All-skip P n rs a.1

  module _ (p : R → Bool) where
    rowcount-insert_by :
        (le : R → R → Bool) (r : R) (rs : List R)
        → rowcount p (insert_by le r rs) ≡ rowcount p (r ∷ rs)
    unfolding rowcount insert_by
    rowcount-insert_by le r [] = refl
    rowcount-insert_by le r (q ∷ qs) = ground (arith, rowcount-insert_by le r qs)

    rowcount-order_by :
        (le : R → R → Bool) (rs : List R) → rowcount p (order_by le rs) ≡ rowcount p rs
    unfolding rowcount order_by
    rowcount-order_by le [] = refl
    rowcount-order_by le (r ∷ rs) =
        ground (arith, rowcount-insert_by le r (order_by le rs), rowcount-order_by le rs)

    -- At most `n` rows are counted if those after the first `n` are not.
    rowcount-skip : (n : ℕ) (rs : List R) → rowcount p (skip n rs) ≡ 0 → rowcount p rs ≤ n
    unfolding rowcount
    rowcount-skip zero rs h = omega arith
    rowcount-skip (suc n) [] h = omega arith
    rowcount-skip (suc n) (r ∷ rs) h = ground (arith, rowcount-skip n rs h)

    pub rowcount-where_delete-le :
        (q : R → Bool) (rs : List R) → rowcount p (where_delete q rs) ≤ rowcount p rs
    unfolding rowcount where_delete
    rowcount-where_delete-le q [] = omega arith
    rowcount-where_delete-le q (r ∷ rs) = ground (arith, rowcount-where_delete-le q rs)

    rowcount-none : (rs : List R) → All (λ r. p r ≡ false) rs → rowcount p rs ≡ 0
    unfolding rowcount
    rowcount-none [] a = refl
    rowcount-none (r ∷ rs) a = rw a.0 (rowcount-none rs a.1)

  rowcount_left :
      (p q : R → Bool) (rs : List R)
      → rowcount p (where_delete q rs) ≡ rowcount (λ r. not (q r)) (where_select p rs)
  unfolding rowcount where_delete where_select
  rowcount_left p q [] = refl
  rowcount_left p q (r ∷ rs) = ground (arith, rowcount_left p q rs)

  rowcount_le_all : (p : R → Bool) (rs : List R) → rowcount p rs ≤ rowcount (λ _. true) rs
  unfolding rowcount
  rowcount_le_all p [] = omega arith
  rowcount_le_all p (r ∷ rs) = ground (arith, rowcount_le_all p rs)

  where_select_all : (rs : List R) → where_select (λ _. true) rs ≡ rs
  unfolding where_select
  where_select_all [] = refl
  where_select_all (r ∷ rs) = rw (where_select_all rs)

  -- A deletion leaves no row that passes its test.
  pub where_delete-fails : (p : R → Bool) (rs : List R) → All (λ r. p r ≡ false) (where_delete p rs)
  unfolding where_delete
  where_delete-fails p [] = tt
  where_delete-fails p (r ∷ rs) = elim (Bool-cases (p r)) [
    | inl e ↦ rw e (where_delete-fails p rs)
    | inr e ↦ rw e (e, where_delete-fails p rs)
  ]

module _ {ℓ} {R : Type ℓ} ⦃t : Keyed R⦄ where
  -- `key in (…)`
  abbrev pub key_in : String → List R → Bool
  key_in k [] = false
  key_in k (r ∷ rs) = (t.key r == k) || key_in k rs

  -- the rows past the first `n` of those that pass the test
  abbrev pub past : (R → Bool) → (R → R → Bool) → ℕ → List R → List R
  past p le n rs = skip n (order_by le (where_select p rs))

  -- A negative limit, which deletes nothing, is `none`.
  abbrev pub over_limit : (R → Bool) → (R → R → Bool) → Option ℕ → List R → R → Bool
  over_limit p le none rs r = false
  over_limit p le (some n) rs r = key_in (t.key r) (past p le n rs)

  key_in-All : (rs : List R) → All (λ r. key_in (t.key r) rs ≡ true) rs
  key_in-All [] = tt
  key_in-All (r ∷ rs) =
      (ground (arith, eq_refl (t.key r)), All-map _ _ (λ q h. ground arith) rs (key_in-All rs))

  -- After the deletion at most `n` rows pass the test.
  pub over_limit-bounds :
      (p : R → Bool) (le : R → R → Bool) (n : ℕ) (rs : List R)
      → rowcount p (where_delete (over_limit p le (some n) rs) rs) ≤ n
  over_limit-bounds p le n rs =
      let kept : R → Bool = λ r. not (key_in (t.key r) (past p le n rs)) in
      let same = rowcount_left p (over_limit p le (some n) rs) rs in
      let ordered = rowcount-order_by kept le (where_select p rs) in
      let out =
        rowcount-none kept (past p le n rs)
          (All-map _ _ (λ r h. rw h) (past p le n rs) (key_in-All (past p le n rs))) in
      let bounded = rowcount-skip kept n (order_by le (where_select p rs)) out in omega arith

  key_in-passes :
      (p : R → Bool) (rs xs : List R) (r : R)
      → lookup (t.key r) rs ≡ some r
      → All (λ q. (lookup (t.key q) rs ≡ some q) × (p q ≡ true)) xs
      → key_in (t.key r) xs ≡ true
      → p r ≡ true
  key_in-passes p rs [] r found a h = cc
  key_in-passes p rs (q ∷ xs) r found a h = elim (Bool-cases (t.key q == t.key r)) [
    | inl e ↦
        let same : lookup (t.key q) rs ≡ lookup (t.key r) rs =
          ap (λ k. lookup k rs) ((eq_iff (t.key q) (t.key r)).0 e) in
        let here : q ≡ r = cc (found, a.0.0, same) in ap p (sym here) ∙ a.0.1
    | inr e ↦ key_in-passes p rs xs r found a.1 (ground (arith, e))
  ]

  -- Only rows that pass the test are over the limit.
  pub over_limit-passes :
      (p : R → Bool) (le : R → R → Bool) (limit : Option ℕ) (rs : List R) (r : R)
      → Unique rs
      → lookup (t.key r) rs ≡ some r
      → p r ≡ false
      → over_limit p le limit rs r ≡ false
  over_limit-passes p le none rs r u found h = refl
  over_limit-passes p le (some n) rs r u found h =
      elim (Bool-cases (key_in (t.key r) (past p le n rs))) [
        | inl e ↦ let passes = key_in-passes p rs (past p le n rs) r found known e in cc (passes, h)
        | inr e ↦ e
      ]
    where
      known : All (λ q. (lookup (t.key q) rs ≡ some q) × (p q ≡ true)) (past p le n rs)
      known = All-skip _ n _ (
          All-order_by _ le _ (
            All-where_select _ p rs
              (All-map _ _ (λ q here passes. (here, passes)) rs (All-lookup rs u))))

  -- A row that fails the test of a deletion stays.
  pub where_delete_keeps :
      (p : R → Bool) (k : String) (rs : List R) (r : R)
      → Unique rs
      → p r ≡ false
      → lookup k rs ≡ some r
      → lookup k (where_delete p rs) ≡ some r
  where_delete_keeps p k rs r u h found = lookup-where_delete p k rs u ∙ rw (found, h)

  prefix_gone :
      (p : R → Bool) (n : ℕ) (rs : List R)
      → All (λ r. p r ≡ false) (keep_first (some n) rs)
      → n ≤ rowcount (λ _. true) rs
      → rowcount p rs + n ≤ rowcount (λ _. true) rs
  unfolding rowcount
  prefix_gone p zero rs a h = omega (arith, rowcount_le_all p rs)
  prefix_gone p (suc n) [] a h = omega arith
  prefix_gone p (suc n) (r ∷ rs) a h = ground (arith, a.0, prefix_gone p n rs a.1)

  -- A deletion of the first `n` rows in an order leaves at most the others.
  pub oldest_gone :
      (le : R → R → Bool) (n : ℕ) (rs : List R)
      → n ≤ rowcount (λ _. true) rs
      → rowcount
            (λ _. true)
            (where_delete (λ r. key_in (t.key r) (keep_first (some n) (order_by le rs))) rs)
          + n
        ≤ rowcount (λ _. true) rs
  oldest_gone le n rs h =
      let first_ones = keep_first (some n) (order_by le rs) in
      let kept : R → Bool = λ r. not (key_in (t.key r) first_ones) in
      let left = rowcount_left (λ _. true) (λ r. key_in (t.key r) first_ones) rs in
      let same = where_select_all rs in
      let ordered = rowcount-order_by kept le rs in
      let ordered_all = rowcount-order_by (λ _. true) le rs in
      let out : All (λ r. kept r ≡ false) first_ones =
        All-map _ _ (λ r e. rw e) first_ones (key_in-All first_ones) in
      let bounded = prefix_gone kept n (order_by le rs) out (omega arith) in
      rw (left, same) (omega arith)
