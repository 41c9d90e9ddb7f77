-- ===== src/Prelude/Table.antt =====
-- SQLite tables as lists of rows in rowid order. A row type with a text primary key is an
-- instance of `Keyed`; `update … where` maps, `delete … where` keeps the other rows, and an
-- insert of an absent key appends.
use Prim.Native.Nat.{ℕ, suc}
use Prim.Native.String.{String}
use mathlib.Core.Path.{◌≡◌, refl, sym, ap, ◌∙◌}
use mathlib.Core.Bool.{Bool, true}
use mathlib.Core.Logic.{inl, inr}
use mathlib.Core.Option
use mathlib.Core.Option.{Option, none, some}
use mathlib.Core.List.{List, [], ◌∷◌, ◌++◌, map}
use native.Mathlib.Omega.{arith}
use text.Mathlib.Text.{◌==◌}
use text.Mathlib.TextEquality.{eq_iff}
use codex_feishu_remoter.Prelude.Tests.{if◌then◌else◌, coalesce, is_some, Bool-cases, Option-cases}

pub record Keyed {ℓ} (R : Type ℓ) : Type ℓ where
  pub key : R → String

module _ {ℓ} {R : Type ℓ} where
  -- `update … set f where p`
  unfoldable pub where_update : (R → Bool) → (R → R) → List R → List R
  where_update p f [] = []
  where_update p f (r ∷ rs) = (if p r then f r else r) ∷ where_update p f rs

  -- `delete … where p`
  unfoldable pub where_delete : (R → Bool) → List R → List R
  where_delete p [] = []
  where_delete p (r ∷ rs) = let rest = where_delete p rs in if p r then rest else r ∷ rest

  -- how many rows a statement with `where p` touches: `cursor.rowcount`
  unfoldable pub rowcount : (R → Bool) → List R → ℕ
  rowcount p [] = 0
  rowcount p (r ∷ rs) = let rest = rowcount p rs in if p r then suc rest else rest

module _ {ℓ} {R : Type ℓ} ⦃t : Keyed R⦄ where
  -- `select … where key=?`
  unfoldable pub lookup : String → List R → Option R
  lookup k [] = none
  lookup k (r ∷ rs) = if t.key r == k then some r else lookup k rs

  abbrev pub has : String → List R → Bool
  has k rs = is_some (lookup k rs)

  -- no two rows share their key
  abbrev pub Unique : List R → Type ℓ
  Unique [] = Unit
  Unique (r ∷ rs) = (lookup (t.key r) rs ≡ none) × Unique rs

  module _ (g : R → R) (keeps : (r : R) → t.key (g r) ≡ t.key r) where
    pub lookup-map : (k : String) (rs : List R) → lookup k (map g rs) ≡ Option.map g (lookup k rs)
    unfolding lookup
    lookup-map k [] = refl
    lookup-map k (r ∷ rs) =
        rw (keeps r)
          (elim (Bool-cases (t.key r == k)) [ inl e ↦ rw e | inr e ↦ rw e (lookup-map k rs) ])

    pub Unique-map : (rs : List R) → Unique rs → Unique (map g rs)
    Unique-map [] u = tt
    Unique-map (r ∷ rs) u = (rw (keeps r) (rw lookup-map (rw u.0)), Unique-map rs u.1)

  module _ (p : R → Bool) (f : R → R) (keeps : (r : R) → t.key (f r) ≡ t.key r) where
    pub lookup-where_update :
        (k : String) (rs : List R)
        → lookup k (where_update p f rs) ≡ Option.map (λ r. if p r then f r else r) (lookup k rs)
    unfolding lookup where_update
    lookup-where_update k [] = refl
    lookup-where_update k (r ∷ rs) = ground (arith, keeps r, lookup-where_update k rs)

    pub Unique-where_update : (rs : List R) → Unique rs → Unique (where_update p f rs)
    unfolding where_update
    Unique-where_update [] u = tt
    Unique-where_update (r ∷ rs) u =
        (ground (arith, keeps r, lookup-where_update (t.key r) rs), Unique-where_update rs u.1)

  pub lookup-snoc :
      (k : String) (rs : List R) (r : R)
      → lookup k (rs ++ r ∷ []) ≡ coalesce (lookup k rs) (if t.key r == k then some r else none)
  unfolding lookup
  lookup-snoc k [] r = ground arith
  lookup-snoc k (q ∷ rs) r = ground (arith, lookup-snoc k rs r)

  pub lookup-key : (k : String) (rs : List R) (r : R) → lookup k rs ≡ some r → t.key r ≡ k
  unfolding lookup
  lookup-key k [] r h = cc
  lookup-key k (q ∷ rs) r h = ground (arith, eq_iff (t.key q) k, lookup-key k rs r)

  -- Two lookups find one row where the key of the second's row is that of the first.
  pub lookup_same :
      (k j : String) (rs : List R) (r q : R)
      → lookup k rs ≡ some r
      → lookup j rs ≡ some q
      → t.key q ≡ k
      → q ≡ r
  lookup_same k j rs r q hr hq e =
      let one : lookup j rs ≡ lookup k rs =
        ap (λ x. lookup x rs) (sym (lookup-key j rs q hq) ∙ e) in
      cc (hr, hq, one)

  pub Unique-snoc :
      (rs : List R) (r : R) → Unique rs → lookup (t.key r) rs ≡ none → Unique (rs ++ r ∷ [])
  unfolding lookup
  Unique-snoc [] r u h = (refl, tt)
  Unique-snoc (q ∷ rs) r u h = (
    ground
        (arith, lookup-snoc (t.key q) rs r, eq_iff (t.key q) (t.key r), eq_iff (t.key r) (t.key q)),
    Unique-snoc rs r u.1 (ground arith),
  )

  module _ (p : R → Bool) where
    pub lookup-none-where_delete :
        (k : String) (rs : List R) → lookup k rs ≡ none → lookup k (where_delete p rs) ≡ none
    unfolding lookup where_delete
    lookup-none-where_delete k [] h = refl
    lookup-none-where_delete k (r ∷ rs) h = ground (arith, lookup-none-where_delete k rs)

    pub Unique-where_delete : (rs : List R) → Unique rs → Unique (where_delete p rs)
    unfolding where_delete
    Unique-where_delete [] u = tt
    Unique-where_delete (r ∷ rs) u =
        ground (arith, lookup-none-where_delete (t.key r) rs u.0, Unique-where_delete rs u.1)

    pub lookup-where_delete :
        (k : String) (rs : List R)
        → Unique rs
        → lookup k (where_delete p rs)
          ≡ elim (lookup k rs) [ none ↦ none | some r ↦ if p r then none else some r ]
    unfolding lookup where_delete
    lookup-where_delete k [] u = refl
    lookup-where_delete k (r ∷ rs) u =
        ground
          (arith, eq_iff (t.key r) k, lookup-where_delete k rs u.1, lookup-none-where_delete k rs)

  -- 1 if a row is gone
  abbrev pub gone : Option R → Option R → ℕ
  gone none after = 0
  gone (some r) none = 1
  gone (some r) (some q) = 0

  -- If there is a row, then it is the row that was there before.
  abbrev pub Stays : Option R → Option R → Type ℓ
  Stays before none = Unit
  Stays before (some r) = before ≡ some r

  pub same_row : (o : Option R) → Stays o o
  same_row none = tt
  same_row (some r) = refl

  pub where_delete-Stays :
      (p : R → Bool) (k : String) (before : Option R) (rows : List R)
      → Unique rows
      → Stays before (lookup k rows)
      → Stays before (lookup k (where_delete p rows))
  where_delete-Stays p k before rows u h = elim (Option-cases (lookup k rows)) [
    | inl absent ↦ rw (lookup-none-where_delete p k rows absent) tt
    | inr (r, found) ↦
        rw (lookup-where_delete p k rows u, found)
          (elim (Bool-cases (p r)) [ inl e ↦ rw e tt | inr e ↦ rw e (rw found at h) ])
  ]

  -- A statement that names the primary key touches one row at most.
  pub rowcount_at_key :
      (p : R → Bool) (k : String) (rs : List R)
      → Unique rs
      → ((r : R) → p r ≡ true → t.key r ≡ k)
      → rowcount p rs ≡ elim (lookup k rs) [ none ↦ 0 | some r ↦ if p r then 1 else 0 ]
  unfolding lookup rowcount
  rowcount_at_key p k [] u at = refl
  rowcount_at_key p k (r ∷ rs) u at =
      ground (arith, eq_iff (t.key r) k, rowcount_at_key p k rs u.1 at, at r)

  -- Deleting a key leaves no row with it.
  pub lookup-where_delete_self :
      (k : String) (rs : List R) → lookup k (where_delete (λ r. t.key r == k) rs) ≡ none
  unfolding lookup where_delete
  lookup-where_delete_self k [] = refl
  lookup-where_delete_self k (r ∷ rs) = ground (arith, lookup-where_delete_self k rs)

  pub has-either {κ μ} :
      {A : Type κ} (P : A → Type μ) (k : String) (rs : List R) (x y : A)
      → P x
      → (lookup k rs ≡ none → P y)
      → P (if has k rs then x else y)
  has-either P k rs x y px py = elim (Option-cases (lookup k rs)) [
    | inl absent ↦ rw absent (py absent)
    | inr present ↦ rw present.1 px
  ]

  -- `insert … on conflict(key) do update`: `f` is what the update makes of the row that is there.
  unfoldable pub upsert : (R → R) → R → List R → List R
  upsert f new rs =
      if has (t.key new) rs then where_update (λ r. t.key r == t.key new) f rs else rs ++ new ∷ []

  -- the row of `k` after an upsert of `new`
  abbrev pub upserted : (R → R) → R → Option R → Option R
  upserted f new none = some new
  upserted f new (some r) = some (f r)

  module _ (f : R → R) (keeps : (r : R) → t.key (f r) ≡ t.key r) (new : R) where
    pub lookup-upsert :
        (k : String) (rs : List R)
        → lookup k (upsert f new rs)
          ≡ (if t.key new == k then upserted f new (lookup k rs) else lookup k rs)
    unfolding upsert
    lookup-upsert k rs = elim (Option-cases (lookup k rs)) [
      | inl absent ↦ elim (Option-cases (lookup (t.key new) rs)) [
        | inl none_yet ↦ ground (arith, absent, none_yet, lookup-snoc k rs new)
        | inr (r, found) ↦ ground (
          arith,
          absent,
          found,
          eq_iff (t.key new) k,
          lookup-where_update (λ q. t.key q == t.key new) f keeps k rs,
        )
      ]
      | inr (q, there) ↦ elim (Option-cases (lookup (t.key new) rs)) [
        | inl none_yet ↦ ground (arith, there, none_yet, lookup-snoc k rs new, eq_iff (t.key new) k)
        | inr (r, found) ↦ ground (
          arith,
          there,
          found,
          eq_iff (t.key new) k,
          eq_iff (t.key q) (t.key new),
          lookup-key k rs q there,
          lookup-where_update (λ q. t.key q == t.key new) f keeps k rs,
        )
      ]
    ]

    pub Unique-upsert : (rs : List R) → Unique rs → Unique (upsert f new rs)
    unfolding upsert
    Unique-upsert rs u =
        has-either Unique (t.key new) rs _ _ (Unique-where_update _ f keeps rs u)
          (λ absent. Unique-snoc rs new u absent)
