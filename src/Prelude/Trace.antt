-- ===== src/Prelude/Trace.antt =====
-- Runs of calls on a state, counts over a run, and the two ways to reason about them: an invariant,
-- and a potential that pays for each count.
use Prim.Native.Nat.{ℕ, ◌+◌, ◌≤◌}
use mathlib.Core.Path.{◌≡◌}
use mathlib.Core.List.{List, [], ◌∷◌}
use native.Mathlib.Omega.{arith}
use codex_feishu_remoter.Prelude.Select.{All}

module _ {Op S : Type 0} (apply : Op → S → S) where
  unfoldable pub run : List Op → S → S
  run [] s = s
  run (op ∷ ops) s = run ops (apply op s)

  -- a count over the calls of a run
  unfoldable pub total : (Op → S → ℕ) → List Op → S → ℕ
  total count [] s = 0
  total count (op ∷ ops) s = count op s + total count ops (apply op s)

  pub run_keeps :
      (Inv : S → Type 0)
      → ((op : Op) (s : S) → Inv s → Inv (apply op s))
      → (ops : List Op) (s : S) → Inv s
      → Inv (run ops s)
  unfolding run
  run_keeps Inv keep [] s h = h
  run_keeps Inv keep (op ∷ ops) s h = run_keeps Inv keep ops (apply op s) (keep op s h)

  -- Calls that satisfy `Fits` keep what each such call keeps.
  pub run_keeps_fitting :
      (Fits : Op → Type 0) (Inv : S → Type 0)
      → ((op : Op) (s : S) → Fits op → Inv s → Inv (apply op s))
      → (ops : List Op) (s : S) → All Fits ops
      → Inv s
      → Inv (run ops s)
  unfolding run
  run_keeps_fitting Fits Inv keep [] s fits h = h
  run_keeps_fitting Fits Inv keep (op ∷ ops) s fits h =
      run_keeps_fitting Fits Inv keep ops (apply op s) fits.1 (keep op s fits.0 h)

  -- Calls that cost nothing keep what each such call keeps.
  pub run_keeps_free :
      (cost : Op → S → ℕ) (Inv : S → Type 0)
      → ((op : Op) (s : S) → cost op s ≡ 0 → Inv s → Inv (apply op s))
      → (ops : List Op) (s : S) → total cost ops s ≡ 0
      → Inv s
      → Inv (run ops s)
  unfolding run total
  run_keeps_free cost Inv keep [] s free h = h
  run_keeps_free cost Inv keep (op ∷ ops) s free h =
      run_keeps_free cost Inv keep ops (apply op s) (omega (arith, free))
        (keep op s (omega (arith, free)) h)

  -- What a run gains is paid by the potential that it starts with and by what it adds.
  pub total_bounded :
      (Fits : Op → Type 0) (Inv : S → Type 0) (potential : S → ℕ) (gain add : Op → S → ℕ)
      → ((op : Op) (s : S) → Fits op → Inv s → Inv (apply op s))
      → ((op : Op) (s : S)
          → Fits op
          → Inv s
          → gain op s + potential (apply op s) ≤ potential s + add op s)
      → (ops : List Op) (s : S) → All Fits ops
      → Inv s
      → total gain ops s + potential (run ops s) ≤ potential s + total add ops s
  unfolding run total
  total_bounded Fits Inv potential gain add keep step [] s fits h = omega arith
  total_bounded Fits Inv potential gain add keep step (op ∷ ops) s fits h = omega (
    arith,
    step op s fits.0 h,
    total_bounded Fits Inv potential gain add keep step ops (apply op s) fits.1
        (keep op s fits.0 h),
  )

  -- Where nothing is added, the potential at the start pays for all.
  pub total_paid :
      (Fits : Op → Type 0) (Inv : S → Type 0) (potential : S → ℕ) (gain : Op → S → ℕ)
      → ((op : Op) (s : S) → Fits op → Inv s → Inv (apply op s))
      → ((op : Op) (s : S) → Fits op → Inv s → gain op s + potential (apply op s) ≤ potential s)
      → (ops : List Op) (s : S) → All Fits ops
      → Inv s
      → total gain ops s + potential (run ops s) ≤ potential s
  unfolding run total
  total_paid Fits Inv potential gain keep step [] s fits h = omega arith
  total_paid Fits Inv potential gain keep step (op ∷ ops) s fits h = omega (
    arith,
    step op s fits.0 h,
    total_paid Fits Inv potential gain keep step ops (apply op s) fits.1 (keep op s fits.0 h),
  )
