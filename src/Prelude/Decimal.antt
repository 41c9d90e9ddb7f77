-- ===== src/Prelude/Decimal.antt =====
-- `str` of a number that is not negative.
use Prim.Native.Nat.{ℕ, zero, suc, ◌+◌, ◌-◌, ◌*◌, ◌/◌, ◌%◌, ◌<◌}
use Prim.Native.Char.{code}
use Prim.Native.String.{String}
use mathlib.Core.Path.{◌≡◌, refl, sym, ap, ◌∙◌}
use mathlib.Core.Logic.{inl, inr}
use native.Mathlib.Omega.{arith}
use codex_feishu_remoter.Prelude.Tests.{if◌then◌else◌, ltb, Bool-cases}
use codex_feishu_remoter.Prelude.Text.{◌<>◌}

abbrev digit : ℕ → String
digit zero = "0"
digit (suc zero) = "1"
digit (suc (suc zero)) = "2"
digit (suc (suc (suc zero))) = "3"
digit (suc (suc (suc (suc zero)))) = "4"
digit (suc (suc (suc (suc (suc zero))))) = "5"
digit (suc (suc (suc (suc (suc (suc zero)))))) = "6"
digit (suc (suc (suc (suc (suc (suc (suc zero))))))) = "7"
digit (suc (suc (suc (suc (suc (suc (suc (suc zero)))))))) = "8"
digit (suc (suc (suc (suc (suc (suc (suc (suc (suc n))))))))) = "9"

digits : ℕ → ℕ → String → String
unfolding ◌<>◌
digits zero n text = text
digits (suc fuel) n text =
    let more = digits fuel (n / 10) (digit (n % 10) <> text) in
    if ltb n 10 then digit (n % 10) <> text else more

-- A number has at most as many digits as it counts, and one.
unfoldable pub decimal : ℕ → String
unfolding digits
decimal n = digits (n + 1) n ""

-- the number that digits read as, after those that read as `n`
value : ℕ → String → ℕ
value n String.[] = n
value n (String.◌∷◌ c text) = value (n * 10 + (code c - 48)) text

value-digit :
    (n d : ℕ) (text : String) → d < 10 → value n (digit d <> text) ≡ value (n * 10 + d) text
unfolding value ◌<>◌
value-digit n zero text h = refl
value-digit n (suc zero) text h = refl
value-digit n (suc (suc zero)) text h = refl
value-digit n (suc (suc (suc zero))) text h = refl
value-digit n (suc (suc (suc (suc zero)))) text h = refl
value-digit n (suc (suc (suc (suc (suc zero))))) text h = refl
value-digit n (suc (suc (suc (suc (suc (suc zero)))))) text h = refl
value-digit n (suc (suc (suc (suc (suc (suc (suc zero))))))) text h = refl
value-digit n (suc (suc (suc (suc (suc (suc (suc (suc zero)))))))) text h = refl
value-digit n (suc (suc (suc (suc (suc (suc (suc (suc (suc zero))))))))) text h = refl
value-digit n (suc (suc (suc (suc (suc (suc (suc (suc (suc (suc d)))))))))) text h =
    absurd (omega arith)

value-digits : (fuel n : ℕ) (text : String) → n < fuel → value 0 (digits fuel n text) ≡ value n text
unfolding digits
value-digits zero n text h = absurd (omega arith)
value-digits (suc fuel) n text h = elim (Bool-cases (ltb n 10)) [
  | inl small ↦
      rw small
        (value-digit 0 (n % 10) text (omega arith) ∙ ap (λ k. value k text) (ground (arith, small)))
  | inr large ↦ rw large (
      value-digits fuel (n / 10) (digit (n % 10) <> text) (ground (arith, large))
      ∙ value-digit (n / 10) (n % 10) text (omega arith)
      ∙ ap (λ k. value k text) (omega arith))
]

-- Numbers with the same digits are the same.
pub decimal_inj : (m n : ℕ) → decimal m ≡ decimal n → m ≡ n
unfolding decimal value
decimal_inj m n e =
    sym (value-digits (m + 1) m "" (omega arith))
    ∙ ap (value 0) e
    ∙ value-digits (n + 1) n "" (omega arith)

reads : decimal 1205 ≡ "1205"
unfolding decimal ◌<>◌
reads = refl
