-- ===== src/Codex/Rollout/Lines.antt =====
-- A line of a rollout file is a part of its bytes.
use codex_feishu_remoter.Prelude.{
  ℕ, zero, suc, ◌≡◌, refl, ap, Bool, true, false, ◌&&◌, List, [], ◌∷◌, ◌++◌, if◌then◌else◌, eqb,
  All, All-map,
}
use codex_feishu_remoter.Prelude.Caps.{skip}
use codex_feishu_remoter.Codex.Rollout.{reversed_onto, split_lines, after_newline}

-- the bytes hold the line
abbrev pub IsPart : List ℕ → List ℕ → Type 0
IsPart line bytes = (before : List ℕ) × ((after : List ℕ) × (before ++ (line ++ after) ≡ bytes))

pub append_nil : (xs : List ℕ) → xs ++ [] ≡ xs
append_nil [] = refl
append_nil (x ∷ xs) = ap (λ ys. x ∷ ys) (append_nil xs)

pub reversed_append : (xs ys zs : List ℕ) → reversed_onto xs ys ++ zs ≡ reversed_onto xs (ys ++ zs)
reversed_append [] ys zs = refl
reversed_append (x ∷ xs) ys zs = reversed_append xs (x ∷ ys) zs

-- A part of a list is a part of a list that ends with it.
later : (b : ℕ) (line bytes : List ℕ) → IsPart line bytes → IsPart line (b ∷ bytes)
later b line bytes (before, (after, e)) = (b ∷ before, (after, ap (λ bs. b ∷ bs) e))

reversed-IsPart :
    (xs line bytes : List ℕ) → IsPart line bytes → IsPart line (reversed_onto xs bytes)
reversed-IsPart [] line bytes h = h
reversed-IsPart (x ∷ xs) line bytes h = reversed-IsPart xs line (x ∷ bytes) (later x line bytes h)

skip-IsPart : (n : ℕ) (line bytes : List ℕ) → IsPart line (skip n bytes) → IsPart line bytes
skip-IsPart zero line bytes h = h
skip-IsPart (suc n) line [] h = h
skip-IsPart (suc n) line (b ∷ bytes) h = later b line bytes (skip-IsPart n line bytes h)

after_newline-IsPart : (line bytes : List ℕ) → IsPart line (after_newline bytes) → IsPart line bytes
after_newline-IsPart line [] h = h
after_newline-IsPart line (b ∷ bytes) h =
    later b line bytes (at (eqb b 10) h (after_newline-IsPart line bytes))
  where
    at :
        (c : Bool)
        → IsPart line (if c then bytes else after_newline bytes)
        → (IsPart line (after_newline bytes) → IsPart line bytes)
        → IsPart line bytes
    at true k deeper = k
    at false k deeper = deeper k

lines-reversed_onto :
    (xs bytes : List ℕ) (lines : List (List ℕ))
    → All (λ line. IsPart line bytes) lines
    → All (λ line. IsPart line (reversed_onto xs bytes)) lines
lines-reversed_onto xs bytes lines h =
    All-map _ _ (λ line part. reversed-IsPart xs line bytes part) lines h

first_line : (line bytes : List ℕ) → IsPart (reversed_onto line []) (reversed_onto line bytes)
first_line line bytes = ([], (bytes, reversed_append line [] bytes))

either :
    (whole : List ℕ) (c : Bool) (x y : List (List ℕ))
    → All (λ line. IsPart line whole) x
    → All (λ line. IsPart line whole) y
    → All (λ line. IsPart line whole) (if c then x else y)
either whole true x y p q = p
either whole false x y p q = q

split_lines-IsPart :
    (after_cr : Bool) (line bytes : List ℕ)
    → All (λ l. IsPart l (reversed_onto line bytes)) (split_lines after_cr line bytes)
unfolding split_lines
split_lines-IsPart after_cr [] [] = tt
split_lines-IsPart after_cr (b ∷ line) [] = (([], ([], append_nil _)), tt)
split_lines-IsPart after_cr line (b ∷ bytes) =
    let whole = reversed_onto line (b ∷ bytes) in
    let rest = λ (cr : Bool). lines-reversed_onto line (b ∷ bytes) (split_lines cr [] bytes) (
      lines-reversed_onto (b ∷ []) bytes (split_lines cr [] bytes)
        (split_lines-IsPart cr [] bytes)) in
    either whole (after_cr && eqb b 10) _ _ (rest false) (
      either whole (eqb b 10) _ _ (first_line line (b ∷ bytes), rest false)
        (either whole (eqb b 13) _ _ (first_line line (b ∷ bytes), rest true)
          (split_lines-IsPart false (b ∷ line) bytes)))

-- the lines that a round reads of the file
pub tail-IsPart :
    (start : ℕ) (file : List ℕ)
    → All
        (λ line. IsPart line file)
        (split_lines false []
          (if eqb start 0 then skip start file else after_newline (skip start file)))
tail-IsPart start file =
    All-map _ _ (λ line part. skip-IsPart start line file (at (eqb start 0) line part)) _
      (split_lines-IsPart false [] _)
  where
    at :
        (c : Bool) (line : List ℕ)
        → IsPart line (if c then skip start file else after_newline (skip start file))
        → IsPart line (skip start file)
    at true line part = part
    at false line part = after_newline-IsPart line (skip start file) part
