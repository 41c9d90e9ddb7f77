-- ===== src/Codex/Watcher/Left.antt =====
-- The bytes that the loop over the lines of a poll leaves hold no line feed.
use codex_feishu_remoter.Prelude.{
  ℕ, ◌≡◌, refl, subst, ◌∙◌, inl, inr, Bool, true, false, not, ◌||◌, List, [], ◌∷◌, arith,
  if◌then◌else◌, eqb, Bool-cases,
}
use codex_feishu_remoter.Codex.Rollout.{reversed_onto}
use codex_feishu_remoter.Codex.Rollout.Lines.{append_nil}
use codex_feishu_remoter.Codex.Watcher.{has_newline, keep_lines, is_ended}
use codex_feishu_remoter.Codex.Watcher.Lines.{joined}

-- From the first line that has not ended there is no line feed.
abbrev pub no_feed_left : List (List ℕ) → Bool
no_feed_left [] = true
no_feed_left (line ∷ lines) =
    let rest = no_feed_left lines in
    if is_ended line then rest else not (has_newline (joined (line ∷ lines)))

is_ended-reversed_onto :
    (xs : List ℕ) (y : ℕ) (ys : List ℕ) → is_ended (reversed_onto xs (y ∷ ys)) ≡ is_ended (y ∷ ys)
is_ended-reversed_onto [] y ys = refl
is_ended-reversed_onto (x ∷ xs) y ys = is_ended-reversed_onto xs x (y ∷ ys)

or_false : (a b : Bool) → a ≡ false → (a || b) ≡ b
or_false a b h = rw h refl

has_newline-reversed_onto :
    (xs ys : List ℕ) → has_newline xs ≡ false → has_newline (reversed_onto xs ys) ≡ has_newline ys
has_newline-reversed_onto [] ys h = refl
has_newline-reversed_onto (x ∷ xs) ys h = elim (Bool-cases (eqb x 10)) [
  | inl e ↦ ground (arith, e, h)
  | inr e ↦ has_newline-reversed_onto xs (x ∷ ys) (ground (arith, e, h)) ∙ or_false (eqb x 10) _ e
]

-- how the line so far stands to `after_cr`
abbrev ends_at : Bool → List ℕ → Bool
ends_at after_cr [] = not after_cr
ends_at after_cr (b ∷ line) = if after_cr then eqb b 13 else true

ended_at_cr : (line : List ℕ) → ends_at true line ≡ true → is_ended (reversed_onto line []) ≡ true
ended_at_cr [] c = ground (arith, c)
ended_at_cr (b ∷ line) c = is_ended-reversed_onto line b [] ∙ ground (arith, c)

either :
    (c : Bool) (x y : List (List ℕ))
    → (c ≡ true → no_feed_left x ≡ true)
    → (c ≡ false → no_feed_left y ≡ true)
    → no_feed_left (if c then x else y) ≡ true
either true x y p q = p refl
either false x y p q = q refl

grown_without :
    (b : ℕ) (line : List ℕ)
    → eqb b 10 ≡ false
    → has_newline line ≡ false
    → has_newline (b ∷ line) ≡ false
grown_without b line e h = rw e h

pub no_feed_left-keep_lines :
    (after_cr : Bool) (line bytes : List ℕ)
    → ends_at after_cr line ≡ true
    → has_newline line ≡ false
    → no_feed_left (keep_lines after_cr line bytes) ≡ true
unfolding keep_lines
no_feed_left-keep_lines after_cr [] [] c h = refl
no_feed_left-keep_lines after_cr (b ∷ line) [] c h =
    elim (Bool-cases (is_ended (reversed_onto (b ∷ line) []))) [
      | inl e ↦ rw e refl
      | inr e ↦
          rw
            (e, append_nil (reversed_onto (b ∷ line) []), has_newline-reversed_onto (b ∷ line) [] h)
            refl
    ]
no_feed_left-keep_lines after_cr line (b ∷ bytes) c h =
    let at_cr =
      λ (a : after_cr ≡ true). ended_at_cr line (subst (λ x. ends_at x line ≡ true) a c) in
    either (eqb b 10) _ _
      (λ e.
        rw (is_ended-reversed_onto line b [], e) (no_feed_left-keep_lines false [] bytes refl refl))
      (λ e.
        either after_cr _ _
          (λ a.
            either (eqb b 13) _ _
              (λ cr. rw (at_cr a) (no_feed_left-keep_lines true (b ∷ []) bytes cr (rw e refl)))
              (λ cr. rw (at_cr a) (no_feed_left-keep_lines false (b ∷ []) bytes refl (rw e refl))))
          (λ a.
            either (eqb b 13) _ _
              (λ cr. no_feed_left-keep_lines true (b ∷ line) bytes cr (grown_without b line e h))
              (λ cr.
                no_feed_left-keep_lines false (b ∷ line) bytes refl (grown_without b line e h))))
