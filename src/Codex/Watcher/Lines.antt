-- ===== src/Codex/Watcher/Lines.antt =====
-- A poll reads whole lines, one after another.
use codex_feishu_remoter.Prelude.{
  Outcome, ok, raised, Option, none, some, ℕ, ◌≡◌, refl, ap, ◌∙◌, Bool, true, false, Option, List,
  [], ◌∷◌, ◌++◌, if◌then◌else◌, eqb,
}
use codex_feishu_remoter.Codex.Rollout.{reversed_onto}
use codex_feishu_remoter.Codex.Rollout.Lines.{append_nil, reversed_append}
use codex_feishu_remoter.Codex.Watcher.{keep_lines}

abbrev pub joined : List (List ℕ) → List ℕ
joined [] = []
joined (line ∷ lines) = line ++ joined lines

abbrev pub gather : {F E : Type 0} → Outcome F (Option E) → Outcome F (List E) → Outcome F (List E)
gather (raised f) rest = raised f
gather (ok e) (raised f) = raised f
gather (ok none) (ok events) = ok events
gather (ok (some e)) (ok events) = ok (e ∷ events)

-- the events of whole lines, or what the first of them raises that does
abbrev pub events_of :
    {F E : Type 0} → (List ℕ → Outcome F (Option E)) → List (List ℕ) → Outcome F (List E)
events_of event [] = ok []
events_of event (line ∷ lines) = gather (event line) (events_of event lines)

-- The lines are the bytes.
pub joined-keep_lines :
    (after_cr : Bool) (line bytes : List ℕ)
    → joined (keep_lines after_cr line bytes) ≡ reversed_onto line bytes
unfolding keep_lines
joined-keep_lines after_cr [] [] = refl
joined-keep_lines after_cr (b ∷ line) [] = append_nil (reversed_onto line (b ∷ []))
joined-keep_lines after_cr line (b ∷ bytes) =
    let ended =
      reversed_append (b ∷ line) [] (joined (keep_lines false [] bytes))
      ∙ ap (reversed_onto (b ∷ line)) (joined-keep_lines false [] bytes) in
    let before_cr =
      reversed_append line [] (joined (keep_lines true (b ∷ []) bytes))
      ∙ ap (reversed_onto line) (joined-keep_lines true (b ∷ []) bytes) in
    let before =
      reversed_append line [] (joined (keep_lines false (b ∷ []) bytes))
      ∙ ap (reversed_onto line) (joined-keep_lines false (b ∷ []) bytes) in
    let returned = joined-keep_lines true (b ∷ line) bytes in
    let grown = joined-keep_lines false (b ∷ line) bytes in
    either (eqb b 10) _ _ ended (
      either after_cr _ _ (either (eqb b 13) _ _ before_cr before)
        (either (eqb b 13) _ _ returned grown))
  where
    either :
        (c : Bool) (x y : List (List ℕ))
        → joined x ≡ reversed_onto line (b ∷ bytes)
        → joined y ≡ reversed_onto line (b ∷ bytes)
        → joined (if c then x else y) ≡ reversed_onto line (b ∷ bytes)
    either true x y p q = p
    either false x y p q = q
