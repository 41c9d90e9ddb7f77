-- ===== src/Codex/Watcher/Examples.antt =====
-- A poll of a file of two lines and a piece, and the theorem at it.
use codex_feishu_remoter.Prelude.{
  ℕ, String, false, ◌≡◌, refl, Option, some, Outcome, ok, raised, if◌then◌else◌, leb, List, [], ◌∷◌,
}
use codex_feishu_remoter.Core.Telemetry.{count}
use codex_feishu_remoter.Codex.Watcher.{RolloutWatcher, consume, keep_lines, take_bytes, poll}

abbrev watching : ℕ → RolloutWatcher
watching offset = record {
  byte_offset = offset;
  max_poll_bytes = 7;
  discarding_oversized_line = false;
}

abbrev the_line : List ℕ → Outcome String (Option (List ℕ))
the_line line = if leb (count line) 3 then ok (some line) else raised "AttributeError"

-- `a`, a line feed, `b`, a carriage return and a line feed, then `cde`
abbrev growing : List ℕ
growing = 97 ∷ 10 ∷ 98 ∷ 13 ∷ 10 ∷ 99 ∷ 100 ∷ 101 ∷ []

polls :
    poll the_line (some growing) (watching 0)
    ≡ (ok ((97 ∷ 10 ∷ []) ∷ (98 ∷ 13 ∷ 10 ∷ []) ∷ []), watching 5)
unfolding poll consume keep_lines take_bytes
polls = refl

polls_again : poll the_line (some growing) (watching 5) ≡ (ok [], watching 5)
unfolding poll consume keep_lines take_bytes
polls_again = refl

polls_shorter :
    poll the_line (some growing) (watching 9)
    ≡ (ok ((97 ∷ 10 ∷ []) ∷ (98 ∷ 13 ∷ 10 ∷ []) ∷ []), watching 5)
unfolding poll consume keep_lines take_bytes
polls_shorter = refl

-- The line that raises is read again and again.
breaks :
    poll the_line (some (97 ∷ 10 ∷ 98 ∷ 98 ∷ 98 ∷ 10 ∷ [])) (watching 0)
    ≡ (raised "AttributeError", watching 0)
unfolding poll consume keep_lines take_bytes
breaks = refl
