-- ===== src/Codex/Rollout/Examples.antt =====
-- A file of four lines, two of which show the same message, and the theorem at it.
use codex_feishu_remoter.Prelude.{
  ℕ, String, ◌≤◌, ◌≡◌, refl, eqb, if◌then◌else◌, Option, none, some, Outcome, ok, raised, List, [],
  ◌∷◌,
}
use codex_feishu_remoter.Codex.Rollout.{
  RolloutRecord, HistoryMessage, message_text, history_message, split_lines, collect, messages_in,
  widen, clamp, recent_rollout_messages,
}
use codex_feishu_remoter.Codex.Rollout.Recent.{ViewOrFailure, recent_rollout_messages-IsView}

abbrev user_says : String → RolloutRecord
user_says text = record {
  type = "user_message";
  role = "";
  message = some text;
  content = [];
  timestamp = none;
  turn_id = none;
  metadata_turn_id = none;
}

-- The line `a` is one message, `b` another, `1` is JSON but no object, and all others are no JSON.
abbrev decode_letters : List ℕ → Outcome String (Option RolloutRecord)
decode_letters [] = ok none
decode_letters (b ∷ []) =
    if eqb b 97
    then ok (some (user_says "a"))
    else if eqb b 98
    then ok (some (user_says "b"))
    else if eqb b 49
    then raised "AttributeError"
    else ok none
decode_letters (b ∷ next ∷ rest) = ok none

abbrev letters : List ℕ
letters = 97 ∷ 10 ∷ 97 ∷ 13 ∷ 10 ∷ 99 ∷ 10 ∷ 98 ∷ []

abbrev says : String → HistoryMessage
says text = record { role = "user"; text = text; timestamp = none; turn_id = none }

shows_two :
    recent_rollout_messages decode_letters 10 4096 8192 (some letters)
    ≡ some (ok (says "a" ∷ says "b" ∷ []))
unfolding recent_rollout_messages widen messages_in collect split_lines history_message message_text
shows_two = refl

-- A line that is no object ends the reading, also where messages stand before it.
raises :
    recent_rollout_messages decode_letters 10 4096 8192 (some (97 ∷ 10 ∷ 49 ∷ 10 ∷ []))
    ≡ some (raised "AttributeError")
unfolding recent_rollout_messages widen messages_in collect split_lines history_message message_text
raises = refl

recent_rollout_messages-IsView_example :
    (out : Outcome String (List HistoryMessage)) × ((recent_rollout_messages decode_letters 10 4096
          8192
          (some letters)
        ≡ some out)
      × ((clamp 10 ≤ 50) × ViewOrFailure decode_letters letters (clamp 10) out))
recent_rollout_messages-IsView_example =
    recent_rollout_messages-IsView decode_letters 10 4096 8192 (some letters)
