-- ===== src/Codex/Rollout.antt =====
-- src/cfr/codex/rollout.py: `recent_rollout_messages`, over the bytes of a file. `decode` is what
-- `json.loads` makes of a line, none if it raises, and `raised` if it makes a value of which
-- `_history_message` raises, as it does of one that is no object. The loop counts down from one more than the size.
pub mod Lines
pub mod Recent
mod Examples
use codex_feishu_remoter.Prelude.{
  ℕ, zero, suc, String, ◌+◌, ◌-◌, ◌*◌, max, Bool, true, false, not, ◌&&◌, ◌||◌, ◌==◌, ◌<>◌, Option,
  none, some, List, [], ◌∷◌, ◌++◌, if◌then◌else◌, eqb, leb, or_else, coalesce, strip, is_empty_text,
  Outcome, ok, raised,
}
use codex_feishu_remoter.Prelude.Caps.{skip}
use codex_feishu_remoter.Core.Telemetry.{count, keep_last}

-- an item of a payload's `content`: its `type`, and its `text`, where a missing one is empty
pub record Content : Type 0 where
  pub type : String
  pub text : String

-- the fields of a record that are read; `message` is none if it is no text
pub record RolloutRecord : Type 0 where
  pub type : String
  pub role : String
  pub message : Option String
  pub content : List Content
  pub timestamp : Option String
  pub turn_id : Option String
  pub metadata_turn_id : Option String

pub record HistoryMessage : Type 0 where
  pub role : String
  pub text : String
  pub timestamp : Option String
  pub turn_id : Option String

abbrev is_text_item : Content → Bool
is_text_item item = item.type == "input_text" || (item.type == "output_text" || item.type == "text")

-- `'\n'.join(…)`
abbrev pub join_lines : List String → String
join_lines [] = ""
join_lines (text ∷ []) = text
join_lines (text ∷ next ∷ rest) = text <> ("\n" <> join_lines (next ∷ rest))

abbrev pub item_texts : List Content → List String
item_texts [] = []
item_texts (item ∷ items) =
    let rest = item_texts items in if is_text_item item then item.text ∷ rest else rest

unfoldable pub message_text : RolloutRecord → String
message_text r = by_message r.message
  where
    by_message : Option String → String
    by_message (some text) = text
    by_message none = strip (join_lines (item_texts r.content))

abbrev pub role_of : RolloutRecord → Option String
role_of r =
    if r.type == "user_message"
    then some "user"
    else if r.type == "agent_message"
    then some "assistant"
    else if r.type == "message" && (r.role == "user" || r.role == "assistant")
    then some r.role
    else none

abbrev pub with_role : RolloutRecord → String → Option String → Option HistoryMessage
with_role r text none = none
with_role r text (some role) =
    if is_empty_text text
    then none
    else some (record {
      role = role;
      text = text;
      timestamp = r.timestamp;
      turn_id = coalesce r.turn_id r.metadata_turn_id;
    })

-- `_history_message`
unfoldable pub history_message : RolloutRecord → Option HistoryMessage
unfolding message_text
history_message r = with_role r (strip (message_text r)) (role_of r)

-- `data.splitlines()`: a line ends at a line feed, a carriage return or both; `line` is the line so far,
-- the last byte first, and `after_cr` whether the byte before was a carriage return.
abbrev pub reversed_onto : List ℕ → List ℕ → List ℕ
reversed_onto [] ys = ys
reversed_onto (x ∷ xs) ys = reversed_onto xs (x ∷ ys)

unfoldable pub split_lines : Bool → List ℕ → List ℕ → List (List ℕ)
split_lines after_cr [] [] = []
split_lines after_cr (b ∷ line) [] = reversed_onto (b ∷ line) [] ∷ []
split_lines after_cr line (b ∷ bytes) =
    let joined = split_lines false [] bytes in
    let ended = reversed_onto line [] ∷ split_lines false [] bytes in
    let ended_cr = reversed_onto line [] ∷ split_lines true [] bytes in
    let grown = split_lines false (b ∷ line) bytes in
    if after_cr && eqb b 10
    then joined
    else if eqb b 10
    then ended
    else if eqb b 13
    then ended_cr
    else grown

-- `data.partition(b'\n')` where the read starts inside the file: what follows the first line feed
abbrev pub after_newline : List ℕ → List ℕ
after_newline [] = []
after_newline (b ∷ bytes) = let rest = after_newline bytes in if eqb b 10 then bytes else rest

abbrev pub same_visible : HistoryMessage → HistoryMessage → Bool
same_visible a b = a.role == b.role && a.text == b.text

abbrev pub is_repeated : Option HistoryMessage → HistoryMessage → Bool
is_repeated none item = false
is_repeated (some previous) item = same_visible item previous

abbrev pub item_of : Option RolloutRecord → Option HistoryMessage
item_of none = none
item_of (some r) = history_message r

abbrev pub add_item :
    ℕ
    → Option HistoryMessage
    → List HistoryMessage × Option HistoryMessage
    → List HistoryMessage × Option HistoryMessage
add_item limit none state = state
add_item limit (some item) (messages, previous) =
    if is_repeated previous item
    then (messages, previous)
    else (keep_last limit (messages ++ item ∷ []), some item)

abbrev pub min3 : ℕ → ℕ → ℕ → ℕ
min3 a b c = let m : ℕ = if leb a b then a else b in if leb m c then m else c

abbrev pub clamp : ℕ → ℕ
clamp limit = if leb (max limit 1) 50 then max limit 1 else 50

abbrev pub smaller : ℕ → ℕ → ℕ
smaller a b = if leb a b then a else b

abbrev pub go_on : {F A B : Type 0} → Outcome F A → (A → Outcome F B) → Outcome F B
go_on (raised e) rest = raised e
go_on (ok a) rest = rest a

module _ {F : Type 0} (decode : List ℕ → Outcome F (Option RolloutRecord)) where
  abbrev pub State : Type 0
  State = List HistoryMessage × Option HistoryMessage

  -- the loop over the lines, with the messages and `previous`; the first line that raises ends it
  unfoldable pub collect : ℕ → List (List ℕ) → State → Outcome F State
  collect limit [] state = ok state
  collect limit (line ∷ lines) state =
      go_on (decode line) (λ r. collect limit lines (add_item limit (item_of r) state))

  abbrev pub shown : Outcome F State → Outcome F (List HistoryMessage)
  shown (raised e) = raised e
  shown (ok state) = ok state.0

  -- the messages in the last `window` bytes of the file
  unfoldable pub messages_in : ℕ → ℕ → List ℕ → Outcome F (List HistoryMessage)
  unfolding collect split_lines
  messages_in limit window file =
      let start : ℕ = count file - window in
      let bytes = skip start file in
      shown (
        collect limit (split_lines false [] (if eqb start 0 then bytes else after_newline bytes))
          ([], none))

  -- whether the round returns or raises
  abbrev pub ends : ℕ → ℕ → ℕ → ℕ → Outcome F (List HistoryMessage) → Bool
  ends limit max_total window size (raised e) = true
  ends limit max_total window size (ok messages) =
      leb limit (count messages) || (eqb (size - window) 0 || leb max_total window)

  -- `while True`, with the rounds that are left
  unfoldable pub widen : ℕ → ℕ → ℕ → ℕ → List ℕ → Option (Outcome F (List HistoryMessage))
  unfolding messages_in
  widen zero limit max_total window file = none
  widen (suc rounds) limit max_total window file =
      let messages = messages_in limit window file in
      let next = widen rounds limit max_total (min3 (count file) max_total (window * 2)) file in
      if ends limit max_total window (count file) messages then some messages else next

  -- A limit below 0 is 0. `none` for the path that is no file gives no messages.
  unfoldable pub recent_rollout_messages :
      ℕ → ℕ → ℕ → Option (List ℕ) → Option (Outcome F (List HistoryMessage))
  unfolding widen
  recent_rollout_messages limit max_bytes max_total_bytes none = some (ok [])
  recent_rollout_messages limit max_bytes max_total_bytes (some file) =
      let first : ℕ = max max_bytes 4096 in
      widen (count file + 1) (clamp limit) (max first max_total_bytes) (smaller (count file) first)
        file
