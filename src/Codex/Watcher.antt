-- ===== src/Codex/Watcher.antt =====
-- src/cfr/codex/rollout.py: `RolloutWatcher.poll`, over the bytes of a file that grows. `event` is what
-- the decoding of a line and `_event` make of it: none if the line gives no event, and `raised` where
-- `_event` raises, as it does of JSON that is no object.
pub mod Lines
mod Examples
mod Left
mod Loop
pub mod Reads
use codex_feishu_remoter.Prelude.{
  ℕ, zero, suc, ◌+◌, Bool, true, false, not, ◌&&◌, ◌||◌, Option, none, some, List, [], ◌∷◌, ◌++◌,
  if◌then◌else◌, eqb, ltb, leb, Outcome, ok, raised,
}
use codex_feishu_remoter.Prelude.Caps.{skip}
use codex_feishu_remoter.Core.Telemetry.{count}
use codex_feishu_remoter.Codex.Rollout.{reversed_onto}

pub record RolloutWatcher : Type 0 where
  pub byte_offset : ℕ
  pub max_poll_bytes : ℕ
  pub discarding_oversized_line : Bool

-- `handle.read(n)`
unfoldable pub take_bytes : ℕ → List ℕ → List ℕ
take_bytes zero bytes = []
take_bytes (suc n) [] = []
take_bytes (suc n) (b ∷ bytes) = b ∷ take_bytes n bytes

abbrev pub has_newline : List ℕ → Bool
has_newline [] = false
has_newline (b ∷ bytes) = eqb b 10 || has_newline bytes

-- how many bytes stand before the first line feed, and with it
abbrev pub through_newline : List ℕ → ℕ
through_newline [] = 0
through_newline (b ∷ bytes) = let rest = through_newline bytes in if eqb b 10 then 1 else suc rest

-- `splitlines(keepends=True)`: a line that ends at a carriage return goes on with a line feed that
-- follows. `line` is the line so far, the last byte first.
unfoldable pub keep_lines : Bool → List ℕ → List ℕ → List (List ℕ)
keep_lines after_cr [] [] = []
keep_lines after_cr (b ∷ line) [] = reversed_onto (b ∷ line) [] ∷ []
keep_lines after_cr line (b ∷ bytes) =
    let ended = reversed_onto (b ∷ line) [] ∷ keep_lines false [] bytes in
    let before_cr = reversed_onto line [] ∷ keep_lines true (b ∷ []) bytes in
    let before = reversed_onto line [] ∷ keep_lines false (b ∷ []) bytes in
    let returned = keep_lines true (b ∷ line) bytes in
    let grown = keep_lines false (b ∷ line) bytes in
    if eqb b 10
    then ended
    else if after_cr
    then (if eqb b 13 then before_cr else before)
    else if eqb b 13
    then returned
    else grown

-- `line.endswith((b'\n', b'\r'))`
abbrev pub is_ended : List ℕ → Bool
is_ended [] = false
is_ended (b ∷ []) = eqb b 10 || eqb b 13
is_ended (b ∷ next ∷ rest) = is_ended (next ∷ rest)

module _ {F E : Type 0} (event : List ℕ → Outcome F (Option E)) where
  abbrev pub add_event : Option E → List E → List E
  add_event none events = events
  add_event (some e) events = e ∷ events

  -- what a line adds to the events of the rest, and to `consumed`
  abbrev pub add_line : ℕ → Outcome F (Option E) → Outcome F (List E × ℕ) → Outcome F (List E × ℕ)
  add_line size (raised f) rest = raised f
  add_line size (ok e) (raised f) = raised f
  add_line size (ok e) (ok (events, consumed)) = ok (add_event e events, size + consumed)

  -- the loop over the lines, which the first line that has not ended leaves: the events, and `consumed`
  unfoldable pub consume : List (List ℕ) → Outcome F (List E × ℕ)
  consume [] = ok ([], 0)
  consume (line ∷ lines) =
      let rest = consume lines in
      if is_ended line then add_line (count line) (event line) rest else ok ([], 0)

  -- An exception leaves the loop before `byte_offset` is moved.
  abbrev pub after_loop :
      RolloutWatcher → Outcome F (List E × ℕ) → Outcome F (List E) × RolloutWatcher
  after_loop w (raised f) = (raised f, w)
  after_loop w (ok (events, consumed)) =
      (ok events, record w { byte_offset = w.byte_offset + consumed })

  abbrev pub read_lines : List ℕ → RolloutWatcher → Outcome F (List E) × RolloutWatcher
  read_lines bytes w =
      let out = after_loop w (consume (keep_lines false [] bytes)) in
      if has_newline bytes || ltb (count bytes) w.max_poll_bytes then out else (
        ok [],
        record w { byte_offset = w.byte_offset + count bytes; discarding_oversized_line = true },
      )

  -- the rest of a line that was too long is passed over
  abbrev pub discard : List ℕ → RolloutWatcher → Outcome F (List E) × RolloutWatcher
  discard bytes w =
      let n : ℕ = through_newline bytes in
      let rest =
        read_lines (skip n bytes)
          (record w { byte_offset = w.byte_offset + n; discarding_oversized_line = false }) in
      if has_newline bytes
      then rest
      else (ok [], record w { byte_offset = w.byte_offset + count bytes })

  abbrev pub poll_bytes : List ℕ → RolloutWatcher → Outcome F (List E) × RolloutWatcher
  poll_bytes bytes w = if w.discarding_oversized_line then discard bytes w else read_lines bytes w

  -- A file that has become shorter than what was read is read from its start.
  abbrev pub rewound : ℕ → RolloutWatcher → RolloutWatcher
  rewound size w =
      if ltb size w.byte_offset
      then record w { byte_offset = 0; discarding_oversized_line = false }
      else w

  -- `none` for a path that does not exist, or whose size cannot be had
  unfoldable pub poll : Option (List ℕ) → RolloutWatcher → Outcome F (List E) × RolloutWatcher
  unfolding consume keep_lines take_bytes
  poll none w = (ok [], w)
  poll (some file) w =
      let w' : RolloutWatcher = rewound (count file) w in
      poll_bytes (take_bytes w'.max_poll_bytes (skip w'.byte_offset file)) w'
