-- ===== src/Codex/Rollout/Recent.antt =====
-- The history view ends, is bounded, and shows a message once.
use codex_feishu_remoter.Prelude.{
  All, or_else, ℕ, zero, suc, ◌+◌, ◌-◌, ◌*◌, ◌≤◌, ◌<◌, max, ◌≡◌, refl, sym, ap, subst, ◌∙◌, inl,
  inr, false, Option, none, some, List, [], ◌∷◌, ◌++◌, arith, if◌then◌else◌, eqb, Bool-cases,
  Outcome, ok, raised,
}
use codex_feishu_remoter.Prelude.Caps.{skip}
use codex_feishu_remoter.Core.Telemetry.{count}
use codex_feishu_remoter.Codex.Rollout.{
  RolloutRecord, HistoryMessage, same_visible, is_repeated, item_of, add_item, collect, go_on,
  shown, ends, messages_in, min3, widen, clamp, smaller, split_lines, after_newline,
  recent_rollout_messages,
}
use codex_feishu_remoter.Codex.Rollout.Lines.{IsPart, tail-IsPart}

abbrev last_of : List HistoryMessage → Option HistoryMessage
last_of [] = none
last_of (m ∷ []) = some m
last_of (m ∷ next ∷ rest) = last_of (next ∷ rest)

-- No message shows the same as the one before it.
abbrev pub IsDistinct : List HistoryMessage → Type 0
IsDistinct [] = Unit
IsDistinct (m ∷ []) = Unit
IsDistinct (m ∷ next ∷ rest) = (same_visible next m ≡ false) × IsDistinct (next ∷ rest)

skip_nil : (n : ℕ) → skip {R = HistoryMessage} n [] ≡ []
skip_nil zero = refl
skip_nil (suc n) = refl

skip-IsDistinct : (n : ℕ) (ms : List HistoryMessage) → IsDistinct ms → IsDistinct (skip n ms)
skip-IsDistinct zero ms h = h
skip-IsDistinct (suc n) [] h = tt
skip-IsDistinct (suc n) (m ∷ []) h = subst IsDistinct (sym (skip_nil n)) tt
skip-IsDistinct (suc n) (m ∷ next ∷ rest) h = skip-IsDistinct n (next ∷ rest) h.1

snoc-IsDistinct :
    (ms : List HistoryMessage) (item : HistoryMessage)
    → IsDistinct ms
    → is_repeated (last_of ms) item ≡ false
    → IsDistinct (ms ++ item ∷ [])
snoc-IsDistinct [] item h e = tt
snoc-IsDistinct (m ∷ []) item h e = (e, tt)
snoc-IsDistinct (m ∷ next ∷ rest) item h e = (h.0, snoc-IsDistinct (next ∷ rest) item h.1 e)

last-snoc :
    (ms : List HistoryMessage) (item : HistoryMessage) → last_of (ms ++ item ∷ []) ≡ some item
last-snoc [] item = refl
last-snoc (m ∷ []) item = refl
last-snoc (m ∷ next ∷ rest) item = last-snoc (next ∷ rest) item

last-skip : (n : ℕ) (ms : List HistoryMessage) → n < count ms → last_of (skip n ms) ≡ last_of ms
last-skip zero ms h = refl
last-skip (suc n) [] h = absurd (omega arith)
last-skip (suc n) (m ∷ []) h = absurd (omega arith)
last-skip (suc n) (m ∷ next ∷ rest) h = last-skip n (next ∷ rest) (omega arith)

count-skip : (n : ℕ) (ms : List HistoryMessage) → count (skip n ms) ≡ count ms - n
count-skip zero ms = omega arith
count-skip (suc n) [] = omega arith
count-skip (suc n) (m ∷ ms) = omega (arith, count-skip n ms)

count-snoc :
    (ms : List HistoryMessage) (item : HistoryMessage) → count (ms ++ item ∷ []) ≡ count ms + 1
count-snoc [] item = omega arith
count-snoc (m ∷ ms) item = omega (arith, count-snoc ms item)

-- the messages so far, and the last of them as `previous`
record IsCollected (limit : ℕ) (state : List HistoryMessage × Option HistoryMessage) : Type 0 where
  bounded : count state.0 ≤ limit
  distinct : IsDistinct state.0
  latest : last_of state.0 ≡ state.1

add_item-IsCollected :
    (limit : ℕ) (item : Option HistoryMessage) (state : List HistoryMessage × Option HistoryMessage)
    → 1 ≤ limit
    → IsCollected limit state
    → IsCollected limit (add_item limit item state)
add_item-IsCollected limit none state l h = h
add_item-IsCollected limit (some item) (ms, previous) l h =
    elim (Bool-cases (is_repeated previous item)) [
      | inl repeated ↦ rw repeated h
      | inr new ↦
          let size = count-snoc ms item in
          let n : ℕ = count (ms ++ item ∷ []) - limit in
          let left = count-skip n (ms ++ item ∷ []) in
          rw new (record {
            bounded = omega (arith, left);
            distinct =
                skip-IsDistinct n (ms ++ item ∷ []) (
                  snoc-IsDistinct ms item h.distinct (ap (λ p. is_repeated p item) h.latest ∙ new));
            latest =
                last-skip n (ms ++ item ∷ []) (omega (arith, size, h.bounded)) ∙ last-snoc ms item;
          })
    ]

-- What the view shows: at most `limit` messages, none of which shows the same as the one before it.
pub record IsView (limit : ℕ) (messages : List HistoryMessage) : Type 0 where
  pub bounded : count messages ≤ limit
  pub distinct : IsDistinct messages

module _ {F : Type 0} (decode : List ℕ → Outcome F (Option RolloutRecord)) where
  -- what a line of the file raises
  abbrev pub LineRaises : List ℕ → F → Type 0
  LineRaises file e = (line : List ℕ) × (IsPart line file × (decode line ≡ raised e))

  abbrev Collected : List ℕ → ℕ → Outcome F (List HistoryMessage × Option HistoryMessage) → Type 0
  Collected file limit (ok state) = IsCollected limit state
  Collected file limit (raised e) = LineRaises file e

  -- a view, or the failure of a line
  abbrev pub ViewOrFailure : List ℕ → ℕ → Outcome F (List HistoryMessage) → Type 0
  ViewOrFailure file limit (ok messages) = IsView limit messages
  ViewOrFailure file limit (raised e) = LineRaises file e

  collect-line :
      (file : List ℕ) (limit : ℕ) (line : List ℕ) (read : Outcome F (Option RolloutRecord))
      (rest : Option RolloutRecord → Outcome F (List HistoryMessage × Option HistoryMessage))
      → IsPart line file
      → decode line ≡ read
      → ((r : Option RolloutRecord) → Collected file limit (rest r))
      → Collected file limit (go_on read rest)
  collect-line file limit line (raised e) rest part at h = (line, (part, at))
  collect-line file limit line (ok r) rest part at h = h r

  collect-Collected :
      (file : List ℕ) (limit : ℕ) (lines : List (List ℕ))
      (state : List HistoryMessage × Option HistoryMessage)
      → 1 ≤ limit
      → All (λ line. IsPart line file) lines
      → IsCollected limit state
      → Collected file limit (collect decode limit lines state)
  unfolding collect
  collect-Collected file limit [] state l parts h = h
  collect-Collected file limit (line ∷ lines) state l parts h =
      collect-line file limit line (decode line) _ parts.0 refl (λ r.
        collect-Collected file limit lines _ l parts.1
          (add_item-IsCollected limit (item_of r) state l h))

  shown_lem :
      (file : List ℕ) (limit : ℕ) (out : Outcome F (List HistoryMessage × Option HistoryMessage))
      → Collected file limit out
      → ViewOrFailure file limit (shown decode out)
  shown_lem file limit (ok state) h = record { bounded = h.bounded; distinct = h.distinct }
  shown_lem file limit (raised e) h = h

  messages_in_lem :
      (limit window : ℕ) (file : List ℕ)
      → 1 ≤ limit
      → ViewOrFailure file limit (messages_in decode limit window file)
  unfolding messages_in
  messages_in_lem limit window file l = shown_lem file limit _ (
      collect-Collected file limit
        (split_lines false [] (
          if eqb (count file - window) 0
          then skip (count file - window) file
          else after_newline (skip (count file - window) file)))
        ([], none) l (tail-IsPart (count file - window) file)
        (record { bounded = omega arith; distinct = tt; latest = refl }))

  -- A round that neither returns nor raises has read a part of the file, and not the greatest.
  goes_on :
      (limit max_total window size : ℕ) (out : Outcome F (List HistoryMessage))
      → ends decode limit max_total window size out ≡ false
      → (window < size) × (window < max_total)
  goes_on limit max_total window size (raised e) h = cc h
  goes_on limit max_total window size (ok messages) h = (ground (arith, h), ground (arith, h))

  widen_lem :
      (rounds limit max_total window : ℕ) (file : List ℕ)
      → 1 ≤ limit
      → count file + 1 ≤ rounds + window
      → 1 ≤ window + (1 - count file)
      → window ≤ count file
      → (out : Outcome F (List HistoryMessage)) × ((widen decode rounds limit max_total window file
            ≡ some out)
          × ViewOrFailure file limit out)
  unfolding widen
  widen_lem zero limit max_total window file l h w small = absurd (omega arith)
  widen_lem (suc rounds) limit max_total window file l h w small =
      elim (Bool-cases
        (ends decode limit max_total window (count file) (messages_in decode limit window file))) [
          | inl over ↦
              rw over
                (messages_in decode limit window file, (refl, messages_in_lem limit window file l))
          | inr more ↦
              let part = goes_on limit max_total window (count file) _ more in
              rw more (
                widen_lem rounds limit max_total (min3 (count file) max_total (window * 2)) file l
                  (ground (arith, part)) (ground (arith, part)) (ground arith))
        ]

  -- For a path that is a file or none, any limit and any sizes, the reading ends within one round more
  -- than the file has bytes. Either it raises what a line of the file raises, or it gives at most 50 messages, at
  -- most as many as the limit or one, none of which shows the same as the one before it.
  pub recent_rollout_messages-IsView :
      (limit max_bytes max_total_bytes : ℕ) (file : Option (List ℕ))
      → (out : Outcome F (List HistoryMessage)) × ((recent_rollout_messages decode limit max_bytes
              max_total_bytes file
            ≡ some out)
          × ((clamp limit ≤ 50) × ViewOrFailure (or_else file []) (clamp limit) out))
  unfolding recent_rollout_messages
  recent_rollout_messages-IsView limit max_bytes max_total_bytes none =
      (ok [], (refl, (ground arith, record { bounded = omega arith; distinct = tt })))
  recent_rollout_messages-IsView limit max_bytes max_total_bytes (some file) =
      let first : ℕ = max max_bytes 4096 in
      let out =
        widen_lem (count file + 1) (clamp limit) (max first max_total_bytes)
          (smaller (count file) first) file (ground arith) (omega arith) (ground arith)
          (ground arith) in
      (out.0, (out.1.0, (ground arith, out.1.1)))
