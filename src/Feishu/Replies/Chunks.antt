-- ===== src/Feishu/Replies/Chunks.antt =====
-- The chunks of a text are the text, and none is too long.
use codex_feishu_remoter.Prelude.{
  ℕ, String, ◌+◌, ◌≤◌, ◌<◌, ◌<>◌, ◌≡◌, refl, ap, subst, inl, inr, true, false, not, ◌&&◌, List, [],
  ◌∷◌, arith, if◌then◌else◌, ltb, eqb, Bool-cases, is_empty_text, All, Outcome, ok, raised,
}
use Prim.Native.Nat.{Ordering, compare}
use Prim.Native.Char.{Char, code, len_utf8, len_utf8_def, width}
use codex_feishu_remoter.Feishu.Replies.{
  SendError, limit_too_small, with_char, cons_part, chunk_loop, chunk_text,
}

-- `len(text.encode('utf-8'))`
pub utf8_length : String → ℕ
utf8_length String.[] = 0
utf8_length (String.◌∷◌ c text) = len_utf8 c + utf8_length text

-- `''.join(parts)`
pub joined : List String → String
joined [] = ""
joined (part ∷ parts) = part <> joined parts

abbrev pub IsChunk : ℕ → String → Type 0
IsChunk limit part = (utf8_length part ≤ limit) × (is_empty_text part ≡ false)

-- the parts of `text` for a limit, of which none is empty
pub record AreChunks (limit : ℕ) (text : String) (parts : List String) : Type 0 where
  pub whole : joined parts ≡ text
  pub bounded : All (IsChunk limit) parts

append_assoc : (a b c : String) → (a <> b) <> c ≡ a <> (b <> c)
unfolding ◌<>◌
append_assoc String.[] b c = refl
append_assoc (String.◌∷◌ x a) b c = ap (String.◌∷◌ x) (append_assoc a b c)

append_nil : (a : String) → a <> "" ≡ a
unfolding ◌<>◌
append_nil String.[] = refl
append_nil (String.◌∷◌ x a) = ap (String.◌∷◌ x) (append_nil a)

with_char_lem : (a : String) (c : Char) (b : String) → with_char a c <> b ≡ a <> String.◌∷◌ c b
unfolding ◌<>◌
with_char_lem String.[] c b = refl
with_char_lem (String.◌∷◌ x a) c b = ap (String.◌∷◌ x) (with_char_lem a c b)

utf8_length-with_char :
    (a : String) (c : Char) → utf8_length (with_char a c) ≡ utf8_length a + len_utf8 c
unfolding utf8_length
utf8_length-with_char String.[] c = omega arith
utf8_length-with_char (String.◌∷◌ x a) c = omega (arith, utf8_length-with_char a c)

with_char_nonempty : (a : String) (c : Char) → is_empty_text (with_char a c) ≡ false
with_char_nonempty String.[] c = refl
with_char_nonempty (String.◌∷◌ x a) c = refl

-- what the loop returns from a part that is under way
abbrev pub Rest : ℕ → String → Outcome SendError (List String) → Type 0
Rest limit text (ok parts) = AreChunks limit text parts
Rest limit text (raised e) = limit < 4

Rest-cons :
    (limit : ℕ) (current text : String) (o : Outcome SendError (List String))
    → IsChunk limit current
    → Rest limit text o
    → Rest limit (current <> text) (cons_part current o)
unfolding joined
Rest-cons limit current text (ok parts) h r = record {
  whole = ap (λ t. current <> t) r.whole;
  bounded = (h, r.bounded);
}
Rest-cons limit current text (raised e) h r = r

width_le : (o p q : Ordering) → width o p q ≤ 4
width_le Ordering.lt p q = omega arith
width_le Ordering.eq Ordering.lt q = omega arith
width_le Ordering.eq Ordering.eq Ordering.lt = omega arith
width_le Ordering.eq Ordering.eq Ordering.eq = omega arith
width_le Ordering.eq Ordering.eq Ordering.gt = omega arith
width_le Ordering.eq Ordering.gt Ordering.lt = omega arith
width_le Ordering.eq Ordering.gt Ordering.eq = omega arith
width_le Ordering.eq Ordering.gt Ordering.gt = omega arith
width_le Ordering.gt Ordering.lt q = omega arith
width_le Ordering.gt Ordering.eq Ordering.lt = omega arith
width_le Ordering.gt Ordering.eq Ordering.eq = omega arith
width_le Ordering.gt Ordering.eq Ordering.gt = omega arith
width_le Ordering.gt Ordering.gt Ordering.lt = omega arith
width_le Ordering.gt Ordering.gt Ordering.eq = omega arith
width_le Ordering.gt Ordering.gt Ordering.gt = omega arith

len_utf8_le : (c : Char) → len_utf8 c ≤ 4
len_utf8_le c =
    let bound = width_le (compare (code c) 128) (compare (code c) 2048) (compare (code c) 65536) in
    let defined : len_utf8 c
        ≡ width (compare (code c) 128) (compare (code c) 2048) (compare (code c) 65536) =
      λ i. len_utf8_def c i in
    omega (arith, bound, defined)

empty_joined : (current : String) → is_empty_text current ≡ true → "" ≡ current <> ""
unfolding ◌<>◌
empty_joined String.[] e = refl
empty_joined (String.◌∷◌ c current) e = cc

-- A character that is not past the limit fits into the part.
fitting :
    (limit size bytes : ℕ) (current : String)
    → bytes ≡ utf8_length current
    → ltb limit size ≡ false
    → (not (is_empty_text current) && ltb limit (bytes + size)) ≡ false
    → bytes + size ≤ limit
unfolding utf8_length
fitting limit size bytes String.[] e fits h = ground (arith, fits)
fitting limit size bytes (String.◌∷◌ c current) e fits h = ground (arith, h)

Rest-step :
    (limit bytes : ℕ) (c : Char) (text current : String)
    (flushed grown : Outcome SendError (List String))
    → bytes ≡ utf8_length current
    → bytes ≤ limit
    → (len_utf8 c ≤ limit → Rest limit (String.◌∷◌ c text) flushed)
    → (bytes + len_utf8 c ≤ limit → Rest limit (with_char current c <> text) grown)
    → Rest limit (current <> String.◌∷◌ c text) (
        if ltb limit (len_utf8 c)
        then raised limit_too_small
        else if not (is_empty_text current) && ltb limit (bytes + len_utf8 c)
        then cons_part current flushed
        else grown)
Rest-step limit bytes c text current flushed grown e h of_flushed of_grown =
    elim (Bool-cases (ltb limit (len_utf8 c))) [
      | inl large ↦ rw large (ground (arith, large, len_utf8_le c))
      | inr fits ↦
          elim (Bool-cases (not (is_empty_text current) && ltb limit (bytes + len_utf8 c))) [
            | inl full ↦
                rw (fits, full)
                  (Rest-cons limit current (String.◌∷◌ c text) flushed
                    (omega arith, ground (arith, full)) (of_flushed (ground (arith, fits))))
            | inr room ↦
                let rest = of_grown (fitting limit (len_utf8 c) bytes current e fits room) in
                let same = with_char_lem current c text in
                rw (fits, room) (subst (λ t. Rest limit t grown) same rest)
          ]
    ]

chunk_loop-Rest :
    (limit : ℕ) (text current : String) (bytes : ℕ)
    → bytes ≡ utf8_length current
    → bytes ≤ limit
    → Rest limit (current <> text) (chunk_loop limit text current bytes)
unfolding chunk_loop joined utf8_length ◌<>◌
chunk_loop-Rest limit String.[] current bytes e h = elim (Bool-cases (is_empty_text current)) [
  | inl empty ↦ rw empty (record { whole = empty_joined current empty; bounded = tt })
  | inr filled ↦ rw filled (record { whole = refl; bounded = ((omega arith, filled), tt) })
]
chunk_loop-Rest limit (String.◌∷◌ c text) current bytes e h =
    Rest-step limit bytes c text current _ _ e h
      (λ fits. chunk_loop-Rest limit text (String.◌∷◌ c String.[]) (len_utf8 c) (omega arith) fits)
      (λ fits.
        chunk_loop-Rest limit text (with_char current c) (bytes + len_utf8 c)
          (omega (arith, utf8_length-with_char current c)) fits)

-- The parts of a text that is not empty, for a limit of at least 4 bytes, are the text when they are
-- joined, and none of them is empty or longer than the limit; there always are such parts.
pub chunk_text-AreChunks :
    (text : String) (limit : ℕ)
    → is_empty_text text ≡ false
    → 4 ≤ limit
    → (parts : List String) × ((chunk_text text limit ≡ ok parts) × AreChunks limit text parts)
unfolding chunk_text ◌<>◌ utf8_length
chunk_text-AreChunks text limit filled h =
    let zero_limit : eqb limit 0 ≡ false = ground arith in
    rw (filled, zero_limit)
      (parts_of (chunk_loop limit text "" 0) (chunk_loop-Rest limit text "" 0 refl (omega arith)))
  where
    parts_of :
        (o : Outcome SendError (List String))
        → Rest limit text o
        → (parts : List String) × ((o ≡ ok parts) × AreChunks limit text parts)
    parts_of (ok parts) r = (parts, (refl, r))
    parts_of (raised e) r = absurd (omega arith)
