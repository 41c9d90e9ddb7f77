-- ===== src/Prelude/Text.antt =====
-- Texts by their characters: Python's slices and f-strings, and SQLite's binary collation, which
-- orders UTF-8 as it orders code points.
use Prim.Native.Nat.{ℕ, zero, suc, ◌+◌}
use Prim.Native.Char.{code}
use Prim.Native.String.{String}
use mathlib.Core.Bool.{Bool, true, false, ◌&&◌, ◌||◌}
use codex_feishu_remoter.Prelude.Tests.{if◌then◌else◌, ltb, leb, eqb}

-- `text[:n]`
pub take_text : ℕ → String → String
take_text zero text = String.[]
take_text (suc n) String.[] = String.[]
take_text (suc n) (String.◌∷◌ c text) = String.◌∷◌ c (take_text n text)

abbrev pub text_leb : String → String → Bool
text_leb String.[] s = true
text_leb (String.◌∷◌ c s) String.[] = false
text_leb (String.◌∷◌ c s) (String.◌∷◌ d t) =
    let rest = text_leb s t in
    if ltb (code c) (code d) then true else if eqb (code c) (code d) then rest else false

infixr 65 ◌<>◌
-- one text after another
unfoldable pub ◌<>◌ : String → String → String
String.[] <> t = t
(String.◌∷◌ c s) <> t = String.◌∷◌ c (s <> t)

abbrev between : ℕ → ℕ → ℕ → Bool
between low high n = leb low n && leb n high

-- the code points that `str.strip` strips: those of `str.isspace`
abbrev pub is_space : ℕ → Bool
is_space n =
    between 9 13 n
    || (between 28 32 n
        || (eqb n 133
            || (eqb n 160
                || (eqb n 5760
                    || (between 8192 8202 n
                        || (between 8232 8233 n || (eqb n 8239 || (eqb n 8287 || eqb n 12288))))))))

abbrev pub is_blank : String → Bool
is_blank String.[] = true
is_blank (String.◌∷◌ c s) = is_space (code c) && is_blank s

-- `text.lstrip()`
abbrev pub lstrip : String → String
lstrip String.[] = String.[]
lstrip (String.◌∷◌ c s) = let rest = lstrip s in if is_space (code c) then rest else String.◌∷◌ c s

-- `text.rstrip()`
abbrev pub rstrip : String → String
rstrip String.[] = String.[]
rstrip (String.◌∷◌ c s) =
    let rest = rstrip s in if is_space (code c) && is_blank s then String.[] else String.◌∷◌ c rest

abbrev pub strip : String → String
strip s = rstrip (lstrip s)

abbrev pub is_empty_text : String → Bool
is_empty_text String.[] = true
is_empty_text (String.◌∷◌ c s) = false

-- `text.startswith('/')`
abbrev pub starts_with_slash : String → Bool
starts_with_slash String.[] = false
starts_with_slash (String.◌∷◌ c s) = eqb (code c) 47

abbrev lower_code : ℕ → ℕ
lower_code n = if between 65 90 n then n + 32 else n

-- `text.lower() == word`, for a word of small ASCII letters but k, and digits: besides the ASCII
-- capitals only the Kelvin sign has a lower case in ASCII, which is k.
abbrev pub lower_is : String → String → Bool
lower_is String.[] String.[] = true
lower_is String.[] (String.◌∷◌ d word) = false
lower_is (String.◌∷◌ c text) String.[] = false
lower_is (String.◌∷◌ c text) (String.◌∷◌ d word) =
    eqb (lower_code (code c)) (code d) && lower_is text word
