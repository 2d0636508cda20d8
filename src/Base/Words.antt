-- ===== src/Base/Words.antt =====
-- Methods of Python's `str`: strip, lower, split, partition, join, startswith, and `sorted` on texts.
-- `lower` changes the letters A to Z; the comparisons that follow it are with ASCII words.
use Prim.Native.Char.{Char, code}
use Prim.Native.Nat.{ℕ, ◌-◌}
use Prim.Native.String.{String, ◌++◌, char_at, compare}
use mathlib.Core.Bool.{Bool, true, false, ◌&&◌, ◌||◌}
use mathlib.Core.List.{List, [], ◌∷◌}
use mathlib.Core.Option.{Option, none, some}
use mathlib.Core.Path.{◌≡◌, refl}
use text.Mathlib.Text.{is_lt}
use geo_hazard.Base.Tests.{if◌then◌else◌, leb, ◌==◌, str_eq}

abbrev is_space_code : ℕ → Bool
is_space_code n =
    leb 9 n && leb n 13
    || leb 28 n && leb n 32
    || n == 133
    || n == 160
    || n == 5760
    || leb 8192 n && leb n 8202
    || leb 8232 n && leb n 8233
    || n == 8239
    || n == 8287
    || n == 12288

-- c.isspace()
abbrev pub is_space : Char → Bool
is_space c = is_space_code (code c)

-- s.lstrip()
unfoldable pub strip_left : String → String
strip_left String.[] = String.[]
strip_left (String.◌∷◌ c s) = let rest = strip_left s in if is_space c then rest else String.◌∷◌ c s

-- A character in front of a text without spaces at its end, where a space goes with an empty one.
abbrev keep_right : Char → String → String
keep_right c String.[] = if is_space c then String.[] else String.◌∷◌ c String.[]
keep_right c (String.◌∷◌ d s) = String.◌∷◌ c (String.◌∷◌ d s)

-- s.rstrip()
unfoldable pub strip_right : String → String
strip_right String.[] = String.[]
strip_right (String.◌∷◌ c s) = keep_right c (strip_right s)

-- s.strip()
unfoldable pub strip : String → String
strip s = strip_left (strip_right s)

abbrev lower_char : Char → Char
lower_char c =
    if leb 65 (code c) && leb (code c) 90
    then char_at "abcdefghijklmnopqrstuvwxyz" (code c - 65)
    else c

-- s.lower()
unfoldable pub lower : String → String
lower String.[] = String.[]
lower (String.◌∷◌ c s) = String.◌∷◌ (lower_char c) (lower s)

abbrev push : Char → List String → List String
push c [] = String.◌∷◌ c String.[] ∷ []
push c (w ∷ ws) = String.◌∷◌ c w ∷ ws

-- s.split(sep), for a separator of one character, given by its number
unfoldable pub split : ℕ → String → List String
split sep String.[] = String.[] ∷ []
split sep (String.◌∷◌ c s) =
    let rest = split sep s in if code c == sep then String.[] ∷ rest else push c rest

-- s.split(sep, 1): what stands before the first separator, and what behind it, if there is one
unfoldable pub partition : ℕ → String → String × Option String
partition sep String.[] = (String.[], none)
partition sep (String.◌∷◌ c s) =
    let (before, after) = partition sep s in
    if code c == sep then (String.[], some s) else (String.◌∷◌ c before, after)

abbrev non_empty : List String → List String
non_empty [] = []
non_empty (String.[] ∷ ws) = non_empty ws
non_empty (String.◌∷◌ c w ∷ ws) = String.◌∷◌ c w ∷ non_empty ws

split_spaces : String → List String
split_spaces String.[] = String.[] ∷ []
split_spaces (String.◌∷◌ c s) =
    let rest = split_spaces s in if is_space c then String.[] ∷ rest else push c rest

-- s.split()
unfoldable pub words : String → List String
unfolding split_spaces
words s = non_empty (split_spaces s)

-- sep.join(parts)
unfoldable pub join : String → List String → String
join sep [] = String.[]
join sep (p ∷ []) = p
join sep (p ∷ q ∷ ps) = p ++ sep ++ join sep (q ∷ ps)

-- s.startswith(prefix)
unfoldable pub starts_with : String → String → Bool
starts_with s String.[] = true
starts_with String.[] (String.◌∷◌ d p) = false
starts_with (String.◌∷◌ c s) (String.◌∷◌ d p) = code c == code d && starts_with s p

-- The order of `sorted` on texts, by the numbers of their characters.
abbrev pub text_before : String → String → Bool
text_before s t = is_lt (compare s t)

abbrev pub one_of : List String → String → Bool
one_of [] s = false
one_of (t ∷ ts) s = str_eq s t || one_of ts s

strip_run : strip " \tNaranja " ≡ "Naranja"
unfolding strip strip_left strip_right
strip_run = refl

lower_run : lower "Naranja Ñ" ≡ "naranja Ñ"
unfolding lower
lower_run = refl

split_run : split b',' "a,,b" ≡ "a" ∷ "" ∷ "b" ∷ []
unfolding split
split_run = refl

words_run : words " a  b " ≡ "a" ∷ "b" ∷ []
unfolding words split_spaces
words_run = refl
