-- ===== src/Base/Decimal.antt =====
-- Python's `str` of an `int` that is not negative, and the tests `in` and `rstrip` on texts.
use Prim.Native.Char.{Char, code}
use Prim.Native.Nat.{ℕ, zero, suc, ◌+◌, ◌/◌, ◌%◌}
use Prim.Native.String.{String, ◌++◌, char_at}
use mathlib.Core.Bool.{Bool, true, ◌||◌}
use mathlib.Core.Path.{◌≡◌, refl}
use geo_hazard.Base.Tests.{if◌then◌else◌, ltb, ◌==◌, str_eq}
use geo_hazard.Base.Words.{starts_with}

abbrev digit : ℕ → String
digit n = String.◌∷◌ (char_at "0123456789" (n % 10)) String.[]

-- The digits of a number that is below 2 to the power of the fuel.
abbrev digits : ℕ → ℕ → String
digits zero n = ""
digits (suc fuel) n =
    let higher = digits fuel (n / 10) in if ltb n 10 then digit n else higher ++ digit n

-- str(n)
unfoldable pub decimal : ℕ → String
decimal n = digits (n + 1) n

-- part in s
unfoldable pub contains : String → String → Bool
contains String.[] part = str_eq part ""
contains (String.◌∷◌ c s) part = starts_with (String.◌∷◌ c s) part || contains s part

-- s.rstrip(c), for a character given by its number
abbrev keep_end : ℕ → Char → String → String
keep_end n c String.[] = if code c == n then String.[] else String.◌∷◌ c String.[]
keep_end n c (String.◌∷◌ d s) = String.◌∷◌ c (String.◌∷◌ d s)

unfoldable pub strip_end : ℕ → String → String
strip_end n String.[] = String.[]
strip_end n (String.◌∷◌ c s) = keep_end n c (strip_end n s)

decimal_run : decimal 4096 ≡ "4096"
unfolding decimal
decimal_run = refl

contains_run : contains "<a>Error</a>" "Error" ≡ true
unfolding contains starts_with
contains_run = refl

strip_end_run : strip_end b'/' "a/b//" ≡ "a/b"
unfolding strip_end
strip_end_run = refl
