-- ===== src/Base/Text.antt =====
-- Slices of texts by characters, as Python slices a `str`, and points in time.
use Prim.Native.Nat.{ℕ, zero, suc, ◌-◌, ◌+◌, ◌*◌, ◌≤◌}
use Prim.Native.String.{String, ◌++◌}
use native.Mathlib.Omega.{arith}
use mathlib.Core.Path.{◌≡◌, ap, ◌∙◌}
use text.Mathlib.TextLemmas.{nil-append, cons-append}

-- len(s)
abbrev pub chars : String → ℕ
chars String.[] = 0
chars (String.◌∷◌ c s) = suc (chars s)

-- s[:n]
unfoldable pub first_chars : ℕ → String → String
first_chars zero s = String.[]
first_chars (suc n) String.[] = String.[]
first_chars (suc n) (String.◌∷◌ c s) = String.◌∷◌ c (first_chars n s)

drop_chars : ℕ → String → String
drop_chars zero s = s
drop_chars (suc n) String.[] = String.[]
drop_chars (suc n) (String.◌∷◌ c s) = drop_chars n s

-- s[-n:]
unfoldable pub last_chars : ℕ → String → String
unfolding drop_chars
last_chars n s = drop_chars (chars s - n) s

infixr 65 ◌&◌
abbrev pub ◌&◌ : String → String → String
s & t = s ++ t

-- Times and spans count microseconds, as `datetime` and `timedelta` do.
abbrev pub seconds : ℕ → ℕ
seconds n = n * 1000000

pub chars-first_chars : (n : ℕ) (s : String) → chars (first_chars n s) ≤ n
unfolding first_chars
chars-first_chars zero s = omega arith
chars-first_chars (suc n) String.[] = omega arith
chars-first_chars (suc n) (String.◌∷◌ c s) = omega (arith, chars-first_chars n s)

chars-drop_chars : (n : ℕ) (s : String) → chars (drop_chars n s) ≤ chars s - n
unfolding drop_chars
chars-drop_chars zero s = omega arith
chars-drop_chars (suc n) String.[] = omega arith
chars-drop_chars (suc n) (String.◌∷◌ c s) = omega (arith, chars-drop_chars n s)

pub chars-last_chars : (n : ℕ) (s : String) → chars (last_chars n s) ≤ n
unfolding last_chars
chars-last_chars n s = omega (arith, chars-drop_chars (chars s - n) s)

pub chars-append : (s t : String) → chars (s & t) ≡ chars s + chars t
chars-append String.[] t = ap chars (nil-append t) ∙ omega arith
chars-append (String.◌∷◌ c s) t = ap chars (cons-append c s t) ∙ omega (arith, chars-append s t)
