-- ===== src/Base/Floats.antt =====
-- What the program does with a `float`: literals, comparisons, the test for a finite value, and
-- the reading of a text. A NaN is a value that no comparison holds of.
use Prim.Native.Nat.{ℕ}
use Prim.Native.String.{String}
use mathlib.Core.Bool.{Bool, true}
use mathlib.Core.Option.{Option}
use mathlib.Core.Path.{◌≡◌}

pub record Floats (F : Type 0) : Type 0 where
  -- the literal n / 10, and its negative
  pub tenths : ℕ → F
  pub minus : F → F
  pub le : F → F → Bool
  pub lt : F → F → Bool
  pub is_finite : F → Bool
  -- float(s), `none` where it raises
  pub read : String → Option F

-- Comparison is transitive, away from NaN and with it.
pub record IsTransitive {F : Type 0} (fl : Floats F) : Type 0 where
  pub le_trans : (a b c : F) → fl.le a b ≡ true → fl.le b c ≡ true → fl.le a c ≡ true
