-- ===== src/Base/Results.antt =====
-- A value or the error that was raised in its place.
use mathlib.Core.Option.{Option, none, some}
use mathlib.Core.Bool.{Bool, true, false}
use mathlib.Core.Path.{◌≡◌, refl, ap}
use geo_hazard.Base.Tests.{if◌then◌else◌}

pub data Result {ℓ κ} (E : Type ℓ) (A : Type κ) : Type (ℓ ⊔ κ) where
  error : E → Result E A
  ok : A → Result E A

module _ {ℓ κ μ} {E : Type ℓ} {A : Type κ} {B : Type μ} where
  abbrev pub and_then : Result E A → (A → Result E B) → Result E B
  and_then (error e) f = error e
  and_then (ok a) f = f a

module _ {ℓ κ} {E : Type ℓ} {A : Type κ} where
  -- the value, or the error that is raised without one
  abbrev pub or_raise : E → Option A → Result E A
  or_raise e none = error e
  or_raise e (some a) = ok a

pub error_ne_ok {ℓ κ} :
    {E : Type ℓ} {A : Type κ} {e : E} {a : A} → ◌≡◌ {A = Result E A} (error e) (ok a) → ⊥
error_ne_ok h = cc

pub ok_inj {ℓ κ} : {E : Type ℓ} {A : Type κ} {a b : A} → ◌≡◌ {A = Result E A} (ok a) (ok b) → a ≡ b
ok_inj h = cc

module _ {ℓ κ} {E : Type ℓ} {A : Type κ} where
  -- What a guard has let through.
  pub guard_parts :
      (b : Bool) (r : Result E A) (e : E) {a : A}
      → (if b then r else error e) ≡ ok a
      → (b ≡ true) × (r ≡ ok a)
  guard_parts true r e h = (refl, h)
  guard_parts false r e h = absurd (error_ne_ok h)

  pub raise_parts : (e : E) (o : Option A) {a : A} → or_raise e o ≡ ok a → o ≡ some a
  raise_parts e none h = absurd (error_ne_ok h)
  raise_parts e (some b) h = ap some (ok_inj h)

module _ {ℓ κ μ} {E : Type ℓ} {A : Type κ} {B : Type μ} where
  pub and_then_parts :
      (r : Result E A) (f : A → Result E B) {b : B}
      → and_then r f ≡ ok b
      → (a : A) × (r ≡ ok a) × (f a ≡ ok b)
  and_then_parts (error e) f h = absurd (error_ne_ok h)
  and_then_parts (ok a) f h = (a, refl, h)
