-- ===== src/Hazards/Severity/Laws.antt =====
-- The scale has its bounds, and a greater magnitude or area never has a lower level.
use geo_hazard.Base.{ℕ, ◌≤◌, String, ◌≡◌, true, Option, none, some, arith}
use geo_hazard.Base.Dict.{lookup}
use geo_hazard.Base.Floats.{Floats, IsTransitive}
use geo_hazard.Hazards.Severity.{
  aemet_severity, first_level, area_severity, effis_severity, ign_severity,
}

-- severity BETWEEN 1 AND 4
abbrev pub InRange : ℕ → Type 0
InRange n = (1 ≤ n) × (n ≤ 4)

pub aemet_severity-InRange : (nivel : String) {n : ℕ} → aemet_severity nivel ≡ some n → InRange n
unfolding aemet_severity lookup
aemet_severity-InRange nivel {n} h = ground (arith, h)

module _ {F : Type 0} (fl : Floats F) where
  pub ign_severity-InRange : (m : F) → InRange (ign_severity fl m)
  unfolding ign_severity first_level
  ign_severity-InRange m = ground arith

  area_severity-InRange : (a : Option F) → InRange (area_severity fl a)
  unfolding area_severity first_level
  area_severity-InRange none = omega arith
  area_severity-InRange (some a) = ground arith

  pub effis_severity-InRange :
      (kind : String) (area_ha : Option F) {n : ℕ}
      → effis_severity fl kind area_ha ≡ some n
      → InRange n
  unfolding effis_severity
  effis_severity-InRange kind area_ha {n} h = ground (arith, h, area_severity-InRange area_ha)

  -- A stronger earthquake has no lower level.
  pub ign_severity_mono :
      IsTransitive fl → (m n : F) → fl.le m n ≡ true → ign_severity fl m ≤ ign_severity fl n
  unfolding ign_severity first_level
  ign_severity_mono tr m n h = ground (
    arith,
    h,
    tr.le_trans (fl.tenths 55) m n,
    tr.le_trans (fl.tenths 40) m n,
    tr.le_trans (fl.tenths 30) m n,
  )
