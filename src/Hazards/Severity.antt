-- ===== src/Hazards/Severity.antt =====
-- app/hazards/services/severity.py: the common scale from 1 to 4. `none` is a ValueError.
pub mod Laws
use geo_hazard.Base.{
  ℕ, String, Bool, true, false, Option, none, some, List, [], ◌∷◌, str_eq, if◌then◌else◌, strip,
  lower,
}
use geo_hazard.Base.Dict.{Dict, lookup}
use geo_hazard.Base.Floats.{Floats}

abbrev pub aemet_levels : Dict ℕ
aemet_levels = ("verde", 1) ∷ ("amarillo", 2) ∷ ("naranja", 3) ∷ ("rojo", 4) ∷ []

-- _AEMET_LEVELS[nivel.strip().lower()]
unfoldable pub aemet_severity : String → Option ℕ
aemet_severity nivel = lookup (lower (strip nivel)) aemet_levels

module _ {F : Type 0} (fl : Floats F) where
  -- The thresholds of hectares and of magnitudes, in falling order.
  abbrev pub burnt_area_thresholds : List (F × ℕ)
  burnt_area_thresholds = (fl.tenths 50000, 4) ∷ (fl.tenths 5000, 3) ∷ []

  abbrev pub ign_magnitude_thresholds : List (F × ℕ)
  ign_magnitude_thresholds = (fl.tenths 55, 4) ∷ (fl.tenths 40, 3) ∷ (fl.tenths 30, 2) ∷ []

  -- The level of the first threshold that the value reaches, or the one of the end of the loop.
  unfoldable pub first_level : List (F × ℕ) → ℕ → F → ℕ
  first_level [] least x = least
  first_level ((threshold, level) ∷ rest) least x =
      let below = first_level rest least x in if fl.le threshold x then level else below

  abbrev area_severity : Option F → ℕ
  area_severity none = 2
  area_severity (some area_ha) = first_level burnt_area_thresholds 2 area_ha

  unfoldable pub effis_severity : String → Option F → Option ℕ
  unfolding first_level
  effis_severity kind area_ha =
      if str_eq kind "hotspot"
      then some 2
      else if str_eq kind "burnt_area"
      then some (area_severity area_ha)
      else none

  unfoldable pub ign_severity : F → ℕ
  unfolding first_level
  ign_severity magnitude = first_level ign_magnitude_thresholds 1 magnitude
