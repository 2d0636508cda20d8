-- ===== src/Notifications/Texts.antt =====
-- app/notifications/services/texts.py, on features in the form in which the matching stores them:
-- their values are texts, numbers and objects where those are read, or missing, and their times can
-- be read. What the code raises on other features is not modelled. Local time is an argument.
use geo_hazard.Base.{
  ℕ, zero, suc, ◌-◌, String, true, false, Option, none, some, List, [], ◌∷◌, map, str_eq, ◌&◌,
  decimal, join, partition, strip, lower, or_default, if◌then◌else◌,
}
use geo_hazard.Base.Dict.{Dict, lookup}
use geo_hazard.Base.Json.{Json, bool, number, text, array, object, cons, fields_of}
use geo_hazard.Base.Floats.{Floats}
use geo_hazard.Hazards.Model.{Attrs}

pub data Zone : Type 0 where
  peninsula canarias : Zone

-- A time in a zone: the weekday and the month by their numbers, the day, and "HH:MM".
pub record Moment : Type 0 where
  pub weekday : ℕ
  pub day : ℕ
  pub month : ℕ
  pub hour_minute : String

abbrev pub notice : String
notice =
    "No es un aviso oficial. Consulta AEMET y, ante una emergencia, llama al 112 (los avisos oficiales llegan por ES-Alert)."

abbrev pub source_names : Dict String
source_names = ("aemet", "AEMET") ∷ ("ign", "IGN") ∷ ("effis", "EFFIS") ∷ []

abbrev weekdays : List String
weekdays = "lun" ∷ "mar" ∷ "mie" ∷ "jue" ∷ "vie" ∷ "sab" ∷ "dom" ∷ []

abbrev months : List String
months =
    "ene" ∷ "feb" ∷ "mar" ∷ "abr" ∷ "may" ∷ "jun" ∷ "jul" ∷ "ago" ∷ "sep" ∷ "oct" ∷ "nov" ∷ "dic"
    ∷ []

-- The entry of a number that is in range.
abbrev entry : List String → ℕ → String
entry [] n = ""
entry (x ∷ xs) zero = x
entry (x ∷ xs) (suc n) = entry xs n

module _ {F : Type 0} where
  -- value or {}: the value is an object or missing, as `_feature` writes it.
  abbrev pub dict_of : Option (Json F) → Attrs F
  dict_of (some (object fs)) = fields_of fs
  dict_of _ = []

  -- A text that is not empty; the values read so are texts or missing.
  abbrev pub text_of : Option (Json F) → Option String
  text_of (some (text s)) = if str_eq s "" then none else some s
  text_of _ = none

module _ {F : Type 0} (fl : Floats F) where
  -- `_first_lon`
  unfoldable pub first_lon : Json F → Option F
  first_lon (array (cons (number x) vs)) = some x
  first_lon (array (cons (bool true) vs)) = some (fl.tenths 10)
  first_lon (array (cons (bool false) vs)) = some (fl.tenths 0)
  first_lon (array (cons v vs)) = first_lon v
  first_lon _ = none

  abbrev lon_of : Option (Json F) → Option F
  lon_of none = none
  lon_of (some coordinates) = first_lon coordinates

  abbrev zone_at : Option F → Zone
  zone_at none = peninsula
  zone_at (some lon) = if fl.lt lon (fl.minus (fl.tenths 130)) then canarias else peninsula

  unfoldable pub zone_for : Attrs F → Zone
  zone_for feature = zone_at (lon_of (lookup "coordinates" (dict_of (lookup "geometry" feature))))

unfoldable pub when : (String → Zone → Moment) → Option String → Zone → String
when local none zone = "?"
when local (some raw) zone =
    let m = local raw zone in
    entry weekdays m.weekday
    & " "
    & decimal m.day
    & " "
    & entry months (m.month - 1)
    & " "
    & m.hour_minute

-- raw.split(";", 1)[-1]
abbrev last_part : String × Option String → String
last_part (before, none) = before
last_part (before, some after) = after

unfoldable pub phenomenon_name : Option String → String
phenomenon_name none = "fenomeno desconocido"
phenomenon_name (some raw) =
    let name = lower (strip (last_part (partition b';' raw))) in
    if str_eq name "" then raw else name

unfoldable pub degraded_note : List String → String
degraded_note sources =
    "Ojo: sin datos recientes de "
    & join ", " (map (λ s. or_default (lookup s source_names) s) sources)
    & "; puede haber avisos que no han llegado."

unfoldable pub and_more : ℕ → String
and_more count = "y " & decimal count & " mas"
