-- ===== src/Notifications/Episodes/Keys.antt =====
-- `episode_key` of app/notifications/services/episodes.py. `show` is Python's `str` of a JSON value
-- and `is_zero` its test for the number 0.
use Prim.Native.String.{String}
use geo_hazard.Base.{
  Bool, true, false, not, Option, none, some, str_eq, ◌&◌, strip, strip_left, strip_right,
  partition, [], ◌∷◌, ◌≡◌, refl, if◌then◌else◌,
}
use geo_hazard.Base.Dict.{lookup}
use geo_hazard.Base.Json.{Json, null, bool, number, text, array, object, nil, cons, end, field}
use geo_hazard.Hazards.Model.{Source, ign, aemet, Attrs}
use geo_hazard.Sync.{source_name}

module _ {F : Type 0} (is_zero : F → Bool) (show : Json F → String) where
  -- bool(v)
  abbrev is_true : Json F → Bool
  is_true null = false
  is_true (bool b) = b
  is_true (number x) = not (is_zero x)
  is_true (text s) = not (str_eq s "")
  is_true (array nil) = false
  is_true (array (cons v vs)) = true
  is_true (object end) = false
  is_true (object (field k v fs)) = true

  -- v or default, of a value that may be missing
  abbrev or_value : Option (Json F) → Json F → Json F
  or_value none default = default
  or_value (some v) default = if is_true v then v else default

  -- The phenomenon, which is the part of the text before the first ';'.
  abbrev phenomenon_of : Attrs F → String
  phenomenon_of attrs =
      let raw =
        or_value (lookup "phenomenon" attrs)
          (or_value (lookup "event" attrs) (text "desconocido")) in
      strip (partition b';' (show raw)).0

  pub episode_key : Source → String → Attrs F → String
  episode_key aemet external_id attrs = "aemet:" & phenomenon_of attrs
  episode_key source external_id attrs = source_name source & ":" & external_id

abbrev shown : Json Bool → String
shown (text s) = s
shown _ = "?"

-- The code before the separator, and the word for a warning that names nothing.
episode_key_run :
    (episode_key not shown aemet "w1" (("phenomenon", text "VI;Viento") ∷ []) ≡ "aemet:VI")
    × (episode_key not shown aemet "w1" (("phenomenon", text "") ∷ []) ≡ "aemet:desconocido")
    × (episode_key not shown ign "es1" [] ≡ "ign:es1")
unfolding episode_key lookup strip strip_left strip_right partition
episode_key_run = (refl, refl, refl)
