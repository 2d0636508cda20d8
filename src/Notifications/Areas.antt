-- ===== src/Notifications/Areas.antt =====
-- app/notifications/services/areas.py, with `validate_bbox` and `parse_bbox` of
-- app/hazards/services/geometry.py. The error is the text of the ValueError.
pub mod Bounds
use Prim.Native.Char.{Char, code}
use Prim.Native.String.{String}
use geo_hazard.Base.{
  ℕ, ◌*◌, Bool, true, false, ◌&&◌, Option, none, some, List, [], ◌∷◌, ltb, leb, ◌==◌, length,
  if◌then◌else◌, split,
}
use geo_hazard.Base.Floats.{Floats}
use geo_hazard.Base.Results.{Result, error, ok, and_then}

abbrev pub min_radius_m : ℕ
min_radius_m = 1000

abbrev pub max_radius_m : ℕ
max_radius_m = 200000

pub data AreaSpec (F : Type 0) : Type 0 where
  province : String → AreaSpec F
  bbox : F → F → F → F → AreaSpec F
  circle : F → F → ℕ → AreaSpec F

abbrev is_digit : Char → Bool
is_digit c = leb 48 (code c) && leb (code c) 57

-- `$` stands at the end, and in front of a line feed at the end.
abbrev is_end : String → Bool
is_end String.[] = true
is_end (String.◌∷◌ c String.[]) = code c == 10
is_end _ = false

-- ^[0-9]{2}$
abbrev pub is_province_code : String → Bool
is_province_code (String.◌∷◌ c (String.◌∷◌ d s)) = is_digit c && is_digit d && is_end s
is_province_code _ = false

-- The error of `float`, without the text that it names.
abbrev not_a_float : String
not_a_float = "could not convert string to float"

module _ {F : Type 0} where
  unfoldable pub province_area : String → Result String (AreaSpec F)
  province_area code =
      if is_province_code code
      then ok (province code)
      else error "province code must be two INE digits, e.g. '30'"

module _ {F : Type 0} (fl : Floats F) where
  -- low <= a < b <= high
  abbrev pub is_span : F → F → F → F → Bool
  is_span low high a b = fl.le low a && fl.lt a b && fl.le b high

  abbrev pub degrees : ℕ → F
  degrees n = fl.tenths (n * 10)

  unfoldable pub validate_bbox : F → F → F → F → Result String (F × F × F × F)
  validate_bbox min_lon min_lat max_lon max_lat =
      if is_span (fl.minus (degrees 180)) (degrees 180) min_lon max_lon
      then if is_span (fl.minus (degrees 90)) (degrees 90) min_lat max_lat
        then ok (min_lon, min_lat, max_lon, max_lat)
        else error "bbox latitudes must satisfy -90 <= min < max <= 90"
      else error "bbox longitudes must satisfy -180 <= min < max <= 180"

  -- [float(p) for p in parts]
  unfoldable pub read_all : List String → Option (List F)
  read_all [] = some []
  read_all (p ∷ ps) =
      let rest = read_all ps in
      elim (fl.read p) [
        | none ↦ none
        | some x ↦ elim rest [ none ↦ none | some xs ↦ some (x ∷ xs) ]
      ]

  abbrev pub box_of : Option (List F) → Result String (F × F × F × F)
  box_of (some (a ∷ b ∷ c ∷ d ∷ [])) = validate_bbox a b c d
  box_of _ = error not_a_float

  -- `parse_bbox`, of a text that is there
  unfoldable pub parse_bbox : String → Result String (F × F × F × F)
  parse_bbox raw =
      let parts = split b',' raw in
      if length parts == 4
      then box_of (read_all parts)
      else error "bbox must be 'minLon,minLat,maxLon,maxLat'"

  unfoldable pub bbox_area : String → Result String (AreaSpec F)
  bbox_area raw = and_then (parse_bbox raw) (λ b. ok (bbox b.0 b.1 b.2 b.3))

  abbrev pub is_coordinate : ℕ → F → Bool
  is_coordinate limit x =
      fl.is_finite x && fl.le (fl.minus (degrees limit)) x && fl.le x (degrees limit)

  -- A radius that is in its bounds; `none` stands for a negative one.
  abbrev pub circle_with : F → F → Option ℕ → Result String (AreaSpec F)
  circle_with lon lat none = error "circle radius must be between 1 and 200 km"
  circle_with lon lat (some radius_m) =
      if leb min_radius_m radius_m && leb radius_m max_radius_m
      then ok (circle lon lat radius_m)
      else error "circle radius must be between 1 and 200 km"

  -- `metres` is round(km * 1000), `none` for a negative number.
  abbrev pub circle_of : (F → Option ℕ) → Option (List F) → Result String (AreaSpec F)
  circle_of metres (some (lon ∷ lat ∷ km ∷ [])) =
      if is_coordinate 180 lon && is_coordinate 90 lat
      then circle_with lon lat (if fl.is_finite km then metres km else none)
      else error "circle center must be a valid WGS84 lon,lat"
  circle_of metres _ = error not_a_float

  unfoldable pub circle_area : (F → Option ℕ) → String → Result String (AreaSpec F)
  circle_area metres raw =
      let parts = split b',' raw in
      if length parts == 3
      then circle_of metres (read_all parts)
      else error "circle must be 'lon,lat,km'"

  -- `_area` of app/notifications/cli.py, of the options --province, --bbox and --circle.
  unfoldable pub area_of :
      (F → Option ℕ) → Option String → Option String → String → Result String (AreaSpec F)
  area_of metres (some code) _ _ = province_area code
  area_of metres none (some raw) _ = bbox_area raw
  area_of metres none none raw = circle_area metres raw
