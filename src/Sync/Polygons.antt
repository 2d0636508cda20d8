-- ===== src/Sync/Polygons.antt =====
-- `cap_polygon_to_wkb` of app/hazards/services/geometry.py.
use geo_hazard.Base.{
  String, Option, none, some, List, [], ◌∷◌, length, ltb, str_eq, if◌then◌else◌, words, partition,
}
use geo_hazard.Sync.{Libraries}

module _ {G F : Type 0} (lib : Libraries G F) where
  -- One vertex "lat,lon" as (lon, lat); `none` where it raises.
  abbrev vertex : String → Option (F × F)
  vertex pair =
      let (lat, rest) = partition b',' pair in
      elim rest [
        | none ↦ none
        | some lon ↦ if str_eq lon "" then none else elim (lib.floats.read lon) [
          | none ↦ none
          | some x ↦ elim (lib.floats.read lat) [ none ↦ none | some y ↦ some (x, y) ]
        ]
      ]

  pub vertices : List String → Option (List (F × F))
  vertices [] = some []
  vertices (p ∷ ps) =
      let rest = vertices ps in
      elim (vertex p) [ none ↦ none | some v ↦ elim rest [ none ↦ none | some vs ↦ some (v ∷ vs) ] ]

  abbrev ring : List (F × F) → Option G
  ring points =
      let geom = lib.polygon points in
      let repaired = if lib.is_valid geom then geom else lib.make_valid geom in
      if ltb (length points) 4 then none else if lib.is_empty repaired then none else some repaired

  pub cap_polygon_to_wkb : String → Option G
  unfolding vertices
  cap_polygon_to_wkb polygon = elim (vertices (words polygon)) [ none ↦ none | some ps ↦ ring ps ]
