-- ===== src/Parsers/Tests.antt =====
-- The theorems on EFFIS feeds at a point and a malformed feature, and at a polygon, and on a feed
-- of the IGN with one item.
use Prim.Native.String.{String}
use geo_hazard.Base.{
  ℕ, ◌≡◌, refl, true, none, some, List, [], ◌∷◌, All, ltb, leb, if◌then◌else◌, str_eq, ◌&◌, ◌++◌,
}
use geo_hazard.Base.Json.{
  Json, null, number, text, array, object, nil, cons, Fields, field, end, at_key,
}
use geo_hazard.Base.Dict.{lookup}
use geo_hazard.Base.Floats.{Floats}
use geo_hazard.Sync.Effis.{EffisRecord, kind_hotspot, kind_burnt_area}
use geo_hazard.Parsers.{parsed, crashed, entries, parse_entries}
use geo_hazard.Base.Query.{select_where, first_where}
use geo_hazard.Parsers.Xml.{Element, element, no_child, child, findall, find, findtext, findall_in}
use geo_hazard.Parsers.Ign.{IgnLibraries, Description, geo_ns, parse_georss}
use geo_hazard.Parsers.Ign.Malformed.{HasParts, parse_georss-crashed}
use geo_hazard.Parsers.Effis.{
  EffisLibraries, swap_pairs, swap_axes, parse_feature, parse, parse_hotspots, parse_burnt_areas,
}
use geo_hazard.Parsers.Effis.Records.{IsSound, parse-IsSound}

abbrev floats : Floats ℕ
floats = record {
  tenths = λ n. n;
  minus = λ a. 0;
  le = leb;
  lt = ltb;
  is_finite = λ a. true;
  read = λ s. some 12;
}

abbrev pair : ℕ → ℕ → Json ℕ
pair a b = array (cons (number a) (cons (number b) nil))

abbrev feature : Fields ℕ → Json ℕ → Json ℕ
feature properties geometry =
    object (field "properties" (object properties) (field "geometry" geometry end))

abbrev geometry : String → Json ℕ → Json ℕ
geometry kind coordinates = object (field "type" (text kind) (field "coordinates" coordinates end))

abbrev point : Json ℕ
point =
    feature (field "id" (number 7) (field "acq_at" (text "2026-07-04 10:00:00") end))
      (geometry "Point" (pair 370 50))

abbrev polygon : Json ℕ
polygon =
    feature
      (field "area" (text "1.2")
        (field "fire_id" (number 9) (field "initialdate" (text "2026-07-04 10:00:00") end)))
      (geometry "Polygon" (array (cons (array (cons (pair 370 50) (cons (pair 371 51) nil))) nil)))

abbrev document : List (Json ℕ) → Json ℕ
document [] = object (field "features" (array nil) end)
document (v ∷ []) = object (field "features" (array (cons v nil)) end)
document (v ∷ w ∷ vs) = object (field "features" (array (cons v (cons w nil))) end)

abbrev lib : EffisLibraries ℕ
lib = record {
  floats = floats;
  loads = λ s.
      some (if str_eq s "hotspots" then document (point ∷ null ∷ []) else document (polygon ∷ []));
  show = λ v. "7";
  moment = λ s. some 100;
}

abbrev hotspot : EffisRecord ℕ
hotspot = record {
  external_id = "hs-7";
  kind = kind_hotspot;
  geometry = geometry "Point" (pair 50 370);
  observed_at = 100;
  area_ha = none;
  attrs =
      ("product", text "all.hs")
      ∷ ("class", text "")
      ∷ ("raw_acquired_at", text "2026-07-04 10:00:00")
      ∷ [];
}

abbrev burnt_area : EffisRecord ℕ
burnt_area = record {
  external_id = "ba-7";
  kind = kind_burnt_area;
  geometry =
      geometry "Polygon" (array (cons (array (cons (pair 50 370) (cons (pair 51 371) nil))) nil));
  observed_at = 100;
  area_ha = some 12;
  attrs =
      ("product", text "nrt.ba")
      ∷ ("fire_id", text "7")
      ∷ ("raw_initialdate", text "2026-07-04 10:00:00")
      ∷ ("raw_finaldate", text "")
      ∷ [];
}

-- The malformed feature is skipped.
hotspots_run : parse_hotspots lib "hotspots" ≡ parsed (hotspot ∷ [])
unfolding parse_hotspots parse parse_entries entries parse_feature swap_axes swap_pairs at_key
    lookup
hotspots_run = refl

burnt_areas_run : parse_burnt_areas lib "areas" ≡ parsed (burnt_area ∷ [])
unfolding parse_burnt_areas parse parse_entries entries parse_feature swap_axes swap_pairs at_key
    lookup
burnt_areas_run = refl

parse-IsSound_example :
    All (IsSound lib kind_hotspot) (hotspot ∷ [])
    × All (IsSound lib kind_burnt_area) (burnt_area ∷ [])
parse-IsSound_example = parse-IsSound lib "hotspots" "areas" hotspots_run burnt_areas_run

-- Coordinates that are a text raise an exception that the parser does not expect.
text_coordinates_run :
    parse_entries "none"
      (parse_feature lib kind_hotspot)
      (feature (field "id" (number 7) end) (geometry "Point" (text "37,5")) ∷ point ∷ [])
    ≡ crashed
unfolding parse_entries entries parse_feature swap_axes swap_pairs at_key lookup
text_coordinates_run = refl

abbrev leaf : String → String → Element
leaf name s = element name s no_child

abbrev item : Element
item = element "item" "" (
    child (leaf "guid" "https://ign.es/?evid=es1") (
      child (leaf (geo_ns & "lat") "x") (
        child (leaf (geo_ns & "long") "4.5")
          (child (leaf "description" "terremoto de magnitud 3.5") no_child))))

abbrev feed : Element
feed = element "rss" "" (child (element "channel" "" (child item no_child)) no_child)

abbrev description : Description
description = record { magnitude = "3.5"; region = "GOLFO"; moment = "02/07/2026 7:06:37" }

abbrev ign_lib : IgnLibraries ℕ
ign_lib = record {
  floats = record floats { read = λ s. if str_eq s "x" then none else some 12 };
  fromstring = λ s. some feed;
  evid = λ s. "es1";
  search = λ s. some description;
  madrid = λ s. some 100;
}

items_run : findall_in "item" (findall "channel" feed) ≡ [] ++ item ∷ []
unfolding findall_in findall select_where
items_run = refl

item-HasParts : HasParts ign_lib item "x" "4.5"
unfolding findtext find first_where
item-HasParts = ("es1", description, refl, refl, refl, refl)

parse_georss-crashed_example : parse_georss ign_lib "feed" ≡ crashed
parse_georss-crashed_example =
    parse_georss-crashed ign_lib "feed" feed [] item [] "x" "4.5" refl items_run item-HasParts refl
