-- ===== src/Parsers/Effis.antt =====
-- app/core/effis/parser.py, from a JSON value on.
pub mod Vertices
pub mod Records
use Prim.Native.String.{String}
use geo_hazard.Base.{
  ℕ, Bool, true, false, not, ◌&&◌, ◌||◌, Option, none, some, List, [], ◌∷◌, map, str_eq, ◌&◌,
  one_of, or_default, if◌then◌else◌,
}
use geo_hazard.Base.Dict.{Dict, lookup}
use geo_hazard.Base.Json.{
  Json, null, bool, number, text, array, object, Items, nil, cons, at_key, as_text, items_of,
  fields_of, Fields, field, end,
}
use geo_hazard.Base.Floats.{Floats}
use geo_hazard.Sync.Effis.{EffisRecord, kind_hotspot, kind_burnt_area}
use geo_hazard.Parsers.{
  Parse, parsed, protocol_error, crashed, Entry, accepted, skipped, aborted, parse_entries,
}

-- What the parser calls: floats, `json.loads`, `str`, and `strptime` at UTC, `none` where they raise.
pub record EffisLibraries (F : Type 0) : Type 0 where
  pub floats : Floats F
  pub loads : String → Option (Json F)
  pub show : Json F → String
  pub moment : String → Option ℕ

module _ {F : Type 0} where
  abbrev pub with_part : Entry (Json F) → Entry (Items F) → Entry (Items F)
  with_part skipped rest = skipped
  with_part aborted rest = aborted
  with_part (accepted v) skipped = skipped
  with_part (accepted v) aborted = aborted
  with_part (accepted v) (accepted vs) = accepted (cons v vs)

  abbrev pub array_of : Entry (Items F) → Entry (Json F)
  array_of skipped = skipped
  array_of aborted = aborted
  array_of (accepted vs) = accepted (array vs)

module _ {F : Type 0} (fl : Floats F) where
  -- isinstance(v, int | float), with its value: a bool is an int.
  abbrev pub numeric : Json F → Option F
  numeric (number x) = some x
  numeric (bool true) = some (fl.tenths 10)
  numeric (bool false) = some (fl.tenths 0)
  numeric _ = none

  abbrev pub is_within : ℕ → F → Bool
  is_within limit x = fl.le (fl.minus (fl.tenths limit)) x && fl.le x (fl.tenths limit)

  -- Both are finite, and lat and lon are in their ranges.
  abbrev pub is_place : F → F → Bool
  is_place lat lon =
      fl.is_finite lat && fl.is_finite lon && (is_within 900 lat && is_within 1800 lon)

  -- A vertex [lat, lon] that becomes [lon, lat]; `second` is coords[1].
  abbrev pub vertex_with : Json F → F → Json F → Option F → Entry (Json F)
  vertex_with first lat second none = skipped
  vertex_with first lat second (some lon) =
      if is_place lat lon then accepted (array (cons second (cons first nil))) else skipped

  abbrev pub vertex : Json F → F → Items F → Entry (Json F)
  vertex first lat nil = skipped
  vertex first lat (cons second vs) = vertex_with first lat second (numeric second)

  abbrev pub pairs_with : Json F → Items F → Option F → Entry (Items F) → Entry (Json F)
  pairs_with v vs (some lat) parts = vertex v lat vs
  pairs_with v vs none parts = array_of parts

  -- `_swap_pairs`. What is not a list raises a TypeError or a KeyError, but a text that is not
  -- empty is a sequence of texts without end.
  unfoldable mutual
    pub swap_pairs : Json F → Entry (Json F)
    swap_pairs (text s) = if str_eq s "" then skipped else aborted
    swap_pairs (array nil) = skipped
    swap_pairs (array (cons v vs)) =
        pairs_with v vs (numeric v) (with_part (swap_pairs v) (swap_parts vs))
    swap_pairs null = skipped
    swap_pairs (bool b) = skipped
    swap_pairs (number x) = skipped
    swap_pairs (object fs) = skipped

    pub swap_parts : Items F → Entry (Items F)
    swap_parts nil = accepted nil
    swap_parts (cons v vs) = with_part (swap_pairs v) (swap_parts vs)

module _ {F : Type 0} where
  abbrev pub typed : Json F → Entry (Json F) → Entry (Json F)
  typed kind (accepted coordinates) =
      accepted (object (field "type" kind (field "coordinates" coordinates end)))
  typed kind skipped = skipped
  typed kind aborted = aborted

  -- properties.get(key, "")
  abbrev get_text : String → Json F → Json F
  get_text key properties = or_default (at_key key properties) (text "")

  abbrev pub is_of_types : List String → Json F → Bool
  is_of_types types (text s) = one_of types s
  is_of_types types _ = false

  -- What a chain of lookups gives, or an entry that is skipped.
  abbrev pub or_skip : {A : Type 0} → Option A → (A → Entry (EffisRecord F)) → Entry (EffisRecord F)
  or_skip none k = skipped
  or_skip (some a) k = k a

  -- The geometry first, which may abort, and then the rest.
  abbrev pub and_geometry :
      Entry (Json F) → (Json F → Entry (EffisRecord F)) → Entry (EffisRecord F)
  and_geometry aborted k = aborted
  and_geometry skipped k = skipped
  and_geometry (accepted g) k = k g

module _ {F : Type 0} (lib : EffisLibraries F) where
  -- `_swap_axes`
  unfoldable pub swap_axes : Json F → Entry (Json F)
  swap_axes geometry = elim (at_key "type" geometry) [
    | none ↦ skipped
    | some kind ↦ elim (at_key "coordinates" geometry) [
      | none ↦ skipped
      | some coordinates ↦ typed kind (swap_pairs lib.floats coordinates)
    ]
  ]

  -- `_parse_moment`, which raises a TypeError for what is no text.
  abbrev pub moment_of : Json F → Option ℕ
  moment_of (text s) = lib.moment s
  moment_of _ = none

  -- float(v)
  abbrev pub float_of : Json F → Option F
  float_of (text s) = lib.floats.read s
  float_of (number x) = some x
  float_of v = numeric lib.floats v

  abbrev pub area_of : Json F → Option F
  area_of v = elim (float_of v) [
    | none ↦ none
    | some a ↦
        if not (lib.floats.is_finite a) || lib.floats.lt a (lib.floats.tenths 0)
        then none
        else some a
  ]

  abbrev pub hotspot_of : Json F → Json F → Entry (EffisRecord F)
  hotspot_of properties geometry = or_skip (at_key "type" geometry) λ kind.
      if is_of_types ("Point" ∷ []) kind
      then (or_skip (at_key "id" properties) λ id. and_geometry (swap_axes geometry) λ swapped.
          or_skip (at_key "acq_at" properties) λ acq_at. or_skip (moment_of acq_at) λ at.
            accepted (record {
              external_id = "hs-" & lib.show id;
              kind = kind_hotspot;
              geometry = swapped;
              observed_at = at;
              area_ha = none;
              attrs =
                  ("product", text "all.hs")
                  ∷ ("class", get_text "CLASS" properties)
                  ∷ ("raw_acquired_at", acq_at)
                  ∷ [];
            }))
      else skipped

  abbrev pub burnt_area_of : Json F → Json F → Entry (EffisRecord F)
  burnt_area_of properties geometry = or_skip (at_key "type" geometry) λ kind.
      if is_of_types ("Polygon" ∷ "MultiPolygon" ∷ []) kind
      then (or_skip (at_key "area" properties) λ area. or_skip (area_of area) λ area_ha.
          or_skip (at_key "fire_id" properties) λ fire_id.
            and_geometry (swap_axes geometry) λ swapped.
              or_skip (at_key "initialdate" properties) λ initialdate.
                or_skip (moment_of initialdate) λ at. accepted (record {
                  external_id = "ba-" & lib.show fire_id;
                  kind = kind_burnt_area;
                  geometry = swapped;
                  observed_at = at;
                  area_ha = some area_ha;
                  attrs =
                      ("product", text "nrt.ba")
                      ∷ ("fire_id", text (lib.show fire_id))
                      ∷ ("raw_initialdate", initialdate)
                      ∷ ("raw_finaldate", get_text "finaldate" properties)
                      ∷ [];
                }))
      else skipped

  -- `_parse_feature`
  unfoldable pub parse_feature : String → Json F → Entry (EffisRecord F)
  parse_feature kind feature = or_skip (at_key "properties" feature) λ properties.
      or_skip (at_key "geometry" feature) λ geometry.
        if str_eq kind kind_hotspot
        then hotspot_of properties geometry
        else burnt_area_of properties geometry

  abbrev chars_of : String → List (Json F)
  chars_of String.[] = []
  chars_of (String.◌∷◌ c s) = text (String.◌∷◌ c String.[]) ∷ chars_of s

  -- What the loop runs over: the keys of an object, the characters of a text, and a TypeError for
  -- what is no sequence.
  abbrev pub sequence_of : Json F → Option (List (Json F))
  sequence_of (array vs) = some (items_of vs)
  sequence_of (text s) = some (chars_of s)
  sequence_of (object fs) = some (map (λ e. text e.0) (fields_of fs))
  sequence_of _ = none

  abbrev pub features_of : Option (Json F) → Option (Json F)
  features_of none = none
  features_of (some document) = at_key "features" document

  abbrev pub parse_features : String → Option (List (Json F)) → Parse (List (EffisRecord F))
  parse_features kind none = crashed
  parse_features kind (some features) =
      parse_entries "none of the EFFIS features were parseable" (parse_feature kind) features

  -- `_parse`, with `parse_hotspots` and `parse_burnt_areas` for the two kinds
  unfoldable pub parse : String → String → Parse (List (EffisRecord F))
  parse kind payload = elim (features_of (lib.loads payload)) [
    | none ↦ protocol_error "unparseable EFFIS WFS response"
    | some features ↦ parse_features kind (sequence_of features)
  ]

  unfoldable pub parse_hotspots : String → Parse (List (EffisRecord F))
  parse_hotspots payload = parse kind_hotspot payload

  unfoldable pub parse_burnt_areas : String → Parse (List (EffisRecord F))
  parse_burnt_areas payload = parse kind_burnt_area payload
