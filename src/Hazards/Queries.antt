-- ===== src/Hazards/Queries.antt =====
-- The queries of the events that the API serves: app/hazards/use_cases/list_events.py here, and
-- near_events.py and cluster_events.py of the same folder below. What PostGIS and Shapely do is an
-- argument.
pub mod Pagination
pub mod Walk
pub mod Near
pub mod Clusters
pub mod Routes
mod Tests
use geo_hazard.Base.{
  ℕ, String, Bool, Option, none, some, List, [], ◌∷◌, ◌++◌, map, length, ◌==◌, ◌&◌,
}
use geo_hazard.Base.Query.{first_where}
use geo_hazard.Base.Json.{Json}
use geo_hazard.Base.Traverse.{all_of}
use geo_hazard.Base.Results.{Result, error, ok, and_then}
use geo_hazard.Base.Floats.{Floats}
use geo_hazard.Hazards.Model.{Source, HazardType, HazardEvent, EventTable, Attrs}
use geo_hazard.Hazards.Attribution.{SourceAttribution, attributions_for}
use geo_hazard.Hazards.Pages.{Filters, Cursor, is_listed, list_page}
use geo_hazard.Hazards.Queries.Pagination.{
  CursorLibraries, Decoded, decoded, invalid_cursor, unexpected, encode_cursor, decode_cursor,
}
use geo_hazard.Notifications.Areas.{parse_bbox}
use geo_hazard.Sync.{source_name}
use mathlib.Core.Option

-- What a use case raises: an error of the domain, or an exception that the API does not expect.
pub data QueryError : Type 0 where
  business_validation : String → QueryError
  not_found : String → QueryError
  unhandled : QueryError

abbrev pub Box : Type 0 → Type 0
Box F = F × F × F × F

pub record QueryLibraries (G F : Type 0) : Type 0 where
  pub floats : Floats F
  pub cursors : CursorLibraries F
  -- ST_Intersects with the envelope of a box
  pub intersects : Box F → G → Bool
  -- `wkb_to_geojson`, `none` where it raises: a collection of geometries has no coordinates
  pub geojson : G → Option (Json F)

pub record EventProperties (F : Type 0) : Type 0 where
  pub source : Source
  pub hazard_type : HazardType
  pub severity : ℕ
  pub starts_at : ℕ
  pub ends_at : Option ℕ
  pub external_id : String
  pub attrs : Attrs F

pub record EventFeature (F : Type 0) : Type 0 where
  pub id : ℕ
  pub geometry : Json F
  pub properties : EventProperties F

pub record EventFeatureCollection (F : Type 0) : Type 0 where
  pub features : List (EventFeature F)
  pub number_returned : ℕ
  pub next_cursor : Option String
  pub attribution : List SourceAttribution

-- The arguments of `ListEventsUseCase.execute`.
pub record EventQuery : Type 0 where
  pub bbox_raw : Option String
  pub province : Option String
  pub hazard_types : List HazardType
  pub source : Option Source
  pub severity_min : Option ℕ
  pub starts_after : Option ℕ
  pub starts_before : Option ℕ
  pub active : Bool
  pub limit : ℕ

abbrev pub filters_of : {B : Type 0} → EventQuery → Option B → Filters B
filters_of q box = record {
  bbox = box;
  province = q.province;
  hazard_types = q.hazard_types;
  source = q.source;
  severity_min = q.severity_min;
  starts_after = q.starts_after;
  starts_before = q.starts_before;
  active = q.active;
}

abbrev pub cnig : Option String → List String
cnig none = []
cnig (some p) = "cnig" ∷ []

abbrev pub cursor_result : Decoded → Result QueryError (Option Cursor)
cursor_result (decoded c) = ok (some c)
cursor_result invalid_cursor = error (business_validation "invalid cursor")
cursor_result unexpected = error unhandled

module _ {F : Type 0} where
  abbrev pub box_result : Result String (Box F) → Result QueryError (Option (Box F))
  box_result (error e) = error (business_validation ("invalid bbox: " & e))
  box_result (ok box) = ok (some box)

  -- `_parse_bbox`
  unfoldable pub parse_box : Floats F → Option String → Result QueryError (Option (Box F))
  parse_box fl none = ok none
  parse_box fl (some raw) = box_result (parse_bbox fl raw)

  abbrev pub read_cursor : CursorLibraries F → Option String → Result QueryError (Option Cursor)
  read_cursor lib none = ok none
  read_cursor lib (some raw) = cursor_result (decode_cursor lib raw)

module _ {G F : Type 0} (lib : QueryLibraries G F) where
  abbrev pub properties_of : HazardEvent G F → EventProperties F
  properties_of e = record {
    source = e.source;
    hazard_type = e.hazard_type;
    severity = e.severity;
    starts_at = e.starts_at;
    ends_at = e.ends_at;
    external_id = e.external_id;
    attrs = e.attrs;
  }

  abbrev pub feature_from_orm : HazardEvent G F → Option (EventFeature F)
  feature_from_orm e =
      Option.map
        (λ geometry. record { id = e.id; geometry = geometry; properties = properties_of e })
        (lib.geojson e.geom)

  abbrev pub collection :
      Option String → List (EventFeature F) → Option Cursor → EventFeatureCollection F
  collection province features next = record {
    features = features;
    number_returned = length features;
    next_cursor = Option.map (encode_cursor lib.cursors) next;
    attribution =
        attributions_for
          (map (λ (f : EventFeature F). source_name f.properties.source) features ++ cnig province);
  }

  abbrev pub collected :
      Option String
      → Option Cursor
      → Option (List (EventFeature F))
      → Result QueryError (EventFeatureCollection F)
  collected province next none = error unhandled
  collected province next (some features) = ok (collection province features next)

  abbrev pub page_result :
      Option String
      → Option (EventTable G F × Option Cursor)
      → Result QueryError (EventFeatureCollection F)
  page_result province none = error unhandled
  page_result province (some (page, next)) = collected province next (all_of feature_from_orm page)

  -- `ListEventsUseCase.execute`
  unfoldable pub list_events :
      ℕ → EventQuery → Option String → EventTable G F → Result QueryError (EventFeatureCollection F)
  list_events now q cursor_raw t = and_then (parse_box lib.floats q.bbox_raw) λ box.
      and_then (read_cursor lib.cursors cursor_raw) λ cursor.
        page_result q.province
          (list_page (is_listed lib.intersects now (filters_of q box)) q.limit cursor t)

  abbrev pub found : ℕ → Option (HazardEvent G F) → Result QueryError (EventFeature F)
  found event_id none =
      error (not_found ("hazard event not found (id: " & lib.cursors.uuid_text event_id & ")"))
  found event_id (some e) = elim (feature_from_orm e) [
    | none ↦ error unhandled
    | some feature ↦ ok feature
  ]

  -- `GetEventUseCase.execute`
  unfoldable pub get_event : ℕ → EventTable G F → Result QueryError (EventFeature F)
  get_event event_id t = found event_id (first_where (λ e. e.id == event_id) t)
