-- ===== src/Hazards/Queries/Near.antt =====
-- `_near_stmt` and `near_page` of app/hazards/repos/hazard_event.py, and
-- app/hazards/use_cases/near_events.py.
pub mod Nearest
use geo_hazard.Base.{
  ℕ, Bool, not, ◌&&◌, ◌||◌, Option, none, some, List, [], ◌∷◌, map, take, length, ltb,
}
use geo_hazard.Base.Query.{select_where, order_by}
use mathlib.Core.Option
use geo_hazard.Base.Results.{Result, error, ok}
use geo_hazard.Base.Json.{Json}
use geo_hazard.Base.Traverse.{all_of}
use geo_hazard.Hazards.Model.{HazardEvent, EventTable}
use geo_hazard.Hazards.Attribution.{SourceAttribution, attributions_for}
use geo_hazard.Hazards.Pages.{passes_filters}
use geo_hazard.Hazards.Queries.{
  QueryError, unhandled, QueryLibraries, EventProperties, EventQuery, filters_of, properties_of,
  Box,
}
use geo_hazard.Sync.{source_name}

-- A query around a point, by PostGIS: the envelope of the larger circle, the exact test, and the
-- distance in metres, which is a finite number.
pub record Around (G F : Type 0) : Type 0 where
  pub in_prefilter : G → Bool
  pub within : G → Bool
  pub distance : G → F
  -- round(distance, 1)
  pub rounded : F → F

pub record NearEventFeature (F : Type 0) : Type 0 where
  pub id : ℕ
  pub geometry : Json F
  pub properties : EventProperties F
  pub distance_m : F

pub record NearEventFeatureCollection (F : Type 0) : Type 0 where
  pub features : List (NearEventFeature F)
  pub number_returned : ℕ
  pub attribution : List SourceAttribution

module _ {G F : Type 0} (lib : QueryLibraries G F) (around : Around G F) where
  -- ORDER BY distance, id
  abbrev pub nearer : HazardEvent G F → HazardEvent G F → Bool
  nearer a b =
      let d = around.distance a.geom in
      let e = around.distance b.geom in
      lib.floats.lt d e || not (lib.floats.lt e d) && ltb a.id b.id

  abbrev pub is_near : ℕ → EventQuery → HazardEvent G F → Bool
  is_near now q e =
      around.in_prefilter e.geom
      && around.within e.geom
      && passes_filters now (filters_of {B = Box F} q none) e

  -- The rows of `_near_stmt`, without its limit.
  abbrev pub near_rows : ℕ → EventQuery → EventTable G F → EventTable G F
  near_rows now q t = order_by nearer (select_where (is_near now q) t)

  abbrev pub with_distance : HazardEvent G F → HazardEvent G F × F
  with_distance e = (e, around.distance e.geom)

  unfoldable pub near_page : ℕ → EventQuery → EventTable G F → List (HazardEvent G F × F)
  near_page now q t = map with_distance (take q.limit (near_rows now q t))

  abbrev pub near_feature : HazardEvent G F × F → Option (NearEventFeature F)
  near_feature (e, distance) =
      Option.map
        (λ geometry. record {
          id = e.id;
          geometry = geometry;
          properties = properties_of lib e;
          distance_m = around.rounded distance;
        })
        (lib.geojson e.geom)

  abbrev pub near_collection :
      Option (List (NearEventFeature F)) → Result QueryError (NearEventFeatureCollection F)
  near_collection none = error unhandled
  near_collection (some features) = ok (record {
    features = features;
    number_returned = length features;
    attribution =
        attributions_for
          (map (λ (f : NearEventFeature F). source_name f.properties.source) features);
  })

  -- `NearEventsUseCase.execute`
  unfoldable pub near_events :
      ℕ → EventQuery → EventTable G F → Result QueryError (NearEventFeatureCollection F)
  near_events now q t = near_collection (all_of near_feature (near_page now q t))
