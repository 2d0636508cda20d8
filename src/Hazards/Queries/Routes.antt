-- ===== src/Hazards/Queries/Routes.antt =====
-- The routes of app/hazards/api/events.py, with the ranges of their parameters, and what
-- app/core/exceptions/handlers.py makes of an error.
pub mod Bounds
use geo_hazard.Base.{ℕ, String, Bool, ◌&&◌, Option, none, some, leb, none_or, ◌&◌, if◌then◌else◌}
use geo_hazard.Base.Results.{Result, error, ok}
use geo_hazard.Base.Floats.{Floats}
use geo_hazard.Hazards.Model.{EventTable}
use geo_hazard.Hazards.Queries.{
  QueryError, business_validation, not_found, unhandled, QueryLibraries, EventFeature,
  EventFeatureCollection, EventQuery, list_events, get_event,
}
use geo_hazard.Hazards.Queries.Near.{Around, NearEventFeatureCollection, near_events}
use geo_hazard.Hazards.Queries.Clusters.{Clustering, ClusterFeatureCollection, cluster_events}

-- A response: 200 with its content, or a status with the envelope of an error.
pub data Reply (A : Type 0) : Type 0 where
  replied : A → Reply A
  refused : ℕ → String → String → Reply A

module _ {A : Type 0} where
  abbrev pub validation_error : Reply A
  validation_error = refused 422 "validation_error" "Validation error"

  unfoldable pub reply_of : Result QueryError A → Reply A
  reply_of (error (business_validation e)) = refused 400 "business_validation" e
  reply_of (error (not_found e)) = refused 404 "not_found" e
  reply_of (error unhandled) = refused 500 "internal_error" "Internal Server Error"
  reply_of (ok a) = replied a

-- The pattern of a province code, by the library that checks the parameters.
abbrev pub is_valid_query : (String → Bool) → EventQuery → Bool
is_valid_query two_digits q =
    none_or two_digits q.province
    && none_or (λ s. leb 1 s && leb s 4) q.severity_min
    && leb 1 q.limit
    && leb q.limit 1000

module _ {F : Type 0} (fl : Floats F) where
  abbrev pub is_metres : F → Bool
  is_metres x = fl.lt (fl.tenths 0) x && fl.le x (fl.tenths 2000000)

  abbrev pub is_degrees : ℕ → F → Bool
  is_degrees limit x = fl.le (fl.minus (fl.tenths limit)) x && fl.le x (fl.tenths limit)

  abbrev pub is_valid_point : F → F → F → Bool
  is_valid_point lon lat radius_m = is_degrees 1800 lon && is_degrees 900 lat && is_metres radius_m

  abbrev pub is_valid_clustering : F → ℕ → Bool
  is_valid_clustering eps_m min_points = is_metres eps_m && leb 1 min_points && leb min_points 1000

module _ {G F : Type 0} (lib : QueryLibraries G F) (two_digits : String → Bool) where
  unfoldable pub list_route :
      ℕ → EventQuery → Option String → EventTable G F → Reply (EventFeatureCollection F)
  list_route now q cursor t =
      if is_valid_query two_digits q
      then reply_of (list_events lib now q cursor t)
      else validation_error

  -- What PostGIS does at a point and within a radius is an argument.
  unfoldable pub near_route :
      (F → F → F → Around G F)
      → F
      → F
      → F
      → ℕ
      → EventQuery
      → EventTable G F
      → Reply (NearEventFeatureCollection F)
  near_route around lon lat radius_m now q t =
      if is_valid_point lib.floats lon lat radius_m && is_valid_query two_digits q
      then reply_of (near_events lib (around lon lat radius_m) now q t)
      else validation_error

  unfoldable pub cluster_route :
      (F → ℕ → Clustering G)
      → F
      → ℕ
      → ℕ
      → EventQuery
      → EventTable G F
      → Reply (ClusterFeatureCollection F)
  cluster_route clustering eps_m min_points now q t =
      if is_valid_clustering lib.floats eps_m min_points && is_valid_query two_digits q
      then reply_of (cluster_events lib (clustering eps_m min_points) now q t)
      else validation_error

module _ {G F : Type 0} (lib : QueryLibraries G F) where
  abbrev pub event_result : Option ℕ → EventTable G F → Reply (EventFeature F)
  event_result none t = validation_error
  event_result (some event_id) t = reply_of (get_event lib event_id t)

  -- The path parameter is a UUID.
  pub event_route : String → EventTable G F → Reply (EventFeature F)
  event_route event_id t = event_result (lib.cursors.uuid event_id) t
