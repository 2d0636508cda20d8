-- ===== src/Hazards/Queries/Clusters.antt =====
-- `cluster_rows` of app/hazards/repos/hazard_event.py, and app/hazards/use_cases/cluster_events.py.
pub mod Counts
use geo_hazard.Base.{
  ℕ, ◌+◌, max, min, String, Bool, true, false, not, ◌&&◌, ◌||◌, Option, none, some, List, [], ◌∷◌,
  ◌++◌, map, take, length, ltb, ◌==◌, is_none, none_or, if◌then◌else◌,
}
use geo_hazard.Base.Query.{select_where, order_by}
use mathlib.Core.Option
use geo_hazard.Base.Json.{Json}
use geo_hazard.Base.Traverse.{all_of}
use geo_hazard.Base.Results.{Result, error, ok, and_then}
use geo_hazard.Hazards.Model.{Source, effis, ign, aemet, HazardEvent, EventTable}
use geo_hazard.Hazards.Attribution.{SourceAttribution, attributions_for}
use geo_hazard.Hazards.Pages.{Filters, passes_filters}
use geo_hazard.Hazards.Queries.{
  QueryError, business_validation, unhandled, QueryLibraries, EventQuery, filters_of, Box,
  parse_box,
}
use geo_hazard.Sync.{source_name}

abbrev pub max_clusters : ℕ
max_clusters = 500

-- What PostGIS does: the cluster of each geometry among all of them, `none` for noise, and the
-- centroid of some.
pub record Clustering (G : Type 0) : Type 0 where
  pub dbscan : List G → List (Option ℕ)
  pub centroid : List G → G

-- The rows of a cluster.
pub record Cluster (G F : Type 0) : Type 0 where
  pub cluster_id : ℕ
  pub events : List (HazardEvent G F)

pub record ClusterRow (G : Type 0) : Type 0 where
  pub cluster_id : ℕ
  pub count : ℕ
  pub max_severity : ℕ
  pub first_starts_at : ℕ
  pub last_starts_at : ℕ
  pub centroid : G

pub record ClusterProperties : Type 0 where
  pub cluster_id : ℕ
  pub count : ℕ
  pub max_severity : ℕ
  pub first_starts_at : ℕ
  pub last_starts_at : ℕ

pub record ClusterFeature (F : Type 0) : Type 0 where
  pub geometry : Json F
  pub properties : ClusterProperties

pub record ClusterFeatureCollection (F : Type 0) : Type 0 where
  pub features : List (ClusterFeature F)
  pub number_returned : ℕ
  pub attribution : List SourceAttribution

module _ {G F : Type 0} where
  -- GROUP BY cluster_id, of the rows that are no noise.
  unfoldable pub add_event : ℕ → HazardEvent G F → List (Cluster G F) → List (Cluster G F)
  add_event id e [] = record { cluster_id = id; events = e ∷ [] } ∷ []
  add_event id e (c ∷ cs) =
      let rest = add_event id e cs in
      if c.cluster_id == id then record c { events = e ∷ c.events } ∷ cs else c ∷ rest

  abbrev pub add_clustered : Option ℕ → HazardEvent G F → List (Cluster G F) → List (Cluster G F)
  add_clustered none e cs = cs
  add_clustered (some id) e cs = add_event id e cs

  -- The window function gives a value for each row.
  unfoldable pub clusters_of : List (Option ℕ) → EventTable G F → List (Cluster G F)
  clusters_of [] t = []
  clusters_of ids [] = []
  clusters_of (id ∷ ids) (e ∷ t) = add_clustered id e (clusters_of ids t)

  unfoldable pub largest : (HazardEvent G F → ℕ) → List (HazardEvent G F) → ℕ
  largest f [] = 0
  largest f (e ∷ es) = max (f e) (largest f es)

  unfoldable pub least : (HazardEvent G F → ℕ) → List (HazardEvent G F) → ℕ
  least f [] = 0
  least f (e ∷ []) = f e
  least f (e ∷ d ∷ es) = min (f e) (least f (d ∷ es))

  abbrev pub geometries : EventTable G F → List G
  geometries t = map (λ e. e.geom) t

module _ {G F : Type 0} (x : Clustering G) where
  abbrev pub row_of : Cluster G F → ClusterRow G
  row_of c = record {
    cluster_id = c.cluster_id;
    count = length c.events;
    max_severity = largest (λ e. e.severity) c.events;
    first_starts_at = least (λ e. e.starts_at) c.events;
    last_starts_at = largest (λ e. e.starts_at) c.events;
    centroid = x.centroid (geometries c.events);
  }

-- ORDER BY count DESC, cluster_id
abbrev pub larger_first : {G : Type 0} → ClusterRow G → ClusterRow G → Bool
larger_first a b = ltb b.count a.count || a.count == b.count && ltb a.cluster_id b.cluster_id

abbrev pub cluster_feature :
    {G F : Type 0} → (G → Option (Json F)) → ClusterRow G → Option (ClusterFeature F)
cluster_feature geojson r =
    Option.map
      (λ geometry. record {
        geometry = geometry;
        properties = record {
          cluster_id = r.cluster_id;
          count = r.count;
          max_severity = r.max_severity;
          first_starts_at = r.first_starts_at;
          last_starts_at = r.last_starts_at;
        };
      })
      (geojson r.centroid)

abbrev pub cluster_sources : Option Source → List String
cluster_sources none = map source_name (effis ∷ ign ∷ aemet ∷ [])
cluster_sources (some s) = source_name s ∷ []

abbrev pub unbounded_clusters : QueryError
unbounded_clusters = business_validation "clusters requires a bounding filter: bbox or starts_after"

module _ {G F : Type 0} (lib : QueryLibraries G F) (x : Clustering G) where
  abbrev pub is_clustered : ℕ → EventQuery → Option (Box F) → HazardEvent G F → Bool
  is_clustered now q box e =
      none_or (λ b. lib.intersects b e.geom) box && passes_filters now (filters_of q box) e

  -- The rows that DBSCAN runs over.
  abbrev pub clustered_rows : ℕ → EventQuery → Option (Box F) → EventTable G F → EventTable G F
  clustered_rows now q box t = select_where (is_clustered now q box) t

  unfoldable pub cluster_rows :
      ℕ → EventQuery → Option (Box F) → EventTable G F → List (ClusterRow G)
  cluster_rows now q box t =
      let rows = clustered_rows now q box t in
      take max_clusters
        (order_by larger_first (map (row_of x) (clusters_of (x.dbscan (geometries rows)) rows)))

  abbrev pub cluster_collection :
      Option Source
      → Option (List (ClusterFeature F))
      → Result QueryError (ClusterFeatureCollection F)
  cluster_collection source none = error unhandled
  cluster_collection source (some features) = ok (record {
    features = features;
    number_returned = length features;
    attribution = attributions_for (cluster_sources source);
  })

  -- `ClusterEventsUseCase.execute`
  unfoldable pub cluster_events :
      ℕ → EventQuery → EventTable G F → Result QueryError (ClusterFeatureCollection F)
  cluster_events now q t = and_then (parse_box lib.floats q.bbox_raw) λ box.
      if is_none box && is_none q.starts_after
      then error unbounded_clusters
      else cluster_collection q.source
          (all_of (cluster_feature lib.geojson) (cluster_rows now q box t))
