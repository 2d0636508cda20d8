-- ===== src/Hazards/Queries/Clusters/Counts.antt =====
-- What `cluster_rows` promises: the count of a cluster is that of its rows.
use geo_hazard.Base.{
  ℕ, ◌+◌, ◌≤◌, ◌≡◌, refl, sym, ap, subst, ◌∙◌, Bool, true, false, Option, none, some, List, [], ◌∷◌,
  map, length, length-take, is_none, ◌&&◌, String, All, All-take, ◌==◌, ==_refl, arith, Bool-cases,
  inl, inr, All-map₂, if◌then◌else◌,
}
use geo_hazard.Base.Query.{count_where, order_by}
use geo_hazard.Base.Query.Order.{order_by-All}
use geo_hazard.Hazards.Model.{Source, HazardEvent, EventTable}
use geo_hazard.Hazards.Queries.{QueryLibraries, EventQuery, Box, parse_box}
use geo_hazard.Base.Traverse.{all_of, length-all_of}
use geo_hazard.Base.Results.{error, ok, ok_inj, error_ne_ok, and_then_parts}
use geo_hazard.Hazards.Queries.Clusters.{
  ClusterFeature, Clustering, Cluster, ClusterRow, add_event, clusters_of, largest, least, row_of,
  geometries, clustered_rows, cluster_rows, max_clusters, larger_first, cluster_feature,
  cluster_collection, cluster_events, unbounded_clusters, ClusterFeatureCollection,
}

abbrev pub has_id : ℕ → Option ℕ → Bool
has_id id none = false
has_id id (some j) = j == id

module _ {G F : Type 0} where
  -- The rows of all clusters with an identifier.
  unfoldable size : ℕ → List (Cluster G F) → ℕ
  size id [] = 0
  size id (c ∷ cs) = (if c.cluster_id == id then length c.events else 0) + size id cs

  abbrev Apart : List (Cluster G F) → Type 0
  Apart [] = Unit
  Apart (c ∷ cs) = All (λ d. (d.cluster_id == c.cluster_id) ≡ false) cs × Apart cs

  size-add_event :
      (id j : ℕ) (e : HazardEvent G F) (cs : List (Cluster G F))
      → size id (add_event j e cs) ≡ (if j == id then 1 else 0) + size id cs
  unfolding size add_event
  size-add_event id j e [] = ground arith
  size-add_event id j e (c ∷ cs) = ground (arith, size-add_event id j e cs)

  add_event-All :
      (P : ℕ → Type 0) (j : ℕ) (e : HazardEvent G F) (cs : List (Cluster G F))
      → P j
      → All (λ c. P c.cluster_id) cs
      → All (λ c. P c.cluster_id) (add_event j e cs)
  unfolding add_event
  add_event-All P j e [] p h = (p, tt)
  add_event-All P j e (c ∷ cs) p h = ground (arith, h, add_event-All P j e cs p h.1)

  apart_sym : (j : ℕ) (c : Cluster G F) → (c.cluster_id == j) ≡ false → (j == c.cluster_id) ≡ false
  apart_sym j c h = ground (arith, h)

  add_event-Apart :
      (j : ℕ) (e : HazardEvent G F) (cs : List (Cluster G F)) → Apart cs → Apart (add_event j e cs)
  unfolding add_event
  add_event-Apart j e [] h = (tt, tt)
  add_event-Apart j e (c ∷ cs) h = elim (Bool-cases (c.cluster_id == j)) [
    | inl same ↦ rw same h
    | inr other ↦ rw other (
      add_event-All (λ id. (id == c.cluster_id) ≡ false) j e cs (apart_sym j c other) h.0,
      add_event-Apart j e cs h.1,
    )
  ]

  -- Every cluster holds all the rows of its identifier.
  abbrev Holds : List (Cluster G F) → List (Option ℕ) → Type 0
  Holds cs ids = (id : ℕ) → size id cs ≡ count_where (has_id id) ids

  clusters_of-Apart : (ids : List (Option ℕ)) (t : EventTable G F) → Apart (clusters_of ids t)
  unfolding clusters_of
  clusters_of-Apart [] t = tt
  clusters_of-Apart (id ∷ ids) [] = tt
  clusters_of-Apart (none ∷ ids) (e ∷ t) = clusters_of-Apart ids t
  clusters_of-Apart (some j ∷ ids) (e ∷ t) = add_event-Apart j e _ (clusters_of-Apart ids t)

  clusters_of-size :
      (ids : List (Option ℕ)) (t : EventTable G F) (id : ℕ)
      → length ids ≡ length t
      → size id (clusters_of ids t) ≡ count_where (has_id id) ids
  unfolding clusters_of size count_where
  clusters_of-size [] t id h = refl
  clusters_of-size (o ∷ ids) [] id h = absurd (omega (arith, h))
  clusters_of-size (none ∷ ids) (e ∷ t) id h =
      omega (arith, clusters_of-size ids t id (omega (arith, h)))
  clusters_of-size (some j ∷ ids) (e ∷ t) id h =
      size-add_event id j e (clusters_of ids t)
      ∙ ap (λ n. (if j == id then 1 else 0) + n) (clusters_of-size ids t id (omega (arith, h)))

  size-absent :
      (id : ℕ) (cs : List (Cluster G F))
      → All (λ d. (d.cluster_id == id) ≡ false) cs
      → size id cs ≡ 0
  unfolding size
  size-absent id [] h = refl
  size-absent id (c ∷ cs) h = ground (arith, h, size-absent id cs h.1)

  present :
      (id : ℕ) (d : Cluster G F) (cs : List (Cluster G F))
      → (d.cluster_id == id) ≡ false
      → size id (d ∷ cs) ≡ size id cs
  unfolding size
  present id d cs h = ground (arith, h)

  own :
      (c : Cluster G F) (cs : List (Cluster G F))
      → All (λ d. (d.cluster_id == c.cluster_id) ≡ false) cs
      → length c.events ≡ size c.cluster_id (c ∷ cs)
  unfolding size
  own c cs h = ground (arith, ==_refl c.cluster_id, size-absent c.cluster_id cs h)

  -- Apart from the others, a cluster has all the rows of its identifier.
  Apart-length :
      (cs : List (Cluster G F)) → Apart cs → All (λ c. length c.events ≡ size c.cluster_id cs) cs
  Apart-length [] h = tt
  Apart-length (c ∷ cs) h = (
    own c cs h.0,
    All-map₂ _ _ _ cs
        (λ d other same. same ∙ sym (present d.cluster_id c cs (apart_sym c.cluster_id d other)))
        h.0 (Apart-length cs h.1),
  )

  least≤largest :
      (f : HazardEvent G F → ℕ) (es : List (HazardEvent G F)) → least f es ≤ largest f es
  unfolding least largest
  least≤largest f [] = omega arith
  least≤largest f (e ∷ []) = omega arith
  least≤largest f (e ∷ d ∷ es) = omega (arith, least≤largest f (d ∷ es))

  abbrev Filled : List (Cluster G F) → Type 0
  Filled cs = All (λ c. 1 ≤ length c.events) cs

  add_event-Filled :
      (j : ℕ) (e : HazardEvent G F) (cs : List (Cluster G F))
      → Filled cs
      → Filled (add_event j e cs)
  unfolding add_event
  add_event-Filled j e [] h = (omega arith, tt)
  add_event-Filled j e (c ∷ cs) h = elim (Bool-cases (c.cluster_id == j)) [
    | inl same ↦ rw same (omega arith, h.1)
    | inr other ↦ rw other (h.0, add_event-Filled j e cs h.1)
  ]

  clusters_of-Filled : (ids : List (Option ℕ)) (t : EventTable G F) → Filled (clusters_of ids t)
  unfolding clusters_of
  clusters_of-Filled [] t = tt
  clusters_of-Filled (id ∷ ids) [] = tt
  clusters_of-Filled (none ∷ ids) (e ∷ t) = clusters_of-Filled ids t
  clusters_of-Filled (some j ∷ ids) (e ∷ t) = add_event-Filled j e _ (clusters_of-Filled ids t)

module _ {G : Type 0} where
  -- What a row says of its cluster is so.
  abbrev pub IsCounted : List (Option ℕ) → ClusterRow G → Type 0
  IsCounted ids r =
      (r.count ≡ count_where (has_id r.cluster_id) ids)
      × (1 ≤ r.count)
      × (r.first_starts_at ≤ r.last_starts_at)

module _ {G F : Type 0} (x : Clustering G) where
  rows-IsCounted :
      (ids : List (Option ℕ)) (whole cs : List (Cluster G F))
      → ((id : ℕ) → size id whole ≡ count_where (has_id id) ids)
      → All (λ c. length c.events ≡ size c.cluster_id whole) cs
      → Filled cs
      → All (IsCounted ids) (map (row_of x) cs)
  rows-IsCounted ids whole [] k h f = tt
  rows-IsCounted ids whole (c ∷ cs) k h f = (
    (h.0 ∙ k c.cluster_id, f.0, least≤largest (λ e. e.starts_at) c.events),
    rows-IsCounted ids whole cs k h.1 f.1,
  )

module _ {G F : Type 0} (lib : QueryLibraries G F) (x : Clustering G) where
  -- The clusters among the rows of a query, as DBSCAN gives them.
  abbrev pub ids_of : ℕ → EventQuery → Option (Box F) → EventTable G F → List (Option ℕ)
  ids_of now q box t = x.dbscan (geometries (clustered_rows lib x now q box t))

  few :
      (now : ℕ) (q : EventQuery) (box : Option (Box F)) (t : EventTable G F)
      → length (cluster_rows lib x now q box t) ≤ max_clusters
  unfolding cluster_rows
  few now q box t =
      let rows = clustered_rows lib x now q box t in
      let cs = clusters_of (x.dbscan (geometries rows)) rows in
      omega (arith, length-take max_clusters (order_by larger_first (map (row_of x) cs)))

  -- Where DBSCAN gives a value for each row, there are 500 clusters at most, and each of them counts
  -- all the rows that DBSCAN puts in it and no others, at least one, and does not begin after its
  -- end.
  pub cluster_rows-IsCounted :
      (now : ℕ) (q : EventQuery) (box : Option (Box F)) (t : EventTable G F)
      → length (ids_of now q box t) ≡ length (clustered_rows lib x now q box t)
      → (length (cluster_rows lib x now q box t) ≤ max_clusters)
        × All (IsCounted (ids_of now q box t)) (cluster_rows lib x now q box t)
  unfolding cluster_rows
  cluster_rows-IsCounted now q box t h =
      let ids = ids_of now q box t in
      let rows = clustered_rows lib x now q box t in
      let cs = clusters_of ids rows in
      (
        few now q box t,
        All-take _ max_clusters _ (
            order_by-All larger_first _ (map (row_of x) cs) (
              rows-IsCounted x ids cs cs (λ id. clusters_of-size ids rows id h)
                (Apart-length cs (clusters_of-Apart ids rows)) (clusters_of-Filled ids rows))),
      )

  collection-length :
      (source : Option Source) (rows : List (ClusterRow G)) (o : Option (List (ClusterFeature F)))
      {c : ClusterFeatureCollection F}
      → all_of (cluster_feature lib.geojson) rows ≡ o
      → cluster_collection lib x source o ≡ ok c
      → c.number_returned ≡ length rows
  collection-length source rows none e h = absurd (error_ne_ok h)
  collection-length source rows (some features) e h =
      ap (λ (c : ClusterFeatureCollection F). c.number_returned) (sym (ok_inj h))
      ∙ length-all_of (cluster_feature lib.geojson) rows e

  bounded :
      (now : ℕ) (q : EventQuery) (t : EventTable G F) (box : Option (Box F)) (b : Bool)
      {c : ClusterFeatureCollection F}
      → (if b
          then error unbounded_clusters
          else cluster_collection lib x q.source
              (all_of (cluster_feature lib.geojson) (cluster_rows lib x now q box t)))
        ≡ ok c
      → (b ≡ false) × (c.number_returned ≤ max_clusters)
  bounded now q t box true h = absurd (error_ne_ok h)
  bounded now q t box false h =
      let rows = cluster_rows lib x now q box t in
      (refl, omega (arith, collection-length q.source rows _ refl h, few now q box t))

  box_given :
      (raw : Option String) (box : Option (Box F)) (b : Bool)
      → parse_box lib.floats raw ≡ ok box
      → (is_none box && b) ≡ false
      → (is_none raw && b) ≡ false
  unfolding parse_box
  box_given none box b p h = subst (λ o. (is_none o && b) ≡ false) (sym (ok_inj p)) h
  box_given (some raw) box b p h = refl

  -- The clusters of the events are given only where the request has a box or a first start, and
  -- then there are 500 at most.
  pub cluster_events-bounded :
      (now : ℕ) (q : EventQuery) (t : EventTable G F) {c : ClusterFeatureCollection F}
      → cluster_events lib x now q t ≡ ok c
      → ((is_none q.bbox_raw && is_none q.starts_after) ≡ false)
        × (c.number_returned ≤ max_clusters)
  unfolding cluster_events
  cluster_events-bounded now q t h =
      let (box, p, rest) = and_then_parts (parse_box lib.floats q.bbox_raw) _ h in
      let parts = bounded now q t box (is_none box && is_none q.starts_after) rest in
      (box_given q.bbox_raw box (is_none q.starts_after) p parts.0, parts.1)
