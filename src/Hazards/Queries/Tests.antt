-- ===== src/Hazards/Queries/Tests.antt =====
-- The theorems on the queries at two earthquakes and a burnt area, with codecs that write numbers in
-- unary and pairs of texts character by character.
use Prim.Native.Char.{Char, code}
use Prim.Native.String.{String as Text}
use geo_hazard.Base.{
  ℕ, zero, suc, ◌≤◌, ◌++◌, min, map, length, All, String, ◌≡◌, refl, ap, true, false, Option, none,
  some, [], ◌∷◌, chars, ltb, leb, ◌==◌, arith, if◌then◌else◌,
}
use geo_hazard.Base.Json.{Json, text, array, cons, nil, number}
use geo_hazard.Base.Floats.{Floats}
use mathlib.Core.List.{Perm}
use mathlib.Core.Option
use geo_hazard.Base.Traverse.{all_of}
use geo_hazard.Base.Query.{select_where, order_by, insert_by}
use geo_hazard.Base.Query.Order.{IsOrdering}
use geo_hazard.Hazards.Model.{HazardEvent, EventTable, ign, earthquake}
use geo_hazard.Hazards.Pages.{is_listed, rows_after, list_page}
use geo_hazard.Hazards.Queries.{
  QueryLibraries, EventFeature, properties_of, EventQuery, EventFeatureCollection, filters_of,
  feature_from_orm, collection, parse_box, list_events,
}
use geo_hazard.Hazards.Queries.Walk.{walk_api, walk_api-all}
use geo_hazard.Hazards.Queries.Near.{Around, is_near, near_page}
use geo_hazard.Hazards.Queries.Near.Nearest.{closer, page_rows, near_page-nearest}
use geo_hazard.Hazards.Queries.Clusters.{
  Clustering, clusters_of, add_event, largest, least, cluster_rows, cluster_collection,
  cluster_events, cluster_feature,
}
use geo_hazard.Hazards.Queries.Clusters.Counts.{IsCounted, cluster_rows-IsCounted}
use geo_hazard.Hazards.Queries.Routes.{replied, reply_of, list_route}
use geo_hazard.Hazards.Queries.Routes.Bounds.{IsBounded, list_route-IsBounded}
use geo_hazard.Hazards.Queries.Pagination.{
  CursorLibraries, IsCodec, pair_of, encode_cursor, decode_cursor, decoded, unexpected,
  decode_cursor-encode_cursor,
}

abbrev unary : ℕ → String
unary zero = Text.[]
unary (suc n) = Text.◌∷◌ "i" (unary n)

chars-unary : (n : ℕ) → chars (unary n) ≡ n
chars-unary zero = refl
chars-unary (suc n) = omega (arith, chars-unary n)

-- Each character of the first text behind an x, and the second text behind a y.
abbrev written : String → String → String
written Text.[] t = Text.◌∷◌ "y" t
written (Text.◌∷◌ c s) t = Text.◌∷◌ "x" (Text.◌∷◌ c (written s t))

abbrev with_char : Char → Option (String × String) → Option (String × String)
with_char c none = none
with_char c (some (s, t)) = some (Text.◌∷◌ c s, t)

read_back : String → Option (String × String)
read_back Text.[] = none
read_back (Text.◌∷◌ m Text.[]) = some (Text.[], Text.[])
read_back (Text.◌∷◌ m (Text.◌∷◌ c rest)) =
    let behind = read_back rest in
    if code m == 120 then with_char c behind else some (Text.[], Text.◌∷◌ c rest)

abbrev to_pair : Option (String × String) → Option (Json ℕ)
to_pair none = none
to_pair (some (s, t)) = some (pair_of s t)

abbrev dumped : Json ℕ → String
dumped (array (cons (text s) (cons (text t) nil))) = written s t
dumped _ = ""

read_back-written : (s t : String) → read_back (written s t) ≡ some (s, t)
unfolding read_back
read_back-written Text.[] Text.[] = refl
read_back-written Text.[] (Text.◌∷◌ c t) = refl
read_back-written (Text.◌∷◌ c s) t = ap (with_char c) (read_back-written s t)

abbrev cursors : CursorLibraries ℕ
cursors = record {
  b64encode = λ s. s;
  b64decode = λ s. some s;
  dumps = dumped;
  loads = λ s. to_pair (read_back s);
  isoformat = unary;
  fromisoformat = λ s. some (chars s);
  uuid_text = unary;
  uuid = λ s. some (chars s);
}

codec : IsCodec cursors
codec = record {
  b64 = λ s. refl;
  json = λ s t. ap to_pair (read_back-written s t);
  time = λ n. ap some (chars-unary n);
  id = λ n. ap some (chars-unary n);
}

decode_cursor-encode_cursor_example :
    decode_cursor cursors (encode_cursor cursors (1500, 8)) ≡ decoded (1500, 8)
decode_cursor-encode_cursor_example = decode_cursor-encode_cursor cursors codec (1500, 8)

-- ["1", 5]
abbrev numbered : CursorLibraries ℕ
numbered = record cursors { loads = λ s. some (array (cons (text "1") (cons (number 5) nil))) }

-- The number five in place of an id.
unreadable_run : decode_cursor numbered "WyIxIiw1XQ" ≡ unexpected
unfolding decode_cursor
unreadable_run = refl

abbrev floats : Floats ℕ
floats = record {
  tenths = λ n. n;
  minus = λ a. 0;
  le = leb;
  lt = ltb;
  is_finite = λ a. true;
  read = λ s. none;
}

-- A place on a line stands for a geometry.
abbrev lib : QueryLibraries ℕ ℕ
lib = record {
  floats = floats;
  cursors = cursors;
  intersects = λ b g. true;
  geojson = λ g. some (number g);
}

abbrev event : ℕ → ℕ → ℕ → HazardEvent ℕ ℕ
event id place starts_at = record {
  id = id;
  source = ign;
  hazard_type = earthquake;
  external_id = "es";
  geom = place;
  severity = 2;
  starts_at = starts_at;
  ends_at = some starts_at;
  attrs = [];
  content_hash = "";
  province_code = none;
  created_at = 0;
  updated_at = none;
}

abbrev table : EventTable ℕ ℕ
table = event 1 30 100 ∷ event 2 10 300 ∷ event 3 20 200 ∷ []

abbrev query : EventQuery
query = record {
  bbox_raw = none;
  province = none;
  hazard_types = [];
  source = none;
  severity_min = some 1;
  starts_after = some 0;
  starts_before = none;
  active = false;
  limit = 2;
}

abbrev listed : EventTable ℕ ℕ
listed = rows_after (is_listed lib.intersects 500 (filters_of query none)) none table

walk_api-all_example : walk_api lib 500 query 4 none table ≡ all_of (feature_from_orm lib) listed
unfolding parse_box order_by insert_by select_where
walk_api-all_example =
    walk_api-all lib 500 query 4 none table codec refl (omega arith)
      ((refl, (refl, tt)), ((refl, tt), (tt, tt))) (omega arith)

-- No row raises.
listed_run :
    Option.map (λ features. map (λ f. f.id) features) (all_of (feature_from_orm lib) listed)
    ≡ some (2 ∷ 3 ∷ 1 ∷ [])
unfolding all_of order_by insert_by select_where
listed_run = refl

abbrev around : Around ℕ ℕ
around = record {
  in_prefilter = λ g. true;
  within = λ g. leb g 25;
  distance = λ g. g;
  rounded = λ d. d;
}

order : IsOrdering (closer lib around)
order = record { asym = λ a b h. ground (arith, h); ties = λ a b c h k. ground (arith, h, k) }

near_run : page_rows lib around 500 query table ≡ event 2 10 300 ∷ event 3 20 200 ∷ []
unfolding near_page order_by insert_by select_where
near_run = refl

near_page-nearest_example :
    (rest : EventTable ℕ ℕ) × Perm
      (page_rows lib around 500 query table ++ rest)
      (select_where (is_near lib around 500 query) table)
    × (length (page_rows lib around 500 query table)
        ≡ min 2 (length (select_where (is_near lib around 500 query) table)))
    × All
        (λ p. All (λ r. closer lib around r.geom p.geom ≡ false) rest)
        (page_rows lib around 500 query table)
near_page-nearest_example = near_page-nearest lib around 500 query table order

-- The two first of three make a cluster.
abbrev clustering : Clustering ℕ
clustering = record { dbscan = λ gs. some 0 ∷ some 0 ∷ none ∷ []; centroid = λ gs. length gs }

clusters_run :
    cluster_rows lib clustering 500 query none table
    ≡ record {
      cluster_id = 0;
      count = 2;
      max_severity = 2;
      first_starts_at = 100;
      last_starts_at = 300;
      centroid = 2;
    }
      ∷ []
unfolding cluster_rows select_where clusters_of add_event order_by insert_by largest least
clusters_run = refl

cluster_rows-IsCounted_example :
    (length (cluster_rows lib clustering 500 query none table) ≤ 500)
    × All
        (IsCounted (some 0 ∷ some 0 ∷ none ∷ []))
        (cluster_rows lib clustering 500 query none table)
unfolding select_where
cluster_rows-IsCounted_example = cluster_rows-IsCounted lib clustering 500 query none table refl

clusters_given :
    cluster_events lib clustering 500 query table
    ≡ cluster_collection lib clustering none
        (all_of (cluster_feature lib.geojson) (cluster_rows lib clustering 500 query none table))
unfolding cluster_events parse_box
clusters_given = refl

abbrev feature : ℕ → ℕ → ℕ → EventFeature ℕ
feature id place starts_at = record {
  id = id;
  geometry = number place;
  properties = properties_of lib (event id place starts_at);
}

abbrev first_page : EventFeatureCollection ℕ
first_page = collection lib none (feature 2 10 300 ∷ feature 3 20 200 ∷ []) (some (200, 3))

list_run : list_route lib (λ s. true) 500 query none table ≡ replied first_page
unfolding list_route reply_of list_events parse_box list_page all_of order_by insert_by select_where
list_run = refl

list_route-IsBounded_example : IsBounded 2 first_page × (2 ≤ 1000)
list_route-IsBounded_example = list_route-IsBounded lib (λ s. true) 500 query none table list_run
