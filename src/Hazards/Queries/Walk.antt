-- ===== src/Hazards/Queries/Walk.antt =====
-- A client of the API that passes `nextCursor` back until there is none.
use mathlib.Core.Option
use geo_hazard.Base.{
  ℕ, zero, suc, ◌≤◌, ◌<◌, String, ◌≡◌, refl, sym, ap, ◌∙◌, Option, none, some, List, ◌++◌, length,
}
use geo_hazard.Base.Traverse.{all_of, appended, appended-none, all_of-append}
use geo_hazard.Base.Results.{Result, error, ok}
use geo_hazard.Hazards.Model.{EventTable}
use geo_hazard.Hazards.Pages.{Cursor, is_listed, rows_after, list_page}
use geo_hazard.Hazards.Pages.Keyset.{DistinctIds}
use geo_hazard.Hazards.Pages.Walk.{walk, walk_all, joined_pages}
use geo_hazard.Hazards.Queries.Pagination.{IsCodec, encode_cursor, decode_cursor-encode_cursor}
use geo_hazard.Hazards.Queries.{
  QueryError, QueryLibraries, EventFeature, EventFeatureCollection, EventQuery, filters_of, Box,
  parse_box, feature_from_orm, collected, page_result, list_events,
}

module _ {G F : Type 0} (lib : QueryLibraries G F) (now : ℕ) (q : EventQuery) where
  -- The features of a page, and where it has a cursor those of the pages from there.
  abbrev joined :
      Result QueryError (EventFeatureCollection F)
      → (String → Option (List (EventFeature F)))
      → Option (List (EventFeature F))
  joined (error e) rest = none
  joined (ok page) rest = elim page.next_cursor [
    | none ↦ some page.features
    | some cursor ↦ Option.map (λ features. page.features ++ features) (rest cursor)
  ]

  -- All pages from a cursor on, put together, with fuel.
  unfoldable pub walk_api : ℕ → Option String → EventTable G F → Option (List (EventFeature F))
  walk_api zero cursor t = none
  walk_api (suc f) cursor t =
      joined (list_events lib now q cursor t) (λ next. walk_api f (some next) t)

  list_events-page :
      (box : Option (Box F)) (c : Option Cursor) (t : EventTable G F)
      → IsCodec lib.cursors
      → parse_box lib.floats q.bbox_raw ≡ ok box
      → list_events lib now q (Option.map (encode_cursor lib.cursors) c) t
        ≡ page_result lib q.province
            (list_page (is_listed lib.intersects now (filters_of q box)) q.limit c t)
  unfolding list_events
  list_events-page box none t l h = rw h refl
  list_events-page box (some c) t l h = rw (h, decode_cursor-encode_cursor lib.cursors l c) refl

  -- The features of rows, `none` where one of them raises.
  abbrev features_of : Option (EventTable G F) → Option (List (EventFeature F))
  features_of none = none
  features_of (some rows) = all_of (feature_from_orm lib) rows

  joined_rest :
      (page : EventTable G F) (rest : Option (EventTable G F))
      → appended (all_of (feature_from_orm lib) page) (features_of rest)
        ≡ features_of (Option.map (λ rows. page ++ rows) rest)
  joined_rest page none = appended-none (all_of (feature_from_orm lib) page)
  joined_rest page (some rows) = sym (all_of-append (feature_from_orm lib) page rows)

  joined_last :
      (o : Option (List (EventFeature F))) (rest : String → Option (List (EventFeature F)))
      → joined (collected lib q.province none o) rest ≡ o
  joined_last none rest = refl
  joined_last (some features) rest = refl

  joined_more :
      (o : Option (List (EventFeature F))) (k : Cursor)
      (rest : String → Option (List (EventFeature F)))
      → joined (collected lib q.province (some k) o) rest
        ≡ appended o (rest (encode_cursor lib.cursors k))
  joined_more none k rest = refl
  joined_more (some features) k rest = refl

  joined-page :
      (p : Option (EventTable G F × Option Cursor)) (rest : String → Option (List (EventFeature F)))
      (rows : Cursor → Option (EventTable G F))
      → ((k : Cursor) → rest (encode_cursor lib.cursors k) ≡ features_of (rows k))
      → joined (page_result lib q.province p) rest ≡ features_of (joined_pages p rows)
  joined-page none rest rows h = refl
  joined-page (some (page, none)) rest rows h = joined_last _ rest
  joined-page (some (page, some k)) rest rows h =
      joined_more _ k rest
      ∙ ap (appended (all_of (feature_from_orm lib) page)) (h k)
      ∙ joined_rest page (rows k)

  walk_api-walk :
      (f : ℕ) (box : Option (Box F)) (c : Option Cursor) (t : EventTable G F)
      → IsCodec lib.cursors
      → parse_box lib.floats q.bbox_raw ≡ ok box
      → walk_api f (Option.map (encode_cursor lib.cursors) c) t
        ≡ features_of (walk f (is_listed lib.intersects now (filters_of q box)) q.limit c t)
  unfolding walk_api walk
  walk_api-walk zero box c t l h = refl
  walk_api-walk (suc f) box c t l h =
      ap (λ r. joined r (λ next. walk_api f (some next) t)) (list_events-page box c t l h)
      ∙ joined-page (list_page (is_listed lib.intersects now (filters_of q box)) q.limit c t) _ _
          (λ k. walk_api-walk f box (some k) t l h)

  -- A client that lists the events of a table that does not change meanwhile, at one time, and
  -- passes `nextCursor` back until there is none, gets the features of all rows that the filters
  -- let through, each once and in order, whatever the limit of a page, one at least; and where one
  -- of these rows has a geometry without coordinates, a request fails. As many requests as rows and
  -- one more are enough. The cursors go through the text of the API, which its libraries read back.
  pub walk_api-all :
      (f : ℕ) (box : Option (Box F)) (t : EventTable G F)
      → IsCodec lib.cursors
      → parse_box lib.floats q.bbox_raw ≡ ok box
      → 1 ≤ q.limit
      → DistinctIds t
      → length (rows_after (is_listed lib.intersects now (filters_of q box)) none t) < f
      → walk_api f none t
        ≡ all_of
            (feature_from_orm lib)
            (rows_after (is_listed lib.intersects now (filters_of q box)) none t)
  walk_api-all f box t l h one d enough =
      walk_api-walk f box none t l h
      ∙ ap features_of
          (walk_all f (is_listed lib.intersects now (filters_of q box)) q.limit none t one d enough)
