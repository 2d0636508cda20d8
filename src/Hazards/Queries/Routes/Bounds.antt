-- ===== src/Hazards/Queries/Routes/Bounds.antt =====
-- How much a reply of the list of events may hold.
use mathlib.Core.Option
use geo_hazard.Base.{
  List, ℕ, ◌+◌, ◌≤◌, String, ◌≡◌, refl, sym, ap, subst, ◌∙◌, ◌⊎◌, inl, inr, chain_parts, Bool, true,
  false, Option, none, some, length, length-take, take, leb, arith, if◌then◌else◌, some_inj,
  is_none,
}
use geo_hazard.Base.Traverse.{all_of, length-all_of}
use geo_hazard.Base.Results.{Result, error, ok, ok_inj, error_ne_ok, and_then_parts}
use geo_hazard.Hazards.Model.{HazardEvent, EventTable}
use geo_hazard.Hazards.Pages.{Cursor, is_listed, last_row, rows_after, with_cursor, list_page}
use geo_hazard.Hazards.Queries.{
  QueryError, business_validation, not_found, unhandled, parse_box, read_cursor, QueryLibraries,
  EventFeatureCollection, EventQuery, EventFeature, filters_of, feature_from_orm, collected,
  page_result, list_events,
}
use geo_hazard.Hazards.Queries.Routes.{
  Reply, replied, refused, reply_of, validation_error, is_valid_query, list_route,
}

module _ {G F : Type 0} where
  -- A page within the limit, full where it has a cursor.
  abbrev IsWithin : ℕ → EventTable G F × Option Cursor → Type 0
  IsWithin limit p = (length p.0 ≤ limit) × ((is_none p.1 ≡ true) ⊎ (length p.0 ≡ limit))

  with_cursor-page :
      (page : EventTable G F) (p : EventTable G F × Option Cursor)
      → with_cursor page ≡ some p
      → p.0 ≡ page
  with_cursor-page page p h =
      let (last, e, same) = chain_parts (last_row page) _ h in
      sym (ap (λ (r : EventTable G F × Option Cursor). r.0) (some_inj same))

  cut_page-IsWithin :
      (limit : ℕ) (b : Bool) (rows : EventTable G F) (p : EventTable G F × Option Cursor)
      → leb (length rows) limit ≡ b
      → (if b then some (rows, none) else with_cursor (take limit rows)) ≡ some p
      → IsWithin limit p
  cut_page-IsWithin limit true rows p e h =
      let same = some_inj h in
      (
        subst (λ (r : EventTable G F × Option Cursor). length r.0 ≤ limit) same (ground (arith, e)),
        inl (sym (ap (λ (r : EventTable G F × Option Cursor). is_none r.1) same)),
      )
  cut_page-IsWithin limit false rows p e h =
      let same = ap length (with_cursor-page (take limit rows) p h) ∙ length-take limit rows in
      (omega (arith, same), inr (ground (arith, same, e)))

  list_page-IsWithin :
      (listed : HazardEvent G F → Bool) (limit : ℕ) (c : Option Cursor) (t : EventTable G F)
      (p : EventTable G F × Option Cursor)
      → list_page listed limit c t ≡ some p
      → IsWithin limit p
  unfolding list_page
  list_page-IsWithin listed limit c t p h =
      cut_page-IsWithin limit _ (take (limit + 1) (rows_after listed c t)) p refl h

-- A collection within the limit, that says how many features it has, and is full where it has a
-- cursor.
abbrev pub IsBounded : {F : Type 0} → ℕ → EventFeatureCollection F → Type 0
IsBounded limit c =
    (c.number_returned ≡ length c.features)
    × (c.number_returned ≤ limit)
    × ((is_none c.next_cursor ≡ true) ⊎ (c.number_returned ≡ limit))

refused_ne_replied :
    {A : Type 0} {n : ℕ} {code detail : String} {a : A}
    → ◌≡◌ {A = Reply A} (refused n code detail) (replied a)
    → ⊥
refused_ne_replied h = cc

replied_inj : {A : Type 0} {a b : A} → ◌≡◌ {A = Reply A} (replied a) (replied b) → a ≡ b
replied_inj h = cc

reply_parts : {A : Type 0} (r : Result QueryError A) {a : A} → reply_of r ≡ replied a → r ≡ ok a
unfolding reply_of
reply_parts (error (business_validation e)) h = absurd (refused_ne_replied h)
reply_parts (error (not_found e)) h = absurd (refused_ne_replied h)
reply_parts (error unhandled) h = absurd (refused_ne_replied h)
reply_parts (ok a) h = ap ok (replied_inj h)

guard_reply :
    {A : Type 0} (b : Bool) (r : Reply A) {a : A}
    → (if b then r else validation_error) ≡ replied a
    → (b ≡ true) × (r ≡ replied a)
guard_reply true r h = (refl, h)
guard_reply false r h = absurd (refused_ne_replied h)

limit_range :
    (q : EventQuery) (two_digits : String → Bool)
    → is_valid_query two_digits q ≡ true
    → q.limit ≤ 1000
limit_range q two_digits valid = ground (arith, valid)

no_cursor :
    (o : Option Cursor) (f : Cursor → String) → is_none o ≡ true → is_none (Option.map f o) ≡ true
no_cursor none f h = refl
no_cursor (some c) f h = h

module _ {G F : Type 0} (lib : QueryLibraries G F) where
  collected-IsBounded :
      (limit : ℕ) (province : Option String) (page : EventTable G F) (next : Option Cursor)
      (o : Option (List (EventFeature F))) {c : EventFeatureCollection F}
      → IsWithin limit (page, next)
      → all_of (feature_from_orm lib) page ≡ o
      → collected lib province next o ≡ ok c
      → IsBounded limit c
  collected-IsBounded limit province page next none w e h = absurd (error_ne_ok h)
  collected-IsBounded limit province page next (some features) (small, full) e h =
      let same = length-all_of (feature_from_orm lib) page e in
      subst (IsBounded limit) (ok_inj h) (
        refl,
        omega (arith, small, same),
        elim full [ inl last ↦ inl (no_cursor next _ last) | inr whole ↦ inr (same ∙ whole) ],
      )

  page_result-IsBounded :
      (limit : ℕ) (province : Option String) (r : Option (EventTable G F × Option Cursor))
      {c : EventFeatureCollection F}
      → ((p : EventTable G F × Option Cursor) → r ≡ some p → IsWithin limit p)
      → page_result lib province r ≡ ok c
      → IsBounded limit c
  page_result-IsBounded limit province none k h = absurd (error_ne_ok h)
  page_result-IsBounded limit province (some (page, next)) k h =
      collected-IsBounded limit province page next _ (k (page, next) refl) refl h

  list_events-IsBounded :
      (now : ℕ) (q : EventQuery) (cursor : Option String) (t : EventTable G F)
      {c : EventFeatureCollection F}
      → list_events lib now q cursor t ≡ ok c
      → IsBounded q.limit c
  unfolding list_events
  list_events-IsBounded now q cursor t h =
      let (box, b, rest) = and_then_parts (parse_box lib.floats q.bbox_raw) _ h in
      let (at, c, result) = and_then_parts (read_cursor lib.cursors cursor) _ rest in
      page_result-IsBounded q.limit q.province _
        (list_page-IsWithin (is_listed lib.intersects now (filters_of q box)) q.limit at t) result

  -- A reply of the list of events with the status 200 has at most as many features as the limit of
  -- the request, 1000 at most, says how many it has, and is full where it has a cursor for the
  -- next page.
  pub list_route-IsBounded :
      (two_digits : String → Bool) (now : ℕ) (q : EventQuery) (cursor : Option String)
      (t : EventTable G F) {c : EventFeatureCollection F}
      → list_route lib two_digits now q cursor t ≡ replied c
      → IsBounded q.limit c × (q.limit ≤ 1000)
  unfolding list_route
  list_route-IsBounded two_digits now q cursor t h =
      let (valid, reply) = guard_reply (is_valid_query two_digits q) _ h in
      (list_events-IsBounded now q cursor t (reply_parts _ reply), limit_range q two_digits valid)
