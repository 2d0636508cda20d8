-- ===== src/Hazards/Pages.antt =====
-- `_apply_filters` and `list_page` of app/hazards/repos/hazard_event.py. `meets` is the
-- intersection of a box with a geometry, `now` the reading of the clock for `active`.
pub mod Keyset
pub mod Walk
use geo_hazard.Base.{
  ℕ, zero, suc, ◌+◌, String, Bool, true, false, ◌&&◌, ◌||◌, Option, none, some, List, [], ◌∷◌, any,
  take, length, ltb, leb, ◌==◌, str_eq, none_or, if◌then◌else◌,
}
use geo_hazard.Base.Query.{select_where, order_by}
use geo_hazard.Hazards.Model.{Source, HazardType, same_source, same_type, HazardEvent, EventTable}

-- The filters of a query; no hazard types is no filter on them.
pub record Filters (B : Type 0) : Type 0 where
  pub bbox : Option B
  pub province : Option String
  pub hazard_types : List HazardType
  pub source : Option Source
  pub severity_min : Option ℕ
  pub starts_after : Option ℕ
  pub starts_before : Option ℕ
  pub active : Bool

-- (starts_at, id)
abbrev pub Cursor : Type 0
Cursor = ℕ × ℕ

-- The order of tuples, (a, b) < (c, d).
abbrev pub tuple_before : Cursor → Cursor → Bool
tuple_before a b = ltb a.0 b.0 || a.0 == b.0 && ltb a.1 b.1

module _ {G F : Type 0} where
  abbrev pub in_types : List HazardType → HazardEvent G F → Bool
  in_types [] e = true
  in_types (h ∷ hs) e = any (same_type e.hazard_type) (h ∷ hs)

  -- It has begun, and is open or covers this instant.
  abbrev pub is_active_at : ℕ → HazardEvent G F → Bool
  is_active_at now e = leb e.starts_at now && none_or (λ end. leb now end) e.ends_at

  abbrev pub passes_filters : {B : Type 0} → ℕ → Filters B → HazardEvent G F → Bool
  passes_filters now f e =
      in_types f.hazard_types e
      && none_or (same_source e.source) f.source
      && none_or (λ s. leb s e.severity) f.severity_min
      && none_or (λ s. leb s e.starts_at) f.starts_after
      && none_or (λ s. leb e.starts_at s) f.starts_before
      && (if f.active then is_active_at now e else true)

  abbrev pub in_province : Option String → HazardEvent G F → Bool
  in_province p e =
      none_or (λ c. elim e.province_code [ none ↦ false | some code ↦ str_eq code c ]) p

  abbrev pub is_listed : {B : Type 0} → (B → G → Bool) → ℕ → Filters B → HazardEvent G F → Bool
  is_listed meets now f e =
      none_or (λ b. meets b e.geom) f.bbox && in_province f.province e && passes_filters now f e

  abbrev pub cursor_of : HazardEvent G F → Cursor
  cursor_of e = (e.starts_at, e.id)

  abbrev pub after_cursor : Option Cursor → HazardEvent G F → Bool
  after_cursor c e = none_or (λ k. tuple_before (cursor_of e) k) c

  -- ORDER BY starts_at DESC, id DESC
  abbrev pub newest_first : HazardEvent G F → HazardEvent G F → Bool
  newest_first a b = tuple_before (cursor_of b) (cursor_of a)

  -- page[-1], which an empty page has not.
  abbrev pub last_row : List (HazardEvent G F) → Option (HazardEvent G F)
  last_row [] = none
  last_row (e ∷ []) = some e
  last_row (e ∷ d ∷ es) = last_row (d ∷ es)

  -- The rows that the query gives for a cursor, without its limit.
  abbrev pub rows_after : (HazardEvent G F → Bool) → Option Cursor → EventTable G F → EventTable G F
  rows_after listed cursor t =
      order_by newest_first (select_where (λ e. listed e && after_cursor cursor e) t)

  abbrev pub with_cursor : EventTable G F → Option (EventTable G F × Option Cursor)
  with_cursor page = elim (last_row page) [
    | none ↦ none
    | some last ↦ some (page, some (cursor_of last))
  ]

  -- The page that is cut from the rows, which are one more than the limit at most.
  abbrev pub cut_page : ℕ → EventTable G F → Option (EventTable G F × Option Cursor)
  cut_page limit rows =
      if leb (length rows) limit then some (rows, none) else with_cursor (take limit rows)

  -- A page and the cursor of the next one; `none` where it raises.
  unfoldable pub list_page :
      (HazardEvent G F → Bool)
      → ℕ
      → Option Cursor
      → EventTable G F
      → Option (EventTable G F × Option Cursor)
  list_page listed limit cursor t = cut_page limit (take (limit + 1) (rows_after listed cursor t))
