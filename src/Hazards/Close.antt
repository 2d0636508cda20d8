-- ===== src/Hazards/Close.antt =====
-- `HazardEventRepo.close_events` of app/hazards/repos/hazard_event.py, at the time `now` of the
-- transaction. `external_ids` is a collection without an order.
pub mod Laws
use geo_hazard.Base.{
  ℕ, String, Bool, ◌&&◌, Option, none, some, List, [], ◌∷◌, any, ltb, str_eq, none_or,
}
use geo_hazard.Base.Query.{update_where, count_where}
use geo_hazard.Hazards.Model.{Source, same_source, HazardEvent, EventTable}

module _ {G F : Type 0} where
  -- WHERE: of the source, among the ids, and open at `ended_at`.
  abbrev pub is_open_at : Source → List String → ℕ → HazardEvent G F → Bool
  is_open_at source external_ids ended_at e =
      same_source e.source source
      && any (str_eq e.external_id) external_ids
      && none_or (λ end. ltb ended_at end) e.ends_at

  abbrev pub closed_row : ℕ → ℕ → HazardEvent G F → HazardEvent G F
  closed_row ended_at now e = record e { ends_at = some ended_at; updated_at = some now }

  unfoldable pub close_events : Source → List String → ℕ → ℕ → EventTable G F → ℕ × EventTable G F
  close_events source [] ended_at now t = (0, t)
  close_events source (x ∷ xs) ended_at now t = (
    count_where (is_open_at source (x ∷ xs) ended_at) t,
    update_where (is_open_at source (x ∷ xs) ended_at) (closed_row ended_at now) t,
  )
