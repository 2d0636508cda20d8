-- ===== src/Sync/Effis.antt =====
-- app/hazards/use_cases/sync_effis.py and app/core/effis/types.py.
pub mod Rows
pub mod Lifecycle
use geo_hazard.Base.{ℕ, String, Option, none, some, List, [], ◌∷◌, ◌++◌, map, str_eq, if◌then◌else◌}
use geo_hazard.Base.Dict.{insert}
use geo_hazard.Base.Json.{Json, text, number, object}
use geo_hazard.Hazards.Model.{effis, wildfire, Attrs, NewEvent}
use geo_hazard.Hazards.Severity.{effis_severity}
use geo_hazard.Hazards.Upsert.{Upserted, upsert_batch}
use geo_hazard.Sync.{
  Libraries, Readings, World, content_hash, to_object, geojson_to_wkb, all_rows, ids_cursor,
  close_vanished, finish_sync,
}

abbrev pub kind_hotspot : String
kind_hotspot = "hotspot"

abbrev pub kind_burnt_area : String
kind_burnt_area = "burnt_area"

pub record EffisRecord (F : Type 0) : Type 0 where
  pub external_id : String
  pub kind : String
  pub geometry : Json F
  pub observed_at : ℕ
  pub area_ha : Option F
  pub attrs : Attrs F

module _ {F : Type 0} where
  abbrev pub effis_attrs : EffisRecord F → Attrs F
  effis_attrs r =
      let kinds = insert "kind" (text r.kind) r.attrs in
      elim r.area_ha [ none ↦ kinds | some a ↦ insert "area_ha" (number a) kinds ]

  abbrev pub served : List (EffisRecord F) → List String
  served burnt_areas = map (λ r. r.external_id) burnt_areas

module _ {G F : Type 0} (lib : Libraries G F) where
  abbrev pub effis_payload : EffisRecord F → Json F
  effis_payload r = object (
      to_object (
        ("geometry", r.geometry)
        ∷ ("attrs", object (to_object (effis_attrs r)))
        ∷ ("observed_at", text (lib.isoformat r.observed_at))
        ∷ []))

  abbrev pub effis_row : EffisRecord F → G → ℕ → NewEvent G F
  effis_row r geom severity = record {
    source = effis;
    hazard_type = wildfire;
    external_id = r.external_id;
    geom = geom;
    severity = severity;
    starts_at = r.observed_at;
    ends_at = if str_eq r.kind kind_hotspot then some r.observed_at else none;
    attrs = effis_attrs r;
    content_hash = content_hash lib (effis_payload r);
  }

  -- `_to_row`; `none` where the geometry or the kind raises a ValueError.
  unfoldable pub effis_to_row : EffisRecord F → Option (NewEvent G F)
  effis_to_row r = elim (geojson_to_wkb lib r.geometry) [
    | none ↦ none
    | some geom ↦ elim (effis_severity lib.floats r.kind r.area_ha) [
      | none ↦ none
      | some severity ↦ some (effis_row r geom severity)
    ]
  ]

  -- What follows the upsert.
  unfoldable pub effis_after :
      Readings → List (EffisRecord F) → World G F → Upserted G F → (ℕ × ℕ × ℕ) × World G F
  effis_after at burnt_areas w u =
      let (closed, events) =
        close_vanished effis "burnt_area_ids" (served burnt_areas) at.transaction_at w.states
          u.table in
      (
        (u.inserted, u.updated, closed),
        finish_sync at
            (record {
              source = effis;
              inserted = u.inserted;
              updated = u.updated;
              closed = some closed;
              batch_at = at.transaction_at;
            })
            (some (ids_cursor "burnt_area_ids" (served burnt_areas))) events w,
      )

  -- `execute`, after both downloads; `none` where it raises a ValueError.
  unfoldable pub effis_batch :
      Readings
      → List (EffisRecord F)
      → List (EffisRecord F)
      → World G F
      → Option ((ℕ × ℕ × ℕ) × World G F)
  effis_batch at hotspots burnt_areas w = elim (all_rows effis_to_row (hotspots ++ burnt_areas)) [
    | none ↦ none
    | some rows ↦ elim (upsert_batch lib.province at.event_ids at.transaction_at rows w.events) [
      | none ↦ none
      | some u ↦ some (effis_after at burnt_areas w u)
    ]
  ]
