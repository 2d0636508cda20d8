-- ===== src/Sync/Ign.antt =====
-- app/hazards/use_cases/sync_ign.py and app/core/ign/types.py.
pub mod Again
use geo_hazard.Base.{ℕ, max, String, Option, none, some, List, [], ◌∷◌, map}
use geo_hazard.Base.Dict.{insert}
use geo_hazard.Base.Json.{Json, text, number, object}
use geo_hazard.Hazards.Model.{ign, earthquake, Attrs, NewEvent}
use geo_hazard.Hazards.Severity.{ign_severity}
use geo_hazard.Hazards.Upsert.{Upserted, upsert_batch}
use geo_hazard.Sync.{Libraries, Readings, World, Cursor, content_hash, to_object, finish_sync}

pub record IgnRecord (F : Type 0) : Type 0 where
  pub external_id : String
  pub magnitude : F
  pub region : String
  pub latitude : F
  pub longitude : F
  pub occurred_at : ℕ
  pub attrs : Attrs F

module _ {F : Type 0} where
  abbrev pub ign_attrs : IgnRecord F → Attrs F
  ign_attrs r = insert "region" (text r.region) (insert "magnitude" (number r.magnitude) r.attrs)

  -- max(r.occurred_at for r in records)
  abbrev pub latest : IgnRecord F → List (IgnRecord F) → ℕ
  latest r [] = r.occurred_at
  latest r (q ∷ rs) = max r.occurred_at (latest q rs)

module _ {G F : Type 0} (lib : Libraries G F) where
  abbrev pub ign_payload : IgnRecord F → Json F
  ign_payload r = object (
      to_object (
        ("latitude", number r.latitude)
        ∷ ("longitude", number r.longitude)
        ∷ ("attrs", object (to_object (ign_attrs r)))
        ∷ ("occurred_at", text (lib.isoformat r.occurred_at))
        ∷ []))

  unfoldable pub ign_to_row : IgnRecord F → NewEvent G F
  ign_to_row r = record {
    source = ign;
    hazard_type = earthquake;
    external_id = r.external_id;
    geom = lib.point r.longitude r.latitude;
    severity = ign_severity lib.floats r.magnitude;
    starts_at = r.occurred_at;
    ends_at = some r.occurred_at;
    attrs = ign_attrs r;
    content_hash = content_hash lib (ign_payload r);
  }

  unfoldable pub ign_cursor : List (IgnRecord F) → Option (Cursor F)
  ign_cursor [] = none
  ign_cursor (r ∷ rs) = some (("last_event_at", text (lib.isoformat (latest r rs))) ∷ [])

  unfoldable pub ign_after :
      Readings → List (IgnRecord F) → World G F → Upserted G F → (ℕ × ℕ) × World G F
  ign_after at records w u = (
    (u.inserted, u.updated),
    finish_sync at
        (record {
          source = ign;
          inserted = u.inserted;
          updated = u.updated;
          closed = none;
          batch_at = at.transaction_at;
        })
        (ign_cursor records) u.table w,
  )

  -- `execute`, after the download.
  unfoldable pub ign_batch :
      Readings → List (IgnRecord F) → World G F → Option ((ℕ × ℕ) × World G F)
  ign_batch at records w =
      elim (upsert_batch lib.province at.event_ids at.transaction_at (map ign_to_row records)
        w.events) [ none ↦ none | some u ↦ some (ign_after at records w u) ]
