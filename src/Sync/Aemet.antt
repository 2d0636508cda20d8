-- ===== src/Sync/Aemet.antt =====
-- app/hazards/use_cases/sync_aemet.py and app/core/aemet/types.py.
pub mod Lifecycle
use geo_hazard.Base.{
  ℕ, zero, suc, ◌+◌, String, Bool, true, false, not, ◌&&◌, ◌||◌, Option, none, some, List, [], ◌∷◌,
  ◌++◌, map, any, length, ltb, ◌==◌, str_eq, is_none, if◌then◌else◌, strip, lower, words, partition,
}
use geo_hazard.Base.Query.{select_where}
use geo_hazard.Base.Dict.{Dict, insert}
use geo_hazard.Base.Json.{Json, null, text, object}
use geo_hazard.Base.Floats.{Floats}
use geo_hazard.Hazards.Model.{aemet, weather_warning, Attrs, NewEvent, EventTable}
use geo_hazard.Hazards.Severity.{aemet_severity}
use geo_hazard.Hazards.Upsert.{Upserted, upsert_batch}
use geo_hazard.Hazards.Close.{close_events}
use geo_hazard.Sync.Polygons.{cap_polygon_to_wkb}
use geo_hazard.Sync.{
  Libraries, Readings, World, content_hash, to_object, all_rows, ids_cursor, close_vanished,
  finish_sync,
}

pub record AemetWarning (F : Type 0) : Type 0 where
  pub external_id : String
  pub msg_type : String
  pub sent : ℕ
  pub references : List String
  pub event : Option String
  pub phenomenon : Option String
  pub level : Option String
  pub onset : Option ℕ
  pub expires : Option ℕ
  pub polygon : Option String
  pub zone : Option String
  pub area_desc : Option String
  pub attrs : Attrs F

abbrev pub msg_type_alert : String
msg_type_alert = "Alert"

abbrev pub msg_type_update : String
msg_type_update = "Update"

abbrev pub msg_type_cancel : String
msg_type_cancel = "Cancel"

-- bool(s) of an optional text
abbrev pub has_text : Option String → Bool
has_text none = false
has_text (some s) = not (str_eq s "")

-- A level that is there and is not green.
abbrev pub is_alarming : Option String → Bool
is_alarming none = false
is_alarming (some level) = not (str_eq (lower (strip level)) "verde")

-- by_sent: the references that each time of sending supersedes
unfoldable pub add_references : ℕ → List String → List (ℕ × List String) → List (ℕ × List String)
add_references sent ids [] = (sent, ids) ∷ []
add_references sent ids ((s, js) ∷ gs) =
    if s == sent then (s, js ++ ids) ∷ gs else (s, js) ∷ add_references sent ids gs

module _ {F : Type 0} where
  abbrev pub identifiers : List (AemetWarning F) → List String
  identifiers ws = map (λ w. w.external_id) ws

  -- `_is_ingestible`
  abbrev pub is_ingestible : AemetWarning F → Bool
  is_ingestible w =
      (str_eq w.msg_type msg_type_alert || str_eq w.msg_type msg_type_update)
      && is_alarming w.level
      && has_text w.polygon
      && not (is_none w.onset)
      && not (is_none w.expires)

  abbrev pub supersedes : AemetWarning F → Bool
  supersedes w =
      (str_eq w.msg_type msg_type_update || str_eq w.msg_type msg_type_cancel)
      && ltb 0 (length w.references)

  unfoldable pub by_sent : List (AemetWarning F) → List (ℕ × List String) → List (ℕ × List String)
  unfolding add_references
  by_sent [] gs = gs
  by_sent (w ∷ ws) gs =
      by_sent ws (if supersedes w then add_references w.sent w.references gs else gs)

  -- The dictionary without the keys of None, `**warning.attrs` being the last entries.
  abbrev optional : Option String → Json F
  optional none = null
  optional (some s) = text s

  abbrev with_all : Attrs F → Attrs F → Attrs F
  with_all [] d = d
  with_all ((k, v) ∷ es) d = with_all es (insert k v d)

  abbrev not_null : String × Json F → Bool
  not_null (k, null) = false
  not_null (k, _) = true

  unfoldable pub aemet_attrs : AemetWarning F → Attrs F
  aemet_attrs w = select_where not_null (
      with_all w.attrs (
        ("event", optional w.event)
        ∷ ("phenomenon", optional w.phenomenon)
        ∷ ("level", optional w.level)
        ∷ ("zone", optional w.zone)
        ∷ ("area_desc", optional w.area_desc)
        ∷ []))

module _ {G F : Type 0} where
  -- The closings of `_close_superseded`, with their count.
  unfoldable pub close_groups : ℕ → List (ℕ × List String) → EventTable G F → ℕ × EventTable G F
  close_groups now [] t = (0, t)
  close_groups now ((sent, ids) ∷ gs) t =
      let (n, t₁) = close_events aemet ids sent now t in
      let (m, t₂) = close_groups now gs t₁ in (n + m, t₂)

  unfoldable pub close_superseded : ℕ → List (AemetWarning F) → EventTable G F → ℕ × EventTable G F
  unfolding close_groups
  close_superseded now warnings t = close_groups now (by_sent warnings []) t

module _ {G F : Type 0} (lib : Libraries G F) where
  abbrev pub aemet_payload : AemetWarning F → String → ℕ → ℕ → Json F
  aemet_payload w polygon onset expires = object (
      to_object (
        ("polygon", text polygon)
        ∷ ("attrs", object (to_object (aemet_attrs w)))
        ∷ ("onset", text (lib.isoformat onset))
        ∷ ("expires", text (lib.isoformat expires))
        ∷ []))

  abbrev aemet_row : AemetWarning F → String → ℕ → ℕ → G → ℕ → NewEvent G F
  aemet_row w polygon onset expires geom severity = record {
    source = aemet;
    hazard_type = weather_warning;
    external_id = w.external_id;
    geom = geom;
    severity = severity;
    starts_at = onset;
    ends_at = some expires;
    attrs = aemet_attrs w;
    content_hash = content_hash lib (aemet_payload w polygon onset expires);
  }

  complete_row : AemetWarning F → String → String → ℕ → ℕ → Option (NewEvent G F)
  complete_row w level polygon onset expires = elim (cap_polygon_to_wkb lib polygon) [
    | none ↦ none
    | some geom ↦ elim (aemet_severity level) [
      | none ↦ none
      | some severity ↦ some (aemet_row w polygon onset expires geom severity)
    ]
  ]

  row_with :
      AemetWarning F → Option String → Option String → Option ℕ → Option ℕ → Option (NewEvent G F)
  unfolding complete_row
  row_with w (some level) (some polygon) (some onset) (some expires) =
      if str_eq level "" || str_eq polygon ""
      then none
      else complete_row w level polygon onset expires
  row_with w _ _ _ _ = none

  -- `_to_row`; `none` is a ValueError.
  unfoldable pub aemet_to_row : AemetWarning F → Option (NewEvent G F)
  unfolding row_with
  aemet_to_row w = row_with w w.level w.polygon w.onset w.expires

  unfoldable pub aemet_after :
      Readings → List (AemetWarning F) → World G F → Upserted G F → (ℕ × ℕ × ℕ) × World G F
  aemet_after at warnings w u =
      let ingestible = select_where is_ingestible warnings in
      let (superseded, t₁) = close_superseded at.transaction_at warnings u.table in
      let (gone, t₂) =
        close_vanished aemet "identifiers" (identifiers ingestible) at.transaction_at w.states t₁ in
      (
        (u.inserted, u.updated, superseded + gone),
        finish_sync at
            (record {
              source = aemet;
              inserted = u.inserted;
              updated = u.updated;
              closed = some (superseded + gone);
              batch_at = at.transaction_at;
            })
            (some (ids_cursor "identifiers" (identifiers ingestible))) t₂ w,
      )

  -- `execute`, after the download; `none` where it raises a ValueError.
  unfoldable pub aemet_batch :
      Readings → List (AemetWarning F) → World G F → Option ((ℕ × ℕ × ℕ) × World G F)
  aemet_batch at warnings w = elim (all_rows aemet_to_row (select_where is_ingestible warnings)) [
    | none ↦ none
    | some rows ↦ elim (upsert_batch lib.province at.event_ids at.transaction_at rows w.events) [
      | none ↦ none
      | some u ↦ some (aemet_after at warnings w u)
    ]
  ]
