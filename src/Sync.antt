-- ===== src/Sync.antt =====
-- What the syncs of the three sources share: app/hazards/use_cases/sync_*.py, the event bus of
-- app/core/events/bus.py, app/hazards/services/content_hash.py and the conversions of
-- app/hazards/services/geometry.py. Shapely, the JSON writer and SHA-256 are arguments.
pub mod Effis
pub mod Ign
pub mod Polygons
pub mod Aemet
pub mod Jobs
pub mod Closing
pub mod Cursors
mod Tests
use geo_hazard.Base.{
  ℕ, ◌+◌, String, Bool, true, false, not, ◌&&◌, ◌||◌, Option, none, some, List, [], ◌∷◌, ◌++◌, map,
  any, ◌==◌, str_eq, if◌then◌else◌, text_before,
}
use geo_hazard.Base.Query.{select_where, order_by}
use geo_hazard.Base.Dict.{Dict, lookup}
use geo_hazard.Base.Json.{Json, text, array, object, Fields, end, field, to_items, items_of}
use geo_hazard.Base.Floats.{Floats}
use geo_hazard.Hazards.Model.{Source, effis, ign, aemet, Key, Attrs, NewEvent, EventTable}
use geo_hazard.Hazards.Upsert.{Upserted, upsert_batch}
use geo_hazard.Hazards.Close.{close_events}
use geo_hazard.Outbox.{OutboxEvent, pending}
use geo_hazard.Sources.{SourceSyncState, state_of, record_success}

-- The libraries that the use cases call.
pub record Libraries (G F : Type 0) : Type 0 where
  pub floats : Floats F
  -- shapely.geometry.shape, `none` where it raises
  pub shape : Json F → Option G
  pub is_empty : G → Bool
  pub point : F → F → G
  -- a ring of (longitude, latitude)
  pub polygon : List (F × F) → G
  pub is_valid : G → Bool
  pub make_valid : G → G
  -- json.dumps with sorted keys, and hashlib.sha256
  pub dumps : Json F → String
  pub sha256 : String → String
  pub isoformat : ℕ → String
  -- the trigger of the database
  pub province : G → Option String

-- What a run reads: the time of its transaction, the clock, and the identifiers that the server
-- gives to what it inserts.
pub record Readings : Type 0 where
  pub transaction_at : ℕ
  pub clock : ℕ
  pub event_ids : Key → ℕ
  pub outbox_id : ℕ
  pub max_retries : ℕ

abbrev pub batch_ingested : String
batch_ingested = "hazards.batch_ingested"

-- The payload of `hazards.batch_ingested`. The mark of the batch is the time itself, of which the
-- event carries the ISO text.
pub record BatchIngested : Type 0 where
  pub source : Source
  pub inserted : ℕ
  pub updated : ℕ
  pub closed : Option ℕ
  pub batch_at : ℕ

abbrev pub source_name : Source → String
source_name effis = "effis"
source_name ign = "ign"
source_name aemet = "aemet"

abbrev pub Cursor : Type 0 → Type 0
Cursor F = Dict (Json F)

-- The tables that a sync reads and writes.
pub record World (G F : Type 0) : Type 0 where
  pub events : EventTable G F
  pub states : List (SourceSyncState (Cursor F))
  pub outbox : List (OutboxEvent BatchIngested)

-- `EventBus.publish`, with the defaults of the columns.
unfoldable pub publish :
    {P : Type 0} → ℕ → ℕ → ℕ → String → P → List (OutboxEvent P) → List (OutboxEvent P)
publish id max_retries now event_type payload t =
    t
    ++ record {
      id = id;
      event_type = event_type;
      payload = payload;
      status = pending;
      retry_count = 0;
      max_retries = max_retries;
      scheduled_at = now;
      last_error = none;
      processed_at = none;
      handler_state = [];
    }
      ∷ []

-- previous - current
abbrev pub vanished : List String → List String → List String
vanished previous current = select_where (λ id. not (any (str_eq id) current)) previous

abbrev pub is_changed_batch : BatchIngested → Bool
is_changed_batch b =
    not (b.inserted == 0)
    || not (b.updated == 0)
    || elim b.closed [ none ↦ false | some n ↦ not (n == 0) ]

module _ {F : Type 0} where
  abbrev pub to_object : Dict (Json F) → Fields F
  to_object [] = end
  to_object ((k, v) ∷ d) = field k v (to_object d)

  abbrev pub texts_of : List (Json F) → List String
  texts_of [] = []
  texts_of (text s ∷ vs) = s ∷ texts_of vs
  texts_of (_ ∷ vs) = texts_of vs

  abbrev pub ids_of : Option (Json F) → List String
  ids_of (some (array vs)) = texts_of (items_of vs)
  ids_of _ = []

  -- state.cursor.get(key, []), of the state or without one
  unfoldable pub previous_ids : String → Option (SourceSyncState (Cursor F)) → List String
  previous_ids key none = []
  previous_ids key (some s) = ids_of (lookup key s.cursor)

  -- {key: sorted(ids)}
  unfoldable pub ids_cursor : String → List String → Cursor F
  ids_cursor key ids = (key, array (to_items (map text (order_by text_before ids)))) ∷ []

module _ {G F : Type 0} where
  pub content_hash : Libraries G F → Json F → String
  content_hash lib payload = lib.sha256 (lib.dumps payload)

  pub geojson_to_wkb : Libraries G F → Json F → Option G
  geojson_to_wkb lib geometry = elim (lib.shape geometry) [
    | none ↦ none
    | some geom ↦ if lib.is_empty geom then none else some geom
  ]

  -- [self._to_row(x) for x in …], where a row may raise
  unfoldable pub all_rows :
      {R : Type 0} → (R → Option (NewEvent G F)) → List R → Option (List (NewEvent G F))
  all_rows to_row [] = some []
  all_rows to_row (r ∷ rs) =
      let rest = all_rows to_row rs in
      elim (to_row r) [
        | none ↦ none
        | some row ↦ elim rest [ none ↦ none | some rows ↦ some (row ∷ rows) ]
      ]

  -- `_close_vanished`, with the ids of the cursor that are no longer served.
  pub close_vanished :
      Source
      → String
      → List String
      → ℕ
      → List (SourceSyncState (Cursor F))
      → EventTable G F
      → ℕ × EventTable G F
  close_vanished source key current batch_at states t =
      close_events source
        (vanished (previous_ids key (state_of (source_name source) states)) current) batch_at
        batch_at t

  -- The end of a sync: the state of the source, and the event if anything changed.
  unfoldable pub finish_sync :
      Readings → BatchIngested → Option (Cursor F) → EventTable G F → World G F → World G F
  finish_sync at batch cursor events w = record {
    events = events;
    states = record_success [] (source_name batch.source) cursor at.clock w.states;
    outbox =
        if is_changed_batch batch
        then publish at.outbox_id at.max_retries at.transaction_at batch_ingested batch w.outbox
        else w.outbox;
  }
