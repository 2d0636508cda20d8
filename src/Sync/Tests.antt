-- ===== src/Sync/Tests.antt =====
-- The theorems on the syncs at a burnt area that is served once, an earthquake that is served
-- twice, a cancelled warning and a source that fails.
use geo_hazard.Base.{
  In, ℕ, ◌+◌, ◌≡◌, refl, true, false, Option, none, some, List, [], ◌∷◌, ltb, leb, arith, length,
  All, str_eq,
}
use geo_hazard.Base.Json.{null}
use geo_hazard.Base.Floats.{Floats}
use geo_hazard.Hazards.Model.{HazardEvent, effis, ign, aemet, weather_warning, event_at}
use geo_hazard.Base.Query.{
  select_where, first_where, update_where, count_where, order_by, insert_by,
}
use geo_hazard.Hazards.Severity.{first_level, effis_severity}
use geo_hazard.Hazards.Severity.Laws.{InRange, effis_severity-InRange}
use geo_hazard.Hazards.Upsert.{
  upsert_batch, run_statements, run_statement, upsert_row, conflict, chunks, chunks_from,
  deduplicate, put_rows, put_row, inserted_row,
}
use geo_hazard.Hazards.Close.{close_events}
use geo_hazard.Base.Dict.{lookup}
use geo_hazard.Sources.{record_success, state_of, healthy}
use geo_hazard.Sync.{
  Libraries, Readings, World, geojson_to_wkb, all_rows, previous_ids, ids_cursor, close_vanished,
  finish_sync,
}
use geo_hazard.Sync.Closing.{EndsBy, key_of}
use geo_hazard.Sync.Effis.{EffisRecord, kind_burnt_area, effis_to_row, effis_after, effis_batch}
use geo_hazard.Sync.Effis.Lifecycle.{effis_batch-EndsBy}
use geo_hazard.Sync.Ign.{IgnRecord, ign_batch}
use geo_hazard.Sync.Ign.Again.{polled, ign_batch_twice}
use geo_hazard.Sync.Aemet.{
  AemetWarning, msg_type_cancel, by_sent, add_references, close_groups, close_superseded,
  aemet_after, aemet_batch,
}
use geo_hazard.Sync.Aemet.Lifecycle.{aemet_batch-EndsBy}
use geo_hazard.Sync.Jobs.{Answer, protocol_error, transient_error}
use geo_hazard.Sync.Jobs.Failures.{run_jobs, run_jobs-degraded}
use geo_hazard.Notifications.Model.{Subscription, webhook, active}
use geo_hazard.Notifications.Manage.{WatchArea, bbox_kind}
use geo_hazard.Notifications.Matching.{
  match_of, Places, Geography, matches, subscription_matches, event_matches, area_matches,
}
use geo_hazard.Notifications.Matching.Sound.{IsMatch, IsSorted, matches-IsMatch}
use geo_hazard.Notifications.Matching.Joined.{IsJoined}
use geo_hazard.Notifications.Matching.Closed.{matches-superseded}

-- Tenths as natural numbers.
abbrev floats : Floats ℕ
floats = record {
  tenths = λ n. n;
  minus = λ a. 0;
  le = leb;
  lt = ltb;
  is_finite = λ a. true;
  read = λ s. some 370;
}

abbrev lib : Libraries ℕ ℕ
lib = record {
  floats = floats;
  shape = λ g. some 1;
  is_empty = λ g. false;
  point = λ x y. x + y;
  polygon = λ ps. length ps;
  is_valid = λ g. true;
  make_valid = λ g. g;
  dumps = λ v. "json";
  sha256 = λ s. s;
  isoformat = λ n. "2026";
  province = λ g. none;
}

abbrev at_time : ℕ → Readings
at_time n = record {
  transaction_at = n;
  clock = n;
  event_ids = λ k. n;
  outbox_id = n;
  max_retries = 3;
}

abbrev empty : World ℕ ℕ
empty = record { events = []; states = []; outbox = [] }

abbrev fire : EffisRecord ℕ
fire = record {
  external_id = "17";
  kind = kind_burnt_area;
  geometry = null;
  observed_at = 10;
  area_ha = some 60000;
  attrs = [];
}

abbrev world_of : {N : Type 0} → Option (N × World ℕ ℕ) → World ℕ ℕ
world_of none = empty
world_of (some r) = r.1

abbrev burning : World ℕ ℕ
burning = world_of (effis_batch lib (at_time 20) [] (fire ∷ []) empty)

abbrev burnt : World ℕ ℕ
burnt = world_of (effis_batch lib (at_time 30) [] [] burning)

first_run : effis_batch lib (at_time 20) [] (fire ∷ []) empty ≡ some ((1, 0, 0), burning)
unfolding effis_batch all_rows effis_to_row effis_severity effis_after upsert_batch run_statements
    run_statement upsert_row conflict chunks chunks_from deduplicate put_rows put_row first_where
    geojson_to_wkb close_vanished close_events select_where previous_ids
first_run = refl

second_run : effis_batch lib (at_time 30) [] [] burning ≡ some ((0, 0, 1), burnt)
unfolding effis_batch all_rows effis_to_row effis_severity effis_after upsert_batch run_statements
    run_statement upsert_row conflict chunks chunks_from deduplicate put_rows put_row first_where
    inserted_row close_vanished close_events finish_sync previous_ids ids_cursor record_success
    lookup order_by insert_by count_where select_where update_where geojson_to_wkb
second_run = refl

effis_batch-EndsBy_example : EndsBy 30 (event_at (key_of effis "17") burnt.events)
effis_batch-EndsBy_example =
    effis_batch-EndsBy lib (at_time 20) (at_time 30) [] [] (fire ∷ []) [] empty burning "17"
      first_run refl second_run refl refl

abbrev quake : IgnRecord ℕ
quake = record {
  external_id = "es2026abc";
  magnitude = 41;
  region = "Granada";
  latitude = 370;
  longitude = 36;
  occurred_at = 10;
  attrs = [];
}

abbrev first_poll : Option ((ℕ × ℕ) × World ℕ ℕ)
first_poll = ign_batch lib (at_time 20) (quake ∷ []) empty

abbrev polled_once : (ℕ × ℕ) × World ℕ ℕ
polled_once = elim first_poll [ none ↦ ((0, 0), empty) | some r ↦ r ]

ign_batch_twice_example :
    ign_batch lib (at_time 30) (quake ∷ []) polled_once.1
    ≡ some ((0, 0), polled lib (at_time 30) (quake ∷ []) polled_once.1)
unfolding ign_batch upsert_batch chunks deduplicate run_statement
ign_batch_twice_example =
    ign_batch_twice lib (at_time 20) (at_time 30) (quake ∷ []) empty {counts = polled_once.0}
      {w₁ = polled_once.1} refl

severity_run : effis_severity floats kind_burnt_area (some 60000) ≡ some 4
unfolding effis_severity first_level
severity_run = refl

effis_severity-InRange_example : InRange 4
effis_severity-InRange_example =
    effis_severity-InRange floats kind_burnt_area (some 60000) severity_run

abbrev warning : AemetWarning ℕ
warning = record {
  external_id = "w2";
  msg_type = msg_type_cancel;
  sent = 15;
  references = "w1" ∷ [];
  event = none;
  phenomenon = none;
  level = none;
  onset = none;
  expires = none;
  polygon = none;
  zone = none;
  area_desc = none;
  attrs = [];
}

abbrev known : World ℕ ℕ
known = record empty {
  events =
      record {
        id = 1;
        source = aemet;
        hazard_type = weather_warning;
        external_id = "w1";
        geom = 1;
        severity = 3;
        starts_at = 5;
        ends_at = some 40;
        attrs = [];
        content_hash = "json";
        province_code = none;
        created_at = 5;
        updated_at = none;
      }
      ∷ [];
}

abbrev cancelled : World ℕ ℕ
cancelled = world_of (aemet_batch lib (at_time 20) (warning ∷ []) known)

cancel_run : aemet_batch lib (at_time 20) (warning ∷ []) known ≡ some ((0, 0, 1), cancelled)
unfolding aemet_batch all_rows aemet_after upsert_batch by_sent add_references close_superseded
    close_groups close_vanished close_events select_where previous_ids first_where count_where
    update_where
cancel_run = refl

aemet_batch-EndsBy_example : EndsBy 15 (event_at (key_of aemet "w1") cancelled.events)
aemet_batch-EndsBy_example =
    aemet_batch-EndsBy lib (at_time 20) (warning ∷ []) known 15 "w1" cancel_run refl

abbrev failing : List (Readings × Answer (List (IgnRecord ℕ)))
failing = (at_time 20, transient_error "timeout") ∷ (at_time 30, protocol_error "no list") ∷ []

run_jobs-degraded_example :
    ((run_jobs ign (ign_batch lib) failing empty).events ≡ [])
    × ((run_jobs ign (ign_batch lib) failing empty).outbox ≡ [])
    × (healthy 50 2 2 none (state_of "ign" (run_jobs ign (ign_batch lib) failing empty).states)
        ≡ false)
run_jobs-degraded_example =
    run_jobs-degraded ign (ign_batch lib) failing empty 50 2 2 none (refl, (refl, tt)) (omega arith)

-- The matching of the batch that ended the warning.
abbrev geography : Geography ℕ ℕ
geography = record { intersects = λ a b. true; geojson = λ g. null }

abbrev watcher : Subscription
watcher = record {
  id = 1;
  watch_area_id = 1;
  hazard_types = weather_warning ∷ [];
  severity_min = 1;
  channel = webhook;
  endpoint = "https://a";
  credential = "";
  status = active;
  paused_reason = none;
  consecutive_failures = 0;
  failing_since = none;
  retry_at = none;
  last_sent_at = none;
  last_error = none;
}

abbrev watched : WatchArea ℕ ℕ
watched = record { id = 1; kind = bbox_kind; params = []; label = "all"; geom = 1 }

matches-superseded_example :
    All
      (λ m. str_eq m.external_id "w1" ≡ false)
      (matches geography aemet 20 60
        (record { subscriptions = watcher ∷ []; areas = watched ∷ []; events = cancelled.events }))
unfolding aemet_batch all_rows aemet_after upsert_batch by_sent add_references close_superseded
    close_groups close_vanished close_events select_where previous_ids first_where count_where
    update_where finish_sync record_success ids_cursor
matches-superseded_example =
    matches-superseded lib geography (at_time 20) (warning ∷ []) known 15 "w1" 20 60 (watcher ∷ [])
      (watched ∷ []) cancel_run refl (omega arith) (tt, tt)

-- The same batch without the message announces the warning.
announced :
    length (
      matches geography aemet 5 60
        (record { subscriptions = watcher ∷ []; areas = watched ∷ []; events = known.events }))
    ≡ 1
unfolding matches subscription_matches event_matches area_matches order_by insert_by
announced = refl

abbrev places : Places ℕ ℕ
places = record { subscriptions = watcher ∷ []; areas = watched ∷ []; events = known.events }

matches-IsMatch_example :
    All (IsMatch geography aemet 5 60 places) (matches geography aemet 5 60 places)
    × ((s : Subscription) (area : WatchArea ℕ ℕ) (e : HazardEvent ℕ ℕ)
        → In s (watcher ∷ [])
        → In area (watched ∷ [])
        → In e known.events
        → IsJoined geography aemet 5 60 s area e
        → In (match_of geography s e) (matches geography aemet 5 60 places))
    × IsSorted (matches geography aemet 5 60 places)
matches-IsMatch_example = matches-IsMatch geography aemet 5 60 places
