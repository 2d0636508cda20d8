-- ===== src/Notifications/Episodes/Batch/Tests.antt =====
-- A batch with two earthquakes, one of them twice, for one subscription.
use mathlib.Core.Option
use geo_hazard.Base.{ℕ, ◌+◌, String, ◌≡◌, refl, ◌&◌, Bool, false, Option, none, some, List, [], ◌∷◌}
use geo_hazard.Base.Query.{first_where, update_where}
use geo_hazard.Hazards.Model.{ign, earthquake}
use geo_hazard.Notifications.Model.{Tables, ntfy, active}
use geo_hazard.Notifications.Episodes.{
  decide, decide_current, is_current, open_episode, refresh, add_delivery, close,
}
use geo_hazard.Notifications.Episodes.Batch.{
  Match, Group, Making, add_match, add_matches, groups_of, current_episode, handle_group,
  handle_groups, act, open_and_deliver, close_current, deliver, match_batch,
}
use geo_hazard.Notifications.Episodes.Batch.Again.{left_by, handle_group-again}

abbrev quake : Match ℕ ℕ
quake = record {
  subscription_id = 1;
  event_id = 50;
  source = ign;
  hazard_type = earthquake;
  external_id = "es2026abc";
  severity = 2;
  starts_at = 1000;
  ends_at = some 1000;
  attrs = [];
  geometry = 7;
}

abbrev matches : List (Match ℕ ℕ)
matches = quake ∷ record quake { external_id = "es2026abd" } ∷ record quake { severity = 3 } ∷ []

abbrev key_of : Match ℕ ℕ → String
key_of m = "ign:" & m.external_id

abbrev making : Making ℕ ℕ ℕ
making = record { batch_at = 2000; grace = 60; now = 2000; feature = λ m. m.event_id }

abbrev ids : ℕ → ℕ × ℕ
ids n = (100 + n, 200 + n)

abbrev tables : Tables ℕ
tables = record {
  subscriptions =
      record {
        id = 1;
        watch_area_id = 10;
        hazard_types = earthquake ∷ [];
        severity_min = 2;
        channel = ntfy;
        endpoint = "https://ntfy.sh";
        credential = "topic";
        status = active;
        paused_reason = none;
        consecutive_failures = 0;
        failing_since = none;
        retry_at = none;
        last_sent_at = none;
        last_error = none;
      }
      ∷ [];
  episodes = [];
  deliveries = [];
}

abbrev group : Group ℕ ℕ
group = record {
  subscription_id = 1;
  key = "ign:es2026abc";
  severity = 3;
  expires_at = none;
  matches = quake ∷ record quake { severity = 3 } ∷ [];
}

-- Two episodes, and two deliveries.
match_run : Option.map (λ s. s.0) (match_batch making key_of ids matches tables) ≡ some 2
unfolding match_batch handle_groups handle_group act open_and_deliver close_current deliver decide
    decide_current is_current open_episode refresh add_delivery close current_episode groups_of
    add_matches add_match first_where update_where
match_run = refl

abbrev once : Option (Bool × Tables ℕ)
once = handle_group making (100, 200) group (current_episode making group tables) tables

abbrev after : Bool × Tables ℕ
after = elim once [ none ↦ (false, tables) | some s ↦ s ]

handle_group-again_example :
    left_by (handle_group making (101, 201) group (current_episode making group after.1) after.1)
    ≡ some (false, after.1.deliveries, after.1.subscriptions)
unfolding handle_group act open_and_deliver close_current deliver decide decide_current is_current
    open_episode refresh add_delivery close current_episode first_where update_where
handle_group-again_example =
    handle_group-again making group refl (100, 200) (101, 201) tables {s = after} refl
