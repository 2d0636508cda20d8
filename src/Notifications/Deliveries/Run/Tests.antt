-- ===== src/Notifications/Deliveries/Run/Tests.antt =====
-- The theorems on deliveries at two subscriptions with a pending delivery each.
use geo_hazard.Base.{
  ℕ, ◌≤◌, min, String, ◌≡◌, refl, Bool, true, false, none, some, [], ◌∷◌, arith, All, length, ◌==◌,
  if◌then◌else◌,
}
use geo_hazard.Base.Query.{
  select_where, update_where, order_by, insert_by, delete_where, count_where,
}
use geo_hazard.Hazards.Model.{earthquake}
use geo_hazard.Notifications.Model.{
  Subscription, Episode, Delivery, Tables, ClaimedSubscription, ntfy, active, pending, opened,
  is_pending,
}
use geo_hazard.Base.{inl}
use geo_hazard.Notifications.Deliveries.{
  leased, is_picked, picks, lease, claim, claimed_subscription, release, purge, mark_sent,
}
use geo_hazard.Notifications.Deliveries.Lease.{picks-lease}
use geo_hazard.Notifications.Deliveries.Marks.{purge-pending}
use geo_hazard.Notifications.Deliveries.Run.{
  DeliveryReport, Execution, Sending, delivered, channel_error, claims_of, execute, finish,
  send_all, send_from, attempt, outcome_of, record_all, record_outcome, record_message,
}
use geo_hazard.Notifications.Deliveries.Run.Account.{attempted, counted, execute-counts}

abbrev home : Subscription
home = record {
  id = 1;
  watch_area_id = 10;
  hazard_types = earthquake ∷ [];
  severity_min = 2;
  channel = ntfy;
  endpoint = "https://ntfy.sh";
  credential = "topic";
  status = active;
  paused_reason = none;
  consecutive_failures = 0;
  failing_since = some 100;
  retry_at = none;
  last_sent_at = some 500;
  last_error = none;
}

abbrev work : Subscription
work = record home { id = 2; last_sent_at = none }

abbrev shock : Delivery ℕ
shock = record {
  id = 20;
  subscription_id = 1;
  episode_id = 30;
  severity = 3;
  reason = opened;
  items = 7 ∷ [];
  item_count = 1;
  status = pending;
  attempts = 0;
  message_id = none;
  created_at = 400;
  sent_at = none;
}

abbrev episode : Episode
episode = record {
  id = 30;
  subscription_id = 1;
  key = "ign:es2026abc";
  notified_severity = 3;
  expires_at = none;
  opened_at = 400;
  last_matched_at = 400;
  closed_at = none;
}

abbrev tables : Tables ℕ
tables = record {
  subscriptions = home ∷ work ∷ [];
  episodes = episode ∷ [];
  deliveries = shock ∷ record shock { id = 21; subscription_id = 2; episode_id = 31 } ∷ [];
}

abbrev unlocked : ℕ → Bool
unlocked _ = false

abbrev clock : ℕ → String
clock _ = "2026-01-01 00:00"

-- Whoever never got a message comes first.
picks_run : picks unlocked 1000 200 50 tables ≡ work ∷ home ∷ []
unfolding picks order_by insert_by select_where
picks_run = refl

-- Meanwhile the deliveries that were pending are gone, and so is one of the subscriptions.
abbrev meanwhile : Tables ℕ
meanwhile = record tables { subscriptions = leased 1000 home ∷ []; deliveries = [] }

picks-lease_example :
    All (λ s. is_picked (work ∷ home ∷ []) s.id ≡ false) (picks unlocked 2000 200 50 meanwhile)
unfolding lease update_where
picks-lease_example =
    picks-lease unlocked 1000 2000 200 50 (work ∷ home ∷ []) tables meanwhile (omega arith)
      ((λ x. (leased 1000 home, inl refl, refl, refl)), tt)

purge-pending_example :
    select_where (λ d. is_pending d.status) (purge 90000 100 tables).1.deliveries
    ≡ select_where (λ d. is_pending d.status) tables.deliveries
purge-pending_example = purge-pending 90000 100 tables

abbrev answer : ClaimedSubscription ℕ → ℕ → Sending
answer c id = if c.id == 1 then channel_error "timeout" else delivered

-- The budget is spent after the first message.
abbrev execution : Execution ℕ
execution = record {
  min_interval = 200;
  pause_after = 900;
  retention = 100000;
  label = λ _. "Jaca";
  show_time = clock;
  locked = unlocked;
  claimed_at = 1000;
  late = λ n. true;
  message = λ n. n;
  send = answer;
  meanwhile = λ t. t;
  recorded_at = 1100;
  purged_at = 1100;
}

abbrev report : DeliveryReport
report = record {
  sent = 1;
  failed = 0;
  paused = 0;
  skipped = 1;
  purged_deliveries = 0;
  purged_episodes = 0;
}

execute_run : (execute execution tables).0 ≡ some report
unfolding execute finish claims_of claim picks order_by insert_by select_where lease update_where
    claimed_subscription send_all send_from attempt outcome_of record_all record_outcome
    record_message mark_sent release purge delete_where count_where
execute_run = refl

execute-counts_example :
    (counted report ≡ length (claims_of execution tables).0)
    × (report.paused ≤ report.failed)
    × (min 1 (length (claims_of execution tables).0) ≤ attempted report)
execute-counts_example = execute-counts execution tables execute_run
