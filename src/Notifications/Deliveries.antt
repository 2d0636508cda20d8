-- ===== src/Notifications/Deliveries.antt =====
-- `DeliveryRepo` of app/notifications/repos/delivery.py. The label of an area, the rows that other
-- workers hold locked, the time and the text of a time are arguments.
pub mod Run
pub mod Lease
pub mod Marks
use geo_hazard.Base.{
  ℕ, ◌+◌, ◌*◌, ◌^◌, min, String, Bool, true, false, not, ◌&&◌, ◌||◌, Option, none, some, List, [],
  ◌∷◌, map, any, take, ltb, leb, ◌==◌, none_or, or_default, if◌then◌else◌, first_chars, seconds,
  ◌&◌, length,
}
use geo_hazard.Base.Query.{
  select_where, first_where, update_where, delete_where, count_where, order_by,
}
use geo_hazard.Notifications.Model.{
  Subscription, active, paused, is_active, Episode, Delivery, pending, sent, failed, is_pending,
  PendingDelivery, ClaimedSubscription, Tables,
}

abbrev pub backoff_base_seconds : ℕ
backoff_base_seconds = 60

abbrev pub backoff_cap_seconds : ℕ
backoff_cap_seconds = 3600

pub backoff : ℕ → ℕ
backoff consecutive_failures =
    seconds (min (backoff_base_seconds * 2 ^ consecutive_failures) backoff_cap_seconds)

-- ORDER BY last_sent_at ASC NULLS FIRST
abbrev pub sent_earlier : Option ℕ → Option ℕ → Bool
sent_earlier none none = false
sent_earlier none (some b) = true
sent_earlier (some a) none = false
sent_earlier (some a) (some b) = ltb a b

abbrev pub sent_before : Subscription → Subscription → Bool
sent_before a b = sent_earlier a.last_sent_at b.last_sent_at

abbrev pub has_id : ℕ → Subscription → Bool
has_id id s = s.id == id

abbrev pub subscription : ℕ → List Subscription → Option Subscription
subscription id t = first_where (has_id id) t

abbrev pub leased : ℕ → Subscription → Subscription
leased now s = record s { retry_at = some (now + backoff s.consecutive_failures) }

abbrev pub is_picked : List Subscription → ℕ → Bool
is_picked picked id = any (λ s. s.id == id) picked

-- The row after one more failure, before the decision to pause.
abbrev pub with_failure : String → ℕ → Subscription → Subscription
with_failure error now s = record s {
  consecutive_failures = s.consecutive_failures + 1;
  failing_since = some (or_default s.failing_since now);
  last_error = some (first_chars 500 error);
}

abbrev pub paused_for : (ℕ → String) → String → ℕ → Subscription → Subscription
paused_for show_time error since s = record s {
  status = paused;
  paused_reason =
      some (first_chars 500 ("entregas fallidas desde " & show_time since & " UTC: " & error));
}

-- The failing streak is longer than `pause_after`, with a sum for `now - pause_after`.
abbrev pub is_over : ℕ → ℕ → ℕ → Bool
is_over now pause_after since = leb (since + pause_after) now

module _ {I : Type 0} where
  abbrev pub is_pending_of : ℕ → Delivery I → Bool
  is_pending_of id d = d.subscription_id == id && is_pending d.status

  -- Active, out of its backoff and of the minimum interval, and with a pending delivery.
  -- `last_sent_at <= now - min_interval` is written with a sum.
  abbrev pub is_claimable : ℕ → ℕ → List (Delivery I) → Subscription → Bool
  is_claimable now min_interval deliveries s =
      is_active s.status
      && none_or (λ at. leb at now) s.retry_at
      && none_or (λ at. leb (at + min_interval) now) s.last_sent_at
      && any (is_pending_of s.id) deliveries

  -- The subscriptions that a claim takes.
  pub picks : (ℕ → Bool) → ℕ → ℕ → ℕ → Tables I → List Subscription
  picks locked now min_interval limit t = take limit (
      order_by sent_before (
        select_where (λ s. is_claimable now min_interval t.deliveries s && not (locked s.id))
          t.subscriptions))

  -- ORDER BY severity DESC, created_at
  abbrev pub graver : Delivery I → Delivery I → Bool
  graver a b =
      ltb b.severity a.severity || a.severity == b.severity && ltb a.created_at b.created_at

  abbrev pub pending_delivery : Delivery I → PendingDelivery I
  pending_delivery d = record {
    id = d.id;
    episode_id = d.episode_id;
    reason = d.reason;
    severity = d.severity;
    items = d.items;
    item_count = d.item_count;
  }

  pub claimed_subscription : (ℕ → String) → List (Delivery I) → Subscription → ClaimedSubscription I
  claimed_subscription label deliveries s = record {
    id = s.id;
    channel = s.channel;
    endpoint = s.endpoint;
    credential = s.credential;
    hazard_types = s.hazard_types;
    area_id = s.watch_area_id;
    area_label = label s.watch_area_id;
    previous_retry_at = s.retry_at;
    deliveries =
        map pending_delivery (order_by graver (select_where (is_pending_of s.id) deliveries));
  }

  -- The leases and the attempts that a claim writes.
  pub lease : ℕ → List Subscription → Tables I → Tables I
  lease now picked t = record t {
    subscriptions = update_where (λ s. is_picked picked s.id) (leased now) t.subscriptions;
    deliveries =
        update_where (λ d. is_picked picked d.subscription_id && is_pending d.status)
          (λ d. record d { attempts = d.attempts + 1 }) t.deliveries;
  }

  unfoldable pub claim :
      (ℕ → String) → (ℕ → Bool) → ℕ → ℕ → ℕ → Tables I → List (ClaimedSubscription I) × Tables I
  claim label locked now min_interval limit t =
      let picked = picks locked now min_interval limit t in
      (map (claimed_subscription label t.deliveries) picked, lease now picked t)

  pub mark_sent : ℕ → List ℕ → ℕ → ℕ → Tables I → Tables I
  mark_sent subscription_id delivery_ids message_id now t = record t {
    deliveries =
        update_where (λ d. any (λ id. d.id == id) delivery_ids)
          (λ d. record d { status = sent; sent_at = some now; message_id = some message_id })
          t.deliveries;
    subscriptions =
        update_where (has_id subscription_id)
          (λ s. record s {
            last_sent_at = some now;
            consecutive_failures = 0;
            failing_since = none;
            retry_at = none;
            last_error = none;
          })
          t.subscriptions;
  }

  unfoldable pub fail_pending : ℕ → Tables I → Tables I
  fail_pending subscription_id t = record t {
    deliveries =
        update_where (is_pending_of subscription_id) (λ d. record d { status = failed })
          t.deliveries;
  }

  abbrev pub write_row : Subscription → Tables I → Tables I
  write_row s t = record t { subscriptions = update_where (has_id s.id) (λ _. s) t.subscriptions }

  mark_row : (ℕ → String) → String → ℕ → ℕ → Option Subscription → Tables I → Bool × Tables I
  mark_row show_time error now pause_after none t = (false, t)
  mark_row show_time error now pause_after (some s) t =
      let since = or_default s.failing_since now in
      if is_over now pause_after since
      then (
        true,
        fail_pending s.id
            (write_row (paused_for show_time error since (with_failure error now s)) t),
      )
      else (false, write_row (with_failure error now s) t)

  -- Whether it paused the subscription, and the tables.
  unfoldable pub mark_failed : (ℕ → String) → ℕ → String → ℕ → ℕ → Tables I → Bool × Tables I
  unfolding mark_row
  mark_failed show_time subscription_id error now pause_after t =
      mark_row show_time error now pause_after (subscription subscription_id t.subscriptions) t

  pub release : ℕ → Option ℕ → Tables I → Tables I
  release subscription_id retry_at t = record t {
    subscriptions =
        update_where (has_id subscription_id) (λ s. record s { retry_at = retry_at })
          t.subscriptions;
  }

  -- `… < now - retention`, with a sum.
  abbrev pub is_old_delivery : ℕ → ℕ → Delivery I → Bool
  is_old_delivery now retention d =
      not (is_pending d.status) && ltb (or_default d.sent_at d.created_at + retention) now

  abbrev pub is_old_episode : ℕ → ℕ → List (Delivery I) → Episode → Bool
  is_old_episode now retention deliveries e =
      ltb (or_default e.closed_at e.last_matched_at + retention) now
      && none_or (λ at. ltb (at + retention) now) e.expires_at
      && not (any (λ d. d.episode_id == e.id && is_pending d.status) deliveries)

  -- The deletion of episodes takes their deliveries with it.
  abbrev pub is_of_deleted : List Episode → Delivery I → Bool
  is_of_deleted deleted d = any (λ e. d.episode_id == e.id) deleted

  pub purge : ℕ → ℕ → Tables I → (ℕ × ℕ) × Tables I
  purge now retention t =
      let kept = delete_where (is_old_delivery now retention) t.deliveries in
      let old = select_where (is_old_episode now retention kept) t.episodes in
      (
        (count_where (is_old_delivery now retention) t.deliveries, length old),
        record t {
          deliveries = delete_where (is_of_deleted old) kept;
          episodes = delete_where (is_old_episode now retention kept) t.episodes;
        },
      )
