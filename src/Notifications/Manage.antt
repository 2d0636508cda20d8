-- ===== src/Notifications/Manage.antt =====
-- app/notifications/use_cases/manage.py, with app/notifications/repos/subscription.py and
-- app/notifications/models/watch_area.py: the orders of the administrator on subscriptions. Each
-- order is a transaction; the deletion of a subscription takes its episodes and their deliveries
-- with it, as the foreign keys say.
pub mod Targets
pub mod Add
pub mod Counts
pub mod Refines
pub mod Silence
pub mod Intact
mod Tests
use geo_hazard.Base.{
  ℕ, ◌+◌, String, Bool, true, false, not, ◌&&◌, ◌||◌, Option, none, some, List, [], ◌∷◌, any, ◌==◌,
  if◌then◌else◌,
}
use geo_hazard.Base.Query.{first_where, select_where, update_where, delete_where, count_where}
use geo_hazard.Base.Dict.{Dict}
use geo_hazard.Base.Json.{Json}
use geo_hazard.Base.Results.{Result, error, ok, and_then, or_raise}
use geo_hazard.Notifications.Model.{
  Subscription, Episode, Delivery, Tables, SubscriptionStatus, active, paused,
}
use geo_hazard.Notifications.Deliveries.{
  has_id, subscription, fail_pending, is_of_deleted, is_pending_of,
}

pub data AreaKind : Type 0 where
  province_kind bbox_kind circle_kind : AreaKind

pub record WatchArea (F G : Type 0) : Type 0 where
  pub id : ℕ
  pub kind : AreaKind
  pub params : Dict (Json F)
  pub label : String
  pub geom : G

pub record Province (G : Type 0) : Type 0 where
  pub code : String
  pub name : String
  pub geom : G

-- What the orders read and write.
pub record Registry (I F G : Type 0) : Type 0 where
  pub tables : Tables I
  pub areas : List (WatchArea F G)
  pub provinces : List (Province G)

-- What an order raises: NotFoundError, BusinessValidationError or a ChannelError.
pub data Fault : Type 0 where
  missing_subscription : ℕ → Fault
  missing_province : String → Fault
  validation : String → Fault
  channel_error : String → Fault

-- What the orders give to the row of a subscription.
abbrev pub paused_by_hand : Subscription → Subscription
paused_by_hand s = record s { status = paused; paused_reason = some "pausada a mano" }

abbrev pub resumed : Subscription → Subscription
resumed s = record s {
  status = active;
  paused_reason = none;
  consecutive_failures = 0;
  failing_since = none;
  retry_at = none;
  last_error = none;
}

-- ON DELETE CASCADE
abbrev pub is_of : ℕ → Episode → Bool
is_of id e = e.subscription_id == id

pub data Order : Type 0 where
  pause_order resume_order remove_order : ℕ → Order

module _ {I : Type 0} where
  abbrev pub set_row : ℕ → (Subscription → Subscription) → Tables I → Tables I
  set_row id f t = record t { subscriptions = update_where (has_id id) f t.subscriptions }

  unfoldable pub delete_subscription : ℕ → Tables I → Tables I
  delete_subscription id t = record {
    subscriptions = delete_where (has_id id) t.subscriptions;
    episodes = delete_where (is_of id) t.episodes;
    deliveries =
        delete_where
          (λ d. d.subscription_id == id || is_of_deleted (select_where (is_of id) t.episodes) d)
          t.deliveries;
  }

module _ {F G : Type 0} where
  -- The area goes with the last subscription to it.
  abbrev pub drop_area : ℕ → List Subscription → List (WatchArea F G) → List (WatchArea F G)
  drop_area area_id subscriptions areas =
      if any (λ s. s.watch_area_id == area_id) subscriptions
      then areas
      else delete_where (λ a. a.id == area_id) areas

module _ {I F G : Type 0} where
  -- `_get`
  unfoldable pub get : ℕ → Registry I F G → Result Fault Subscription
  get id r = or_raise (missing_subscription id) (subscription id r.tables.subscriptions)

  unfoldable pub pause : ℕ → Registry I F G → Result Fault (Registry I F G)
  pause id r =
      and_then (get id r)
        (λ s. ok (record r { tables = fail_pending id (set_row id paused_by_hand r.tables) }))

  unfoldable pub resume : ℕ → Registry I F G → Result Fault (Registry I F G)
  resume id r = and_then (get id r) (λ s. ok (record r { tables = set_row id resumed r.tables }))

  unfoldable pub remove : ℕ → Registry I F G → Result Fault (Registry I F G)
  remove id r = and_then (get id r) (λ s.
      let t = delete_subscription id r.tables in
      ok (record r { tables = t; areas = drop_area s.watch_area_id t.subscriptions r.areas }))

  unfoldable pub perform : Order → Registry I F G → Result Fault (Registry I F G)
  unfolding pause resume remove
  perform (pause_order id) r = pause id r
  perform (resume_order id) r = resume id r
  perform (remove_order id) r = remove id r

  -- The registry after an order: one that raises has not been committed.
  abbrev pub committed : Registry I F G → Result Fault (Registry I F G) → Registry I F G
  committed r (error e) = r
  committed r (ok r') = r'
