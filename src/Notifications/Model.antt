-- ===== src/Notifications/Model.antt =====
-- app/notifications/models: the tables of subscriptions, episodes and deliveries, and what the
-- delivery job reads of them (app/notifications/schemas/delivery.py). `I` is the type of an item,
-- a GeoJSON feature.
use geo_hazard.Base.{ℕ, String, Bool, true, false, Option, List}
use geo_hazard.Hazards.Model.{HazardType}

pub data Channel : Type 0 where
  ntfy webhook : Channel

pub data SubscriptionStatus : Type 0 where
  active paused : SubscriptionStatus

abbrev pub is_active : SubscriptionStatus → Bool
is_active active = true
is_active paused = false

pub record Subscription : Type 0 where
  pub id : ℕ
  pub watch_area_id : ℕ
  pub hazard_types : List HazardType
  pub severity_min : ℕ
  pub channel : Channel
  pub endpoint : String
  pub credential : String
  pub status : SubscriptionStatus
  pub paused_reason : Option String
  pub consecutive_failures : ℕ
  pub failing_since : Option ℕ
  pub retry_at : Option ℕ
  pub last_sent_at : Option ℕ
  pub last_error : Option String

pub record Episode : Type 0 where
  pub id : ℕ
  pub subscription_id : ℕ
  pub key : String
  pub notified_severity : ℕ
  pub expires_at : Option ℕ
  pub opened_at : ℕ
  pub last_matched_at : ℕ
  pub closed_at : Option ℕ

pub data Reason : Type 0 where
  opened escalated : Reason

pub data DeliveryStatus : Type 0 where
  pending sent failed : DeliveryStatus

abbrev pub is_pending : DeliveryStatus → Bool
is_pending pending = true
is_pending sent = false
is_pending failed = false

module _ (I : Type 0) where
  pub record Delivery : Type 0 where
    pub id : ℕ
    pub subscription_id : ℕ
    pub episode_id : ℕ
    pub severity : ℕ
    pub reason : Reason
    pub items : List I
    pub item_count : ℕ
    pub status : DeliveryStatus
    pub attempts : ℕ
    pub message_id : Option ℕ
    pub created_at : ℕ
    pub sent_at : Option ℕ

  pub record PendingDelivery : Type 0 where
    pub id : ℕ
    pub episode_id : ℕ
    pub reason : Reason
    pub severity : ℕ
    pub items : List I
    pub item_count : ℕ

  pub record ClaimedSubscription : Type 0 where
    pub id : ℕ
    pub channel : Channel
    pub endpoint : String
    pub credential : String
    pub hazard_types : List HazardType
    pub area_id : ℕ
    pub area_label : String
    pub previous_retry_at : Option ℕ
    pub deliveries : List PendingDelivery

  pub record Tables : Type 0 where
    pub subscriptions : List Subscription
    pub episodes : List Episode
    pub deliveries : List Delivery
