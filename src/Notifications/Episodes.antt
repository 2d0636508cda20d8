-- ===== src/Notifications/Episodes.antt =====
-- app/notifications/services/episodes.py: when a match opens an episode, escalates it or only
-- touches it; and `EpisodeRepo` of app/notifications/repos/episode.py, but for `open_episodes`,
-- which Episodes/Batch.antt has.
pub mod Batch
pub mod Keys
use geo_hazard.Base.{
  ℕ, ◌+◌, max, String, Bool, true, false, not, ◌&&◌, Option, none, some, List, [], ◌∷◌, ◌++◌, any,
  ltb, ◌==◌, str_eq, is_none, none_or, or_default, if◌then◌else◌,
}
use geo_hazard.Base.Query.{update_where}
use geo_hazard.Notifications.Model.{Episode, Delivery, Reason, pending, Tables}

pub data Action : Type 0 where
  open_new escalate touch : Action

-- What the rule reads of an open episode.
pub record OpenEpisode : Type 0 where
  pub id : ℕ
  pub notified_severity : ℕ
  pub expires_at : Option ℕ

pub is_current : Option OpenEpisode → ℕ → ℕ → Bool
is_current none batch_at grace = false
is_current (some e) batch_at grace = none_or (λ at. ltb batch_at (at + grace)) e.expires_at

-- The decision on an episode that is current.
decide_current : OpenEpisode → ℕ → Action
decide_current e severity = if ltb e.notified_severity severity then escalate else touch

pub decide : Option OpenEpisode → ℕ → ℕ → ℕ → Action
unfolding decide_current
decide none severity batch_at grace = open_new
decide (some e) severity batch_at grace =
    if is_current (some e) batch_at grace then decide_current e severity else open_new

-- max of an optional time and a time that comes later in the batch; for AEMET only.
abbrev pub later : Option ℕ → Option ℕ → Option ℕ
later o none = o
later none (some b) = some b
later (some a) (some b) = some (max a b)

abbrev pub is_open_of : ℕ → String → Episode → Bool
is_open_of subscription_id key e =
    e.subscription_id == subscription_id && str_eq e.key key && is_none e.closed_at

module _ {I : Type 0} where
  pub close : ℕ → ℕ → Tables I → Tables I
  close episode_id at t = record t {
    episodes =
        update_where (λ e. e.id == episode_id && is_none e.closed_at)
          (λ e. record e { closed_at = some at }) t.episodes;
  }

  -- The insertion of an episode; `none` where one is open already, which raises. `new_id` is the
  -- identifier that the server gives.
  pub open_episode : ℕ → ℕ → String → ℕ → Option ℕ → ℕ → Tables I → Option (ℕ × Tables I)
  open_episode new_id subscription_id key severity expires_at at t =
      if any (is_open_of subscription_id key) t.episodes
      then none
      else some (
        new_id,
        record t {
          episodes =
              t.episodes
              ++ record {
                id = new_id;
                subscription_id = subscription_id;
                key = key;
                notified_severity = severity;
                expires_at = expires_at;
                opened_at = at;
                last_matched_at = at;
                closed_at = none;
              }
                ∷ [];
        },
      )

  pub refresh : ℕ → ℕ → Option ℕ → ℕ → Tables I → Tables I
  refresh episode_id notified_severity expires_at at t = record t {
    episodes =
        update_where (λ e. e.id == episode_id)
          (λ e. record e {
            notified_severity = max e.notified_severity notified_severity;
            last_matched_at = max e.last_matched_at at;
            expires_at = later e.expires_at expires_at;
          })
          t.episodes;
  }

  abbrev pub is_delivery_of : ℕ → ℕ → Delivery I → Bool
  is_delivery_of episode_id severity d = d.episode_id == episode_id && d.severity == severity

  -- Whether the delivery was created, and the tables: there is one for an episode and a severity.
  pub add_delivery : ℕ → ℕ → ℕ → ℕ → Reason → List I → ℕ → ℕ → Tables I → Bool × Tables I
  add_delivery new_id subscription_id episode_id severity reason items item_count now t =
      if any (is_delivery_of episode_id severity) t.deliveries then (false, t) else (
        true,
        record t {
          deliveries =
              t.deliveries
              ++ record {
                id = new_id;
                subscription_id = subscription_id;
                episode_id = episode_id;
                severity = severity;
                reason = reason;
                items = items;
                item_count = item_count;
                status = pending;
                attempts = 0;
                message_id = none;
                created_at = now;
                sent_at = none;
              }
                ∷ [];
        },
      )
