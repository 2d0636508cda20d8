-- ===== src/Notifications/Episodes/Batch.antt =====
-- `MatchBatchUseCase` of app/notifications/use_cases/match_batch.py. What the query of
-- `MatchingRepo.matches` gives, the key of the episode of a match, its feature, and the
-- identifiers that the server gives are arguments.
mod Tests
pub mod Again
use geo_hazard.Base.{
  ℕ, zero, suc, ◌+◌, max, String, Bool, true, false, ◌&&◌, Option, none, some, List, [], ◌∷◌, ◌++◌,
  map, take, length, any, ◌==◌, str_eq, if◌then◌else◌,
}
use geo_hazard.Base.Query.{first_where}
use geo_hazard.Hazards.Model.{Source, aemet, same_source, HazardType, Attrs}
use geo_hazard.Notifications.Model.{
  Subscription, is_active, Episode, Delivery, Reason, opened, escalated, Tables,
}
use geo_hazard.Notifications.Episodes.{
  Action, open_new, escalate, touch, OpenEpisode, decide, later, is_open_of, close, open_episode,
  refresh, add_delivery,
}
use mathlib.Core.Option

abbrev pub max_items_per_delivery : ℕ
max_items_per_delivery = 20

pub record Match (G F : Type 0) : Type 0 where
  pub subscription_id : ℕ
  pub event_id : ℕ
  pub source : Source
  pub hazard_type : HazardType
  pub external_id : String
  pub severity : ℕ
  pub starts_at : ℕ
  pub ends_at : Option ℕ
  pub attrs : Attrs F
  pub geometry : G

pub record Group (G F : Type 0) : Type 0 where
  pub subscription_id : ℕ
  pub key : String
  pub severity : ℕ
  pub expires_at : Option ℕ
  pub matches : List (Match G F)

module _ {G F : Type 0} (episode_key : Match G F → String) where
  abbrev pub expiry : Match G F → Option ℕ
  expiry m = if same_source m.source aemet then m.ends_at else none

  abbrev pub empty_group : Match G F → Group G F
  empty_group m = record {
    subscription_id = m.subscription_id;
    key = episode_key m;
    severity = 0;
    expires_at = none;
    matches = [];
  }

  abbrev pub joined_group : Match G F → Group G F → Group G F
  joined_group m g = record g {
    severity = max g.severity m.severity;
    expires_at = later g.expires_at (expiry m);
    matches = g.matches ++ m ∷ [];
  }

  abbrev pub is_group_of : Match G F → Group G F → Bool
  is_group_of m g = g.subscription_id == m.subscription_id && str_eq g.key (episode_key m)

  -- groups.setdefault(key, _Group()), and the update of the group.
  pub add_match : Match G F → List (Group G F) → List (Group G F)
  add_match m [] = joined_group m (empty_group m) ∷ []
  add_match m (g ∷ gs) = if is_group_of m g then joined_group m g ∷ gs else g ∷ add_match m gs

  pub add_matches : List (Match G F) → List (Group G F) → List (Group G F)
  add_matches [] gs = gs
  add_matches (m ∷ ms) gs = add_matches ms (add_match m gs)

  pub groups_of : List (Match G F) → List (Group G F)
  unfolding add_matches add_match
  groups_of ms = add_matches ms []

-- The mark of the batch, the grace, the time of the transaction, and the feature of a match.
pub record Making (G F I : Type 0) : Type 0 where
  pub batch_at : ℕ
  pub grace : ℕ
  pub now : ℕ
  pub feature : Match G F → I

module _ {G F I : Type 0} (x : Making G F I) where
  abbrev pub open_view : Episode → OpenEpisode
  open_view e = record {
    id = e.id;
    notified_severity = e.notified_severity;
    expires_at = e.expires_at;
  }

  -- `open_episodes`, for one key: the index of the table has one open episode for it at most.
  pub current_episode : Group G F → Tables I → Option OpenEpisode
  current_episode g t =
      Option.map open_view (first_where (is_open_of g.subscription_id g.key) t.episodes)

  deliver : ℕ → Group G F → ℕ → Reason → Tables I → Bool × Tables I
  deliver new_id g episode_id reason t =
      add_delivery new_id g.subscription_id episode_id g.severity reason
        (map x.feature (take max_items_per_delivery g.matches)) (length g.matches) x.now t

  close_current : Option OpenEpisode → Tables I → Tables I
  close_current none t = t
  close_current (some c) t = close c.id x.batch_at t

  open_and_deliver :
      Reason → ℕ × ℕ → Group G F → Option OpenEpisode → Tables I → Option (Bool × Tables I)
  unfolding close_current deliver
  open_and_deliver reason (episode_id, delivery_id) g current t =
      Option.map (λ opening. deliver delivery_id g opening.0 reason opening.1)
        (open_episode episode_id g.subscription_id g.key g.severity g.expires_at x.batch_at
          (close_current current t))

  act : Action → ℕ × ℕ → Group G F → Option OpenEpisode → Tables I → Option (Bool × Tables I)
  unfolding open_and_deliver deliver
  act touch ids g (some c) t =
      some (false, refresh c.id c.notified_severity g.expires_at x.batch_at t)
  act escalate ids g (some c) t =
      some (deliver ids.1 g c.id escalated (refresh c.id g.severity g.expires_at x.batch_at t))
  act touch ids g none t = open_and_deliver opened ids g none t
  act escalate ids g none t = open_and_deliver escalated ids g none t
  act open_new ids g current t = open_and_deliver opened ids g current t

  -- One round of the loop, with the episode that was open when the batch started: whether a
  -- delivery was created, or none where it raises.
  pub handle_group : ℕ × ℕ → Group G F → Option OpenEpisode → Tables I → Option (Bool × Tables I)
  unfolding act
  handle_group ids g current t = act (decide current g.severity x.batch_at x.grace) ids g current t

  abbrev count_created : Bool → Option (ℕ × Tables I) → Option (ℕ × Tables I)
  count_created b none = none
  count_created b (some (n, t)) = some ((if b then 1 else 0) + n, t)

  -- The loop over the groups, with the identifiers for the rows of each.
  pub handle_groups :
      (ℕ → ℕ × ℕ) → ℕ → List (Group G F × Option OpenEpisode) → Tables I → Option (ℕ × Tables I)
  handle_groups ids n [] t = some (0, t)
  handle_groups ids n ((g, current) ∷ gs) t = elim (handle_group (ids n) g current t) [
    | none ↦ none
    | some s ↦ count_created s.0 (handle_groups ids (suc n) gs s.1)
  ]

  pub match_batch :
      (Match G F → String) → (ℕ → ℕ × ℕ) → List (Match G F) → Tables I → Option (ℕ × Tables I)
  match_batch episode_key ids matches t =
      if any (λ (s : Subscription). is_active s.status) t.subscriptions
      then handle_groups ids 0 (map (λ g. (g, current_episode g t)) (groups_of episode_key matches))
          t
      else some (0, t)
