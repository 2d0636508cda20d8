-- ===== src/Notifications/Deliveries/Run.antt =====
-- `DeliverNotificationsUseCase` of app/notifications/use_cases/deliver.py: claim, send outside of
-- any transaction, record. What the sender answers, the readings of the clock, the identifiers of
-- the messages and what other transactions do while it sends are arguments.
pub mod Account
mod Tests
use geo_hazard.Base.{
  ℕ, zero, suc, ◌+◌, ◌≤◌, String, ◌≡◌, refl, sym, ap, subst, ◌∙◌, Bool, true, false, ◌&&◌, ◌||◌,
  not, Option, none, some, List, [], ◌∷◌, map, arith, is_none, str_eq, length, if◌then◌else◌,
  Bool-cases, inl, inr, some_inj, none_ne_some, ◌==◌,
}
use geo_hazard.Notifications.Model.{Tables, PendingDelivery, ClaimedSubscription}
use geo_hazard.Notifications.Deliveries.{claim, mark_sent, mark_failed, release, purge}

pub record DeliveryReport : Type 0 where
  pub sent : ℕ
  pub failed : ℕ
  pub paused : ℕ
  pub skipped : ℕ
  pub purged_deliveries : ℕ
  pub purged_episodes : ℕ

abbrev pub empty_report : DeliveryReport
empty_report = record {
  sent = 0;
  failed = 0;
  paused = 0;
  skipped = 0;
  purged_deliveries = 0;
  purged_episodes = 0;
}

-- DeliveryReport.active
abbrev pub is_active_report : DeliveryReport → Bool
is_active_report r =
    not (r.sent == 0) || not (r.failed == 0) || not (r.paused == 0) || not (r.skipped == 0)

-- The answer of the sender: sent, a ChannelError with its text, or another exception.
pub data Sending : Type 0 where
  delivered : Sending
  channel_error : String → Sending
  crashed : Sending

abbrev pub max_subscriptions_per_run : ℕ
max_subscriptions_per_run = 50

-- `outcome.error or "unknown error"`
abbrev pub error_text : Option String → String
error_text none = "unknown error"
error_text (some e) = if str_eq e "" then "unknown error" else e

abbrev pub bool_count : Bool → ℕ
bool_count true = 1
bool_count false = 0

-- The settings and the readings of one execution. `late n` is whether the budget is spent before
-- the claim of number n, `message n` the identifier made for it.
pub record Execution (I : Type 0) : Type 0 where
  pub min_interval : ℕ
  pub pause_after : ℕ
  pub retention : ℕ
  pub label : ℕ → String
  pub show_time : ℕ → String
  pub locked : ℕ → Bool
  pub claimed_at : ℕ
  pub late : ℕ → Bool
  pub message : ℕ → ℕ
  pub send : ClaimedSubscription I → ℕ → Sending
  pub meanwhile : Tables I → Tables I
  pub recorded_at : ℕ
  pub purged_at : ℕ

module _ (I : Type 0) where
  pub record Outcome : Type 0 where
    pub claim : ClaimedSubscription I
    pub message_id : Option ℕ
    pub error : Option String
    pub skipped : Bool

module _ {I : Type 0} where
  outcome_of : ClaimedSubscription I → ℕ → Sending → Option (Outcome I)
  outcome_of c id delivered =
      some (record { claim = c; message_id = some id; error = none; skipped = false })
  outcome_of c id (channel_error e) =
      some (record { claim = c; message_id = none; error = some e; skipped = false })
  outcome_of c id crashed = none

  abbrev cons_outcome : Option (Outcome I) → Option (List (Outcome I)) → Option (List (Outcome I))
  cons_outcome (some o) (some os) = some (o ∷ os)
  cons_outcome _ _ = none

  -- The claim of number n; `started` is whether there are outcomes already.
  attempt : Execution I → Bool → ℕ → ClaimedSubscription I → Option (Outcome I)
  unfolding outcome_of
  attempt x started n c =
      if started && x.late n
      then some (record { claim = c; message_id = none; error = none; skipped = true })
      else outcome_of c (x.message n) (x.send c (x.message n))

  send_from : Execution I → Bool → ℕ → List (ClaimedSubscription I) → Option (List (Outcome I))
  unfolding attempt
  send_from x started n [] = some []
  send_from x started n (c ∷ cs) =
      cons_outcome (attempt x started n c) (send_from x true (suc n) cs)

  pub send_all : Execution I → List (ClaimedSubscription I) → Option (List (Outcome I))
  unfolding send_from
  send_all x claims = send_from x false 0 claims

  record_message :
      Execution I → Outcome I → Option ℕ → DeliveryReport × Tables I → DeliveryReport × Tables I
  record_message x o (some id) (r, t) = (
    record r { sent = r.sent + 1 },
    mark_sent o.claim.id (map (λ d. d.id) o.claim.deliveries) id x.recorded_at t,
  )
  record_message x o none (r, t) =
      let (paused, t') =
        mark_failed x.show_time o.claim.id (error_text o.error) x.recorded_at x.pause_after t in
      (record r { failed = r.failed + 1; paused = r.paused + bool_count paused }, t')

  record_outcome : Execution I → Outcome I → DeliveryReport × Tables I → DeliveryReport × Tables I
  unfolding record_message
  record_outcome x o (r, t) =
      if o.skipped
      then (record r { skipped = r.skipped + 1 }, release o.claim.id o.claim.previous_retry_at t)
      else record_message x o o.message_id (r, t)

  pub record_all :
      Execution I → List (Outcome I) → DeliveryReport × Tables I → DeliveryReport × Tables I
  unfolding record_outcome
  record_all x [] s = s
  record_all x (o ∷ os) s = record_all x os (record_outcome x o s)

  finish : Execution I → Option (List (Outcome I)) → Tables I → Option DeliveryReport × Tables I
  finish x none t = (none, x.meanwhile t)
  finish x (some outcomes) t =
      let (r, t₁) = record_all x outcomes (empty_report, x.meanwhile t) in
      let ((deliveries, episodes), t₂) = purge x.purged_at x.retention t₁ in
      (some (record r { purged_deliveries = deliveries; purged_episodes = episodes }), t₂)

  -- The claims of an execution, and `execute` with the report, or none where the sender raises
  -- another exception: then the claim is committed and nothing else.
  pub claims_of : Execution I → Tables I → List (ClaimedSubscription I) × Tables I
  claims_of x t = claim x.label x.locked x.claimed_at x.min_interval max_subscriptions_per_run t

  unfoldable pub execute : Execution I → Tables I → Option DeliveryReport × Tables I
  unfolding finish
  execute x t = let (claims, t') = claims_of x t in finish x (send_all x claims) t'
