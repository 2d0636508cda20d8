-- ===== src/Notifications/Deliveries/Run/Account.antt =====
-- The report of an execution accounts for every claim.
use geo_hazard.Base.{
  ℕ, suc, ◌+◌, ◌≤◌, ◌≡◌, refl, sym, ap, subst, ◌∙◌, Bool, true, false, not, Option, none, some,
  List, [], ◌∷◌, arith, length, Bool-cases, min, inl, inr, some_inj, none_ne_some,
}
use geo_hazard.Notifications.Model.{Tables, ClaimedSubscription}
use geo_hazard.Notifications.Deliveries.{mark_failed}
use geo_hazard.Notifications.Deliveries.Run.{
  DeliveryReport, empty_report, Sending, delivered, channel_error, crashed, bool_count, error_text,
  Execution, Outcome, outcome_of, attempt, cons_outcome, send_from, send_all, record_message,
  record_outcome, record_all, finish, claims_of, execute,
}

abbrev pub attempted : DeliveryReport → ℕ
attempted r = r.sent + r.failed

abbrev pub counted : DeliveryReport → ℕ
counted r = attempted r + r.skipped

-- The counts of a report and of a later one, with so many attempts and so many claims more.
abbrev Counts : DeliveryReport → DeliveryReport → ℕ → ℕ → Type 0
Counts r r' attempts claims =
    (attempted r' ≡ attempted r + attempts)
    × (counted r' ≡ counted r + claims)
    × (r'.paused + r.failed ≤ r.paused + r'.failed)

module _ {I : Type 0} where
  abbrev tries : List (Outcome I) → ℕ
  tries [] = 0
  tries (o ∷ os) = bool_count (not o.skipped) + tries os

module _ {I : Type 0} (x : Execution I) where
  bool_count_le : (b : Bool) → bool_count b ≤ 1
  bool_count_le true = omega arith
  bool_count_le false = omega arith

  record_message-Counts :
      (o : Outcome I) (m : Option ℕ) (r : DeliveryReport) (t : Tables I)
      → Counts r (record_message x o m (r, t)).0 1 1
  unfolding record_message
  record_message-Counts o (some id) r t = (omega arith, omega arith, omega arith)
  record_message-Counts o none r t = (
    omega arith,
    omega arith,
    omega (
      arith,
      bool_count_le
          (mark_failed x.show_time o.claim.id (error_text o.error) x.recorded_at x.pause_after t).0,
    ),
  )

  record_outcome-Counts :
      (o : Outcome I) (r : DeliveryReport) (t : Tables I)
      → Counts r (record_outcome x o (r, t)).0 (bool_count (not o.skipped)) 1
  unfolding record_outcome
  record_outcome-Counts o r t = elim (Bool-cases o.skipped) [
    | inl e ↦ rw e (omega arith, omega arith, omega arith)
    | inr e ↦ rw e (record_message-Counts o o.message_id r t)
  ]

  record_all-Counts :
      (os : List (Outcome I)) (r : DeliveryReport) (t : Tables I)
      → Counts r (record_all x os (r, t)).0 (tries os) (length os)
  unfolding record_all
  record_all-Counts [] r t = (omega arith, omega arith, omega arith)
  record_all-Counts (o ∷ os) r t =
      let s = record_outcome x o (r, t) in
      let first = record_outcome-Counts o r t in
      let rest = record_all-Counts os s.0 s.1 in
      (
        omega (arith, first.0, rest.0),
        omega (arith, first.1, rest.1),
        omega (arith, first.2, rest.2),
      )

  cons_outcome_inv :
      (o : Option (Outcome I)) (rest : Option (List (Outcome I))) {os : List (Outcome I)}
      → cons_outcome o rest ≡ some os
      → (o' : Outcome I) × (os' : List (Outcome I)) × (o ≡ some o')
        × (rest ≡ some os')
        × (o' ∷ os' ≡ os)
  cons_outcome_inv (some o') (some os') h = (o', os', refl, refl, some_inj h)
  cons_outcome_inv (some o') none h = absurd (none_ne_some h)
  cons_outcome_inv none rest h = absurd (none_ne_some h)

  send_from-length :
      (started : Bool) (n : ℕ) (cs : List (ClaimedSubscription I)) {os : List (Outcome I)}
      → send_from x started n cs ≡ some os
      → length os ≡ length cs
  unfolding send_from
  send_from-length started n [] {os} h = sym (ap length (some_inj h))
  send_from-length started n (c ∷ cs) {os} h =
      let (o', os', _, rest, e) =
        cons_outcome_inv (attempt x started n c) (send_from x true (suc n) cs) h in
      sym (ap length e) ∙ ap suc (send_from-length true (suc n) cs rest)

  outcome_of-tried :
      (c : ClaimedSubscription I) (id : ℕ) (s : Sending) {o : Outcome I}
      → outcome_of c id s ≡ some o
      → o.skipped ≡ false
  unfolding outcome_of
  outcome_of-tried c id delivered h = sym (ap (λ o. o.skipped) (some_inj h))
  outcome_of-tried c id (channel_error e) h = sym (ap (λ o. o.skipped) (some_inj h))
  outcome_of-tried c id crashed h = absurd (none_ne_some h)

  -- The first claim is tried, however late it is.
  send_from-tries :
      (n : ℕ) (c : ClaimedSubscription I) (cs : List (ClaimedSubscription I))
      {os : List (Outcome I)}
      → send_from x false n (c ∷ cs) ≡ some os
      → 1 ≤ tries os
  unfolding send_from attempt
  send_from-tries n c cs {os} h =
      let (o', os', first, _, e) =
        cons_outcome_inv (attempt x false n c) (send_from x true (suc n) cs) h in
      subst (λ l. 1 ≤ tries l) e
        (rw (outcome_of-tried c (x.message n) (x.send c (x.message n)) first) (omega arith))

  send_all-tries :
      (claims : List (ClaimedSubscription I)) {os : List (Outcome I)}
      → send_all x claims ≡ some os
      → min 1 (length claims) ≤ tries os
  unfolding send_all
  send_all-tries [] h = omega arith
  send_all-tries (c ∷ cs) h = omega (arith, send_from-tries 0 c cs h)

  finish-counts :
      (claims : List (ClaimedSubscription I)) (o : Option (List (Outcome I))) (t : Tables I)
      {r : DeliveryReport}
      → send_all x claims ≡ o
      → (finish x o t).0 ≡ some r
      → (counted r ≡ length claims) × (r.paused ≤ r.failed) × (min 1 (length claims) ≤ attempted r)
  unfolding finish send_all
  finish-counts claims none t e h = absurd (none_ne_some h)
  finish-counts claims (some os) t {r} e h =
      let (tried, claimed, paused) = record_all-Counts os empty_report (x.meanwhile t) in
      subst
        (λ r.
          (counted r ≡ length claims)
          × (r.paused ≤ r.failed)
          × (min 1 (length claims) ≤ attempted r))
        (some_inj h)
        (
          omega (arith, claimed, send_from-length false 0 claims e),
          omega (arith, paused),
          omega (arith, tried, send_all-tries claims e),
        )

  -- The report of an execution that ends counts every claim once, as sent, failed or skipped; no
  -- more subscriptions are paused than failed; and where there is a claim, one is tried, however
  -- small the budget.
  pub execute-counts :
      (t : Tables I) {r : DeliveryReport}
      → (execute x t).0 ≡ some r
      → (counted r ≡ length (claims_of x t).0)
        × (r.paused ≤ r.failed)
        × (min 1 (length (claims_of x t).0) ≤ attempted r)
  unfolding execute
  execute-counts t {r} h = finish-counts (claims_of x t).0 _ (claims_of x t).1 refl h
