-- ===== src/Notifications/Deliveries/Lease.antt =====
-- The claim as a lease: who takes a subscription, for how long, and its return.
use native.Mathlib.Nat.{one-le-pow}
use mathlib.Core.Option
use geo_hazard.Base.{
  true_ne_false, ℕ, ◌+◌, ◌≤◌, ◌<◌, ◌≡◌, refl, sym, ap, ◌∙◌, Bool, true, false, not, ◌&&◌, some,
  List, [], ◌∷◌, arith, All, All-take, All-map, All-map₂, ==_refl, Bool-cases, inl, inr, seconds,
  In, In-All, length, length-take,
}
use geo_hazard.Base.Query.{select_where, update_where, order_by}
use geo_hazard.Base.Query.Rows.{All-select_where, select_where-All, first_where-update_where}
use geo_hazard.Base.Query.Order.{order_by-All}
use geo_hazard.Notifications.Model.{Subscription, Delivery, Tables}
use geo_hazard.Notifications.Deliveries.{
  backoff, sent_before, has_id, subscription, leased, is_picked, is_claimable, picks, lease,
  release,
}

-- A lease is a minute at least and an hour at most.
pub backoff_bounds : (n : ℕ) → (seconds 60 ≤ backoff n) × (backoff n ≤ seconds 3600)
unfolding backoff
backoff_bounds n = (omega (arith, one-le-pow n 2 (omega arith)), omega arith)

-- The row of a subscription that was claimed has the `retry_at` of the claim, a minute ahead.
abbrev IsHeld : List Subscription → ℕ → Subscription → Type 0
IsHeld picked now s =
    is_picked picked s.id ≡ true → (at : ℕ) × (s.retry_at ≡ some at) × (now + seconds 60 ≤ at)

lease-IsHeld :
    (picked : List Subscription) (now : ℕ) (subs : List Subscription)
    → All (IsHeld picked now) (update_where (λ s. is_picked picked s.id) (leased now) subs)
unfolding update_where
lease-IsHeld picked now [] = tt
lease-IsHeld picked now (s ∷ subs) = elim (Bool-cases (is_picked picked s.id)) [
  | inl x ↦ rw x (
    (λ p. (
      now + backoff s.consecutive_failures,
      refl,
      omega (arith, backoff_bounds s.consecutive_failures),
    )),
    lease-IsHeld picked now subs,
  )
  | inr x ↦ rw x ((λ p. absurd (true_ne_false (sym p ∙ x))), lease-IsHeld picked now subs)
]

module _ {I : Type 0} where
  -- What a claim takes is active, out of its backoff and interval, and has something to send; and
  -- it takes no more than its limit.
  pub picks_sound :
      (locked : ℕ → Bool) (now min_interval limit : ℕ) (t : Tables I)
      → All
          (λ s. (is_claimable now min_interval t.deliveries s ≡ true) × (locked s.id ≡ false))
          (picks locked now min_interval limit t)
        × (length (picks locked now min_interval limit t) ≤ limit)
  unfolding picks
  picks_sound locked now min_interval limit t = (
    All-take _ limit _ (
        order_by-All sent_before _ _ (
          All-map _ _ _ (λ s h. ground (arith, h))
            (All-select_where
              (λ s. is_claimable now min_interval t.deliveries s && not (locked s.id))
              t.subscriptions))),
    omega (
      arith,
      length-take limit (
          order_by sent_before (
            select_where (λ s. is_claimable now min_interval t.deliveries s && not (locked s.id))
              t.subscriptions)),
    ),
  )

  held-claimable :
      (picked : List Subscription) (now later min_interval : ℕ) (deliveries : List (Delivery I))
      (s : Subscription)
      → later < now + seconds 60
      → IsHeld picked now s
      → is_claimable later min_interval deliveries s ≡ true
      → is_picked picked s.id ≡ false
  held-claimable picked now later min_interval deliveries s h held c =
      elim (Bool-cases (is_picked picked s.id)) [
        | inl x ↦ let (at, e, far) = held x in ground (arith, h, e, far, c)
        | inr x ↦ x
      ]

  -- The subscriptions that were claimed still have, in the second tables, the `retry_at` of the
  -- first.
  abbrev pub StillLeased : List Subscription → Tables I → Tables I → Type 0
  StillLeased picked t t' =
      All
        (λ s.
          is_picked picked s.id ≡ true
          → (r : Subscription) × In r t.subscriptions × (r.id ≡ s.id) × (r.retry_at ≡ s.retry_at))
        t'.subscriptions

  -- For a minute after a claim, no claim takes any of the subscriptions that it took, whoever makes
  -- it and with whatever limits, in any tables in which those still have the `retry_at` that the
  -- claim gave them: whatever else has happened to them, to the other subscriptions, to the
  -- episodes and to the deliveries.
  pub picks-lease :
      (locked : ℕ → Bool) (now later min_interval limit : ℕ) (picked : List Subscription)
      (t t' : Tables I)
      → later < now + seconds 60
      → StillLeased picked (lease now picked t) t'
      → All (λ s. is_picked picked s.id ≡ false) (picks locked later min_interval limit t')
  unfolding picks lease
  picks-lease locked now later min_interval limit picked t t' h still =
      let held = lease-IsHeld picked now t.subscriptions in
      All-take _ limit _ (
        order_by-All sent_before _ _ (
          All-map₂ _ _ _ _
            (λ s claimable kept.
              held-claimable picked now later min_interval t'.deliveries s h
                (λ x.
                  let (r, i, same, lasts) = kept x in
                  let (at, e, far) =
                    In-All (IsHeld picked now) r _ held i (ap (is_picked picked) same ∙ x) in
                  (at, sym lasts ∙ e, far))
                (ground (arith, claimable)))
            (All-select_where
              (λ s. is_claimable later min_interval t'.deliveries s && not (locked s.id)) _)
            (select_where-All _ _ _ still)))

  -- A release after the claim gives the row of the subscription back as it was before.
  pub subscription-release :
      (now : ℕ) (picked : List Subscription) (t : Tables I) (s : Subscription)
      → subscription s.id t.subscriptions ≡ some s
      → subscription s.id (release s.id s.retry_at (lease now picked t)).subscriptions ≡ some s
  unfolding release lease
  subscription-release now picked t s h =
      first_where-update_where (has_id s.id) (has_id s.id) (λ r. record r { retry_at = s.retry_at })
        _ (λ _. refl)
      ∙ ap (Option.map _) (
          first_where-update_where (has_id s.id) (λ r. is_picked picked r.id) (leased now)
            t.subscriptions (λ _. refl)
          ∙ ap (Option.map _) h)
      ∙ elim (Bool-cases (is_picked picked s.id)) [
        | inl x ↦ rw (x, ==_refl s.id) refl
        | inr x ↦ rw (x, ==_refl s.id) refl
      ]
