-- ===== src/Notifications/Deliveries/Marks.antt =====
-- The failure that pauses a subscription, and what the purge keeps.
use geo_hazard.Base.{
  true_ne_false, ℕ, String, ◌≡◌, refl, sym, subst, ◌∙◌, Bool, true, false, not, ◌&&◌, Option, none,
  some, List, [], ◌∷◌, arith, All, All-take, All-map, All-map₂, All-const, ==_iff, any, ◌==◌,
  or_default, Bool-cases, inl, inr,
}
use geo_hazard.Base.Query.{select_where, update_where, delete_where}
use geo_hazard.Base.Query.Rows.{first_where_found, All-select_where}
use geo_hazard.Base.Query.Order.{order_by-All}
use geo_hazard.Notifications.Model.{
  Subscription, Episode, Delivery, DeliveryStatus, pending, sent, failed, is_pending, Tables,
}
use geo_hazard.Notifications.Deliveries.{
  sent_before, has_id, subscription, is_claimable, is_pending_of, is_over, picks, fail_pending,
  mark_row, mark_failed, is_old_delivery, is_old_episode, is_of_deleted, purge,
}

and_false : (s : DeliveryStatus) → (is_pending s && false) ≡ false
and_false pending = refl
and_false sent = refl
and_false failed = refl

pub any-All :
    {A : Type 0} (p : A → Bool) (xs : List A) → any p xs ≡ false → All (λ x. p x ≡ false) xs
any-All p [] h = tt
any-All p (x ∷ xs) h = ground (arith, any-All p xs)

module _ {I : Type 0} where
  pub any-fail_pending :
      (id : ℕ) (ds : List (Delivery I))
      → any
          (is_pending_of id)
          (update_where (is_pending_of id) (λ d. record d { status = failed }) ds)
        ≡ false
  unfolding update_where
  any-fail_pending id [] = refl
  any-fail_pending id (d ∷ ds) = ground (arith, any-fail_pending id ds)

  none-claimable :
      (now min_interval id : ℕ) (s : Subscription) (ds : List (Delivery I))
      → any (is_pending_of id) ds ≡ false
      → is_claimable now min_interval ds s ≡ true
      → (s.id == id) ≡ false
  none-claimable now min_interval id s ds h c = elim (Bool-cases (s.id == id)) [
    | inr x ↦ x
    | inl x ↦ absurd (
        true_ne_false (
          sym (
            subst (λ i. any (is_pending_of i) ds ≡ true) ((==_iff s.id id).0 x) (ground (arith, c)))
          ∙ h))
  ]

  any-mark_row :
      (show_time : ℕ → String) (id : ℕ) (error : String) (now pause_after : ℕ) (t : Tables I)
      (o : Option Subscription)
      → subscription id t.subscriptions ≡ o
      → (mark_row show_time error now pause_after o t).0 ≡ true
      → any (is_pending_of id) (mark_row show_time error now pause_after o t).1.deliveries ≡ false
  unfolding mark_row fail_pending
  any-mark_row show_time id error now pause_after t none e h = cc
  any-mark_row show_time id error now pause_after t (some s) e h =
      elim (Bool-cases (is_over now pause_after (or_default s.failing_since now))) [
        | inl x ↦ rw x (
            subst
              (λ i.
                any (is_pending_of i) (
                  update_where (is_pending_of s.id) (λ d. record d { status = failed })
                    t.deliveries)
                ≡ false)
              ((==_iff s.id id).0 (first_where_found (has_id id) t.subscriptions e))
              (any-fail_pending s.id t.deliveries))
        | inr x ↦ absurd (true_ne_false (sym h ∙ rw x refl))
      ]

  -- A claim takes nothing of a subscription without a pending delivery.
  pub picks_quiet :
      (id : ℕ) (t : Tables I) (locked : ℕ → Bool) (later min_interval limit : ℕ)
      → any (is_pending_of id) t.deliveries ≡ false
      → All (λ s. (s.id == id) ≡ false) (picks locked later min_interval limit t)
  unfolding picks
  picks_quiet id t locked later min_interval limit h = All-take _ limit _ (
      order_by-All sent_before _ _ (
        All-map _ _ _ (λ s c. none-claimable later min_interval id s _ h (ground (arith, c)))
          (All-select_where (λ s. is_claimable later min_interval _ s && not (locked s.id)) _)))

  -- When a failure pauses the subscription, no claim takes it from then on, at any time, while no
  -- delivery is added.
  pub mark_failed_ends :
      (show_time : ℕ → String) (id : ℕ) (error : String) (now pause_after : ℕ) (t : Tables I)
      (locked : ℕ → Bool) (later min_interval limit : ℕ)
      → (mark_failed show_time id error now pause_after t).0 ≡ true
      → All
          (λ s. (s.id == id) ≡ false)
          (picks locked later min_interval limit
            (mark_failed show_time id error now pause_after t).1)
  unfolding mark_failed
  mark_failed_ends show_time id error now pause_after t locked later min_interval limit h =
      picks_quiet id _ locked later min_interval limit
        (any-mark_row show_time id error now pause_after t _ refl h)

  -- Nothing that is pending belongs to an episode that is deleted.
  pending-is_of_deleted :
      (kept : List (Delivery I)) (old : List Episode)
      → All (λ e. any (λ d. d.episode_id == e.id && is_pending d.status) kept ≡ false) old
      → All (λ d. (is_pending d.status && is_of_deleted old d) ≡ false) kept
  pending-is_of_deleted kept [] h = All-const _ kept (λ d. and_false d.status)
  pending-is_of_deleted kept (e ∷ old) h =
      All-map₂ _ _ _ kept (λ d p q. ground (arith, p, q))
        (any-All (λ d. d.episode_id == e.id && is_pending d.status) kept h.0)
        (pending-is_of_deleted kept old h.1)

  select_where-delete_where :
      (p q : Delivery I → Bool) (ds : List (Delivery I))
      → All (λ d. (p d && q d) ≡ false) ds
      → select_where p (delete_where q ds) ≡ select_where p ds
  unfolding select_where delete_where
  select_where-delete_where p q [] h = refl
  select_where-delete_where p q (d ∷ ds) h = ground (arith, select_where-delete_where p q ds)

  -- The purge keeps the pending deliveries, all of them, although the deletion of an episode
  -- takes its deliveries with it.
  pub purge-pending :
      (now retention : ℕ) (t : Tables I)
      → select_where (λ d. is_pending d.status) (purge now retention t).1.deliveries
        ≡ select_where (λ d. is_pending d.status) t.deliveries
  unfolding purge
  purge-pending now retention t =
      let kept = delete_where (is_old_delivery now retention) t.deliveries in
      let old = select_where (is_old_episode now retention kept) t.episodes in
      select_where-delete_where (λ d. is_pending d.status) (is_of_deleted old) kept
        (pending-is_of_deleted kept old (
          All-map _ _ old (λ e h. ground (arith, h))
            (All-select_where (is_old_episode now retention kept) t.episodes)))
      ∙ select_where-delete_where (λ d. is_pending d.status) (is_old_delivery now retention)
          t.deliveries (All-const _ t.deliveries (λ d. ground arith))
