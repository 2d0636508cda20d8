-- ===== src/Notifications/Manage/Counts.antt =====
-- What the orders do to the rows of a subscription and to its pending deliveries.
use geo_hazard.Base.{
  ℕ, ◌≡◌, refl, Bool, true, false, not, ◌&&◌, ◌||◌, none, List, [], ◌∷◌, any, All, arith, ◌==◌,
  ==_iff, if◌then◌else◌,
}
use geo_hazard.Base.Query.{first_where, select_where, update_where, delete_where, count_where}
use geo_hazard.Notifications.Model.{Subscription, Episode, Delivery, Tables, failed}
use geo_hazard.Notifications.Deliveries.{has_id, subscription, is_of_deleted, is_pending_of}
use geo_hazard.Notifications.Manage.{is_of}

-- A row of the id is there no more after its deletion, and the others stay.
pub subscription-delete :
    (id j : ℕ) (t : List Subscription)
    → subscription j (delete_where (has_id id) t) ≡ (if j == id then none else subscription j t)
unfolding delete_where select_where first_where
subscription-delete id j [] = ground arith
subscription-delete id j (s ∷ t) =
    ground (arith, subscription-delete id j t, ==_iff s.id id, ==_iff s.id j, ==_iff j id)

module _ {I : Type 0} where
  abbrev pub pending_count : ℕ → List (Delivery I) → ℕ
  pending_count j ds = count_where (is_pending_of j) ds

  pub pending_count-fail :
      (id j : ℕ) (ds : List (Delivery I))
      → pending_count j (update_where (is_pending_of id) (λ d. record d { status = failed }) ds)
        ≡ (if j == id then 0 else pending_count j ds)
  unfolding count_where update_where
  pending_count-fail id j [] = ground arith
  pending_count-fail id j (d ∷ ds) = ground (
    arith,
    pending_count-fail id j ds,
    ==_iff d.subscription_id id,
    ==_iff d.subscription_id j,
    ==_iff j id,
  )

  -- The episodes of a delivery are of its subscription.
  abbrev pub is_owned : List Episode → Delivery I → Bool
  is_owned episodes d =
      not (any (λ e. d.episode_id == e.id && not (e.subscription_id == d.subscription_id)) episodes)

  abbrev pub IsOwned : Tables I → Type 0
  IsOwned t = All (λ d. is_owned t.episodes d ≡ true) t.deliveries

  kept-owned :
      (id : ℕ) (d : Delivery I) (es : List Episode)
      → is_owned es d ≡ true
      → (d.subscription_id == id) ≡ false
      → is_of_deleted (select_where (is_of id) es) d ≡ false
  unfolding select_where
  kept-owned id d [] h n = refl
  kept-owned id d (e ∷ es) h n = ground (
    arith,
    h,
    n,
    kept-owned id d es,
    ==_iff e.subscription_id id,
    ==_iff e.subscription_id d.subscription_id,
    ==_iff d.subscription_id id,
  )

  pub is_owned-delete :
      (id : ℕ) (d : Delivery I) (es : List Episode)
      → is_owned es d ≡ true
      → is_owned (delete_where (is_of id) es) d ≡ true
  unfolding delete_where select_where
  is_owned-delete id d [] h = h
  is_owned-delete id d (e ∷ es) h = ground (arith, h, is_owned-delete id d es)

  pub pending_count-delete :
      (id j : ℕ) (es : List Episode) (ds : List (Delivery I))
      → All (λ d. is_owned es d ≡ true) ds
      → pending_count j (
          delete_where
            (λ d. d.subscription_id == id || is_of_deleted (select_where (is_of id) es) d)
            ds)
        ≡ (if j == id then 0 else pending_count j ds)
  unfolding count_where delete_where select_where
  pending_count-delete id j es [] h = ground arith
  pending_count-delete id j es (d ∷ ds) h = ground (
    arith,
    pending_count-delete id j es ds h.1,
    kept-owned id d es h.0,
    ==_iff d.subscription_id id,
    ==_iff d.subscription_id j,
    ==_iff j id,
  )

  abbrev pub delivery_count : ℕ → List (Delivery I) → ℕ
  delivery_count j ds = count_where (λ d. d.subscription_id == j) ds

  -- A deletion takes all deliveries of its subscription, and none of another.
  pub delivery_count-delete :
      (id j : ℕ) (es : List Episode) (ds : List (Delivery I))
      → All (λ d. is_owned es d ≡ true) ds
      → delivery_count j (
          delete_where
            (λ d. d.subscription_id == id || is_of_deleted (select_where (is_of id) es) d)
            ds)
        ≡ (if j == id then 0 else delivery_count j ds)
  unfolding count_where delete_where select_where
  delivery_count-delete id j es [] h = ground arith
  delivery_count-delete id j es (d ∷ ds) h = ground (
    arith,
    delivery_count-delete id j es ds h.1,
    kept-owned id d es h.0,
    ==_iff d.subscription_id id,
    ==_iff d.subscription_id j,
    ==_iff j id,
  )

abbrev pub episode_count : ℕ → List Episode → ℕ
episode_count j es = count_where (is_of j) es

pub episode_count-delete :
    (id j : ℕ) (es : List Episode)
    → episode_count j (delete_where (is_of id) es) ≡ (if j == id then 0 else episode_count j es)
unfolding count_where delete_where select_where
episode_count-delete id j [] = ground arith
episode_count-delete id j (e ∷ es) = ground (
  arith,
  episode_count-delete id j es,
  ==_iff e.subscription_id id,
  ==_iff e.subscription_id j,
  ==_iff j id,
)
