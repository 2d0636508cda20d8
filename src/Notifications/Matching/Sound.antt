-- ===== src/Notifications/Matching/Sound.antt =====
-- What the query of the matches gives: one match for each subscription, event and area that meet the
-- conditions, in order.
use geo_hazard.Base.{
  ◌≤◌, ◌<◌, ◌⊎◌, ==_iff, ℕ, ◌≡◌, refl, sym, ap, subst, ◌∙◌, true, false, List, [], ◌∷◌, ◌++◌, All,
  All-map, All-append, In, All-In, In-All, Bool-cases, inl, inr, arith,
}
use geo_hazard.Base.Json.{Json}
use geo_hazard.Base.Query.{order_by}
use geo_hazard.Base.Query.Order.{
  order_by-All, order_by-All_inv, IsOrdering, IsOrdered, order_by-IsOrdered,
}
use geo_hazard.Hazards.Model.{Source, HazardEvent, EventTable}
use geo_hazard.Notifications.Model.{Subscription}
use geo_hazard.Notifications.Manage.{WatchArea}
use geo_hazard.Notifications.Episodes.Batch.{Match}
use geo_hazard.Notifications.Matching.{
  Geography, Places, is_matched, match_of, match_before, area_matches, event_matches,
  subscription_matches, matches,
}
use geo_hazard.Notifications.Matching.Joined.{matched, IsJoined, matched-IsJoined, IsJoined-matched}

module _ {A : Type 0} where
  In-front : (x : A) (xs ys : List A) → In x xs → In x (xs ++ ys)
  In-front x [] ys i = absurd i
  In-front x (y ∷ xs) ys (inl e) = inl e
  In-front x (y ∷ xs) ys (inr i) = inr (In-front x xs ys i)

  In-back : (x : A) (xs ys : List A) → In x ys → In x (xs ++ ys)
  In-back x [] ys i = i
  In-back x (y ∷ xs) ys i = inr (In-back x xs ys i)

module _ {G F : Type 0} (geo : Geography G F) (source : Source) (batch_at quake_max_age : ℕ) where
  -- A match of rows that are there: an active subscription that wants the type and the severity of
  -- the event, its area, which contains the event, and an event of the source that the batch has
  -- created or updated and that is to be announced.
  abbrev pub IsMatch : Places F G → Match (Json F) F → Type 0
  IsMatch w m =
      (s : Subscription) × (area : WatchArea F G) × (e : HazardEvent G F) × In s w.subscriptions
      × In area w.areas
      × In e w.events
      × (m ≡ match_of geo s e)
      × IsJoined geo source batch_at quake_max_age s area e

  module _ (P : Match (Json F) F → Type 0) where
    area_matches-All :
        (s : Subscription) (e : HazardEvent G F) (areas : List (WatchArea F G))
        → ((area : WatchArea F G)
            → In area areas
            → matched geo source batch_at quake_max_age s area e ≡ true
            → P (match_of geo s e))
        → All P (area_matches geo source batch_at quake_max_age s e areas)
    unfolding area_matches
    area_matches-All s e [] k = tt
    area_matches-All s e (area ∷ areas) k =
        elim (Bool-cases (matched geo source batch_at quake_max_age s area e)) [
          | inl h ↦ rw h (k area (inl refl) h, area_matches-All s e areas (λ a i. k a (inr i)))
          | inr h ↦ rw h (area_matches-All s e areas (λ a i. k a (inr i)))
        ]

    event_matches-All :
        (s : Subscription) (areas : List (WatchArea F G)) (es : EventTable G F)
        → ((area : WatchArea F G) (e : HazardEvent G F)
            → In area areas
            → In e es
            → matched geo source batch_at quake_max_age s area e ≡ true
            → P (match_of geo s e))
        → All P (event_matches geo source batch_at quake_max_age s areas es)
    unfolding event_matches
    event_matches-All s areas [] k = tt
    event_matches-All s areas (e ∷ es) k =
        All-append P (area_matches geo source batch_at quake_max_age s e areas) _
          (area_matches-All s e areas (λ area i h. k area e i (inl refl) h))
          (event_matches-All s areas es (λ area d i j h. k area d i (inr j) h))

    subscription_matches-All :
        (ss : List Subscription) (areas : List (WatchArea F G)) (es : EventTable G F)
        → ((s : Subscription) (area : WatchArea F G) (e : HazardEvent G F)
            → In s ss
            → In area areas
            → In e es
            → matched geo source batch_at quake_max_age s area e ≡ true
            → P (match_of geo s e))
        → All P (subscription_matches geo source batch_at quake_max_age ss areas es)
    unfolding subscription_matches
    subscription_matches-All [] areas es k = tt
    subscription_matches-All (s ∷ ss) areas es k =
        All-append P (event_matches geo source batch_at quake_max_age s areas es) _
          (event_matches-All s areas es (λ area e i j h. k s area e (inl refl) i j h))
          (subscription_matches-All ss areas es (λ r area e i. k r area e (inr i)))

    pub matches-All :
        (w : Places F G)
        → ((s : Subscription) (area : WatchArea F G) (e : HazardEvent G F)
            → In s w.subscriptions
            → In area w.areas
            → In e w.events
            → matched geo source batch_at quake_max_age s area e ≡ true
            → P (match_of geo s e))
        → All P (matches geo source batch_at quake_max_age w)
    unfolding matches
    matches-All w k =
        order_by-All match_before P _ (subscription_matches-All w.subscriptions w.areas w.events k)

module _ {G F : Type 0} (geo : Geography G F) (source : Source) (batch_at quake_max_age : ℕ) where
  In-area_matches :
      (s : Subscription) (e : HazardEvent G F) (area : WatchArea F G) (areas : List (WatchArea F G))
      → In area areas
      → is_matched geo source batch_at quake_max_age s area e ≡ true
      → In (match_of geo s e) (area_matches geo source batch_at quake_max_age s e areas)
  unfolding area_matches
  In-area_matches s e area [] i h = absurd i
  In-area_matches s e area (a ∷ areas) (inl same) h =
      rw (ap (λ a. is_matched geo source batch_at quake_max_age s a e) (sym same) ∙ h) (inl refl)
  In-area_matches s e area (a ∷ areas) (inr i) h =
      elim (Bool-cases (is_matched geo source batch_at quake_max_age s a e)) [
        | inl x ↦ rw x (inr (In-area_matches s e area areas i h))
        | inr x ↦ rw x (In-area_matches s e area areas i h)
      ]

  In-event_matches :
      (s : Subscription) (area : WatchArea F G) (areas : List (WatchArea F G)) (e : HazardEvent G F)
      (es : EventTable G F)
      → In area areas
      → In e es
      → is_matched geo source batch_at quake_max_age s area e ≡ true
      → In (match_of geo s e) (event_matches geo source batch_at quake_max_age s areas es)
  unfolding event_matches
  In-event_matches s area areas e [] i j h = absurd j
  In-event_matches s area areas e (d ∷ es) i (inl same) h =
      subst
        (λ d. In (match_of geo s e) (
          area_matches geo source batch_at quake_max_age s d areas
          ++ event_matches geo source batch_at quake_max_age s areas es))
        same (In-front _ _ _ (In-area_matches s e area areas i h))
  In-event_matches s area areas e (d ∷ es) i (inr j) h =
      In-back _ (area_matches geo source batch_at quake_max_age s d areas) _
        (In-event_matches s area areas e es i j h)

  In-subscription_matches :
      (s : Subscription) (ss : List Subscription) (area : WatchArea F G)
      (areas : List (WatchArea F G)) (e : HazardEvent G F) (es : EventTable G F)
      → In s ss
      → In area areas
      → In e es
      → is_matched geo source batch_at quake_max_age s area e ≡ true
      → In (match_of geo s e) (subscription_matches geo source batch_at quake_max_age ss areas es)
  unfolding subscription_matches
  In-subscription_matches s [] area areas e es k i j h = absurd k
  In-subscription_matches s (r ∷ ss) area areas e es (inl same) i j h =
      subst
        (λ r. In (match_of geo s e) (
          event_matches geo source batch_at quake_max_age r areas es
          ++ subscription_matches geo source batch_at quake_max_age ss areas es))
        same (In-front _ _ _ (In-event_matches s area areas e es i j h))
  In-subscription_matches s (r ∷ ss) area areas e es (inr k) i j h =
      In-back _ (event_matches geo source batch_at quake_max_age r areas es) _
        (In-subscription_matches s ss area areas e es k i j h)

module _ {F : Type 0} where
  -- The order of the matches: by subscription, the more severe first, and of the same severity the
  -- older first.
  abbrev pub Precedes : Match (Json F) F → Match (Json F) F → Type 0
  Precedes a b =
      (a.subscription_id < b.subscription_id)
      ⊎ ((a.subscription_id ≡ b.subscription_id)
          × ((b.severity < a.severity) ⊎ ((a.severity ≡ b.severity) × (a.starts_at ≤ b.starts_at))))

  abbrev pub IsSorted : List (Match (Json F) F) → Type 0
  IsSorted [] = Unit
  IsSorted (m ∷ ms) = All (Precedes m) ms × IsSorted ms

  match_before-Precedes : (a b : Match (Json F) F) → match_before b a ≡ false → Precedes a b
  match_before-Precedes a b h =
      ground (arith, h, ==_iff b.subscription_id a.subscription_id, ==_iff b.severity a.severity)

  match_before-IsOrdering : IsOrdering (match_before {F = F})
  match_before-IsOrdering = record {
    asym = λ a b h. ground (arith, h);
    ties = λ a b c h k. ground (arith, h, k);
  }

  IsOrdered-IsSorted : (ms : List (Match (Json F) F)) → IsOrdered match_before ms → IsSorted ms
  IsOrdered-IsSorted [] h = tt
  IsOrdered-IsSorted (m ∷ ms) h =
      (All-map _ _ ms (λ n k. match_before-Precedes m n k) h.0, IsOrdered-IsSorted ms h.1)

module _ {G F : Type 0} (geo : Geography G F) (source : Source) (batch_at quake_max_age : ℕ) where
  -- The matches of a batch are of the joined rows and of no others: each is one of an active
  -- subscription of the table that wants the type and the severity of the event, its area, and an
  -- event of the source that the batch has created or updated, that meets the area and, in the area
  -- of a province, has its code, and that is a warning that goes on, an open burnt area or a recent
  -- earthquake; and of any such rows there is a match. They come by subscription, the more severe
  -- first, and of the same severity the older first.
  pub matches-IsMatch :
      (w : Places F G)
      → All
          (IsMatch geo source batch_at quake_max_age w)
          (matches geo source batch_at quake_max_age w)
        × ((s : Subscription) (area : WatchArea F G) (e : HazardEvent G F)
            → In s w.subscriptions
            → In area w.areas
            → In e w.events
            → IsJoined geo source batch_at quake_max_age s area e
            → In (match_of geo s e) (matches geo source batch_at quake_max_age w))
        × IsSorted (matches geo source batch_at quake_max_age w)
  unfolding matches
  matches-IsMatch w =
      let found =
        subscription_matches geo source batch_at quake_max_age w.subscriptions w.areas w.events in
      let ordered = order_by match_before found in
      (
        matches-All geo source batch_at quake_max_age _ w (λ s area e i j k h. (
          s,
          area,
          e,
          i,
          j,
          k,
          refl,
          matched-IsJoined geo source batch_at quake_max_age s area e h,
        )),
        (λ s area e i j k h.
            In-All (λ m. In m ordered) _ found
              (order_by-All_inv match_before (λ m. In m ordered) found
                (All-In (λ m. In m ordered) ordered (λ m l. l)))
              (In-subscription_matches geo source batch_at quake_max_age s w.subscriptions area
                w.areas e w.events i j k
                (IsJoined-matched geo source batch_at quake_max_age s area e h))),
        IsOrdered-IsSorted _ (order_by-IsOrdered match_before match_before-IsOrdering found),
      )
