-- ===== src/Notifications/Manage/Intact.antt =====
-- Every subscription has its area, whatever the administrator does: the foreign key of
-- subscriptions to areas, which restricts, never stops an order.
use geo_hazard.Base.{
  ℕ, String, ◌≡◌, refl, ap, subst, Bool, true, false, not, Option, List, [], ◌∷◌, ◌++◌, any, All,
  All-map, All-map₂, All-append, arith, ◌==◌, ==_iff, Bool-cases, Option-cases, inl, inr,
}
use geo_hazard.Base.Query.{select_where, delete_where}
use geo_hazard.Base.Query.Rows.{select_where-All, update_where-All}
use geo_hazard.Base.Results.{ok, ok_inj, and_then_parts, guard_parts}
use geo_hazard.Notifications.Model.{Subscription}
use geo_hazard.Notifications.Deliveries.{has_id, subscription, fail_pending}
use geo_hazard.Notifications.Deliveries.Marks.{any-All}
use geo_hazard.Notifications.Areas.{AreaSpec}
use geo_hazard.Notifications.Manage.{
  WatchArea, Registry, Order, pause_order, resume_order, remove_order, perform, committed, pause,
  resume, remove, get, drop_area, delete_subscription, paused_by_hand, resumed,
}
use geo_hazard.Notifications.Manage.Targets.{Fresh, ChannelSpec, wanted_types, target}
use geo_hazard.Notifications.Manage.Add.{
  Settings, is_fake_outside_local, Places, Created, add, new_area, inserted, new_subscription,
}

module _ {F G : Type 0} where
  abbrev pub has_area : List (WatchArea F G) → Subscription → Bool
  has_area areas s = any (λ a. a.id == s.watch_area_id) areas

  has_area-append :
      (areas : List (WatchArea F G)) (a : WatchArea F G) (s : Subscription)
      → has_area areas s ≡ true
      → has_area (areas ++ a ∷ []) s ≡ true
  has_area-append [] a s h = ground (arith, h)
  has_area-append (b ∷ areas) a s h = ground (arith, h, has_area-append areas a s)

  has_area-last :
      (areas : List (WatchArea F G)) (a : WatchArea F G) (s : Subscription)
      → s.watch_area_id ≡ a.id
      → has_area (areas ++ a ∷ []) s ≡ true
  has_area-last [] a s h = ground (arith, h, ==_iff a.id s.watch_area_id)
  has_area-last (b ∷ areas) a s h = ground (arith, has_area-last areas a s h)

  has_area-delete :
      (id : ℕ) (areas : List (WatchArea F G)) (s : Subscription)
      → (s.watch_area_id == id) ≡ false
      → has_area areas s ≡ true
      → has_area (delete_where (λ a. a.id == id) areas) s ≡ true
  unfolding delete_where select_where
  has_area-delete id [] s n h = h
  has_area-delete id (a ∷ areas) s n h = ground (
    arith,
    n,
    h,
    has_area-delete id areas s n,
    ==_iff a.id id,
    ==_iff a.id s.watch_area_id,
    ==_iff s.watch_area_id id,
  )

  has_area-drop :
      (id : ℕ) (subs : List Subscription) (areas : List (WatchArea F G))
      → All (λ s. has_area areas s ≡ true) subs
      → All (λ s. has_area (drop_area id subs areas) s ≡ true) subs
  has_area-drop id subs areas h = elim (Bool-cases (any (λ s. s.watch_area_id == id) subs)) [
    | inl x ↦ rw x h
    | inr x ↦
        rw x (All-map₂ _ _ _ subs (λ s n k. has_area-delete id areas s n k) (any-All _ subs x) h)
  ]

module _ {I F G : Type 0} where
  abbrev pub IsIntact : Registry I F G → Type 0
  IsIntact r = All (λ s. has_area r.areas s ≡ true) r.tables.subscriptions

  IsIntact-perform :
      (o : Order) (r : Registry I F G) → IsIntact r → IsIntact (committed r (perform o r))
  unfolding perform pause resume remove get fail_pending delete_subscription delete_where
  IsIntact-perform (pause_order id) r h =
      elim (Option-cases (subscription id r.tables.subscriptions)) [
        | inl x ↦ rw x h
        | inr (s, x) ↦ rw x (
            update_where-All (λ s. has_area r.areas s ≡ true) (has_id id) paused_by_hand
              r.tables.subscriptions (λ s p k. k) h)
      ]
  IsIntact-perform (resume_order id) r h =
      elim (Option-cases (subscription id r.tables.subscriptions)) [
        | inl x ↦ rw x h
        | inr (s, x) ↦ rw x (
            update_where-All (λ s. has_area r.areas s ≡ true) (has_id id) resumed
              r.tables.subscriptions (λ s p k. k) h)
      ]
  IsIntact-perform (remove_order id) r h =
      elim (Option-cases (subscription id r.tables.subscriptions)) [
        | inl x ↦ rw x h
        | inr (s, x) ↦ rw x (
            has_area-drop s.watch_area_id _ r.areas
              (select_where-All (λ s. has_area r.areas s ≡ true) _ r.tables.subscriptions h))
      ]

module _ {I F G : Type 0} (places : Places F G) where
  IsIntact-inserted :
      (a : WatchArea F G) (s : Subscription) (r : Registry I F G)
      → s.watch_area_id ≡ a.id
      → IsIntact r
      → IsIntact (inserted places a s r)
  IsIntact-inserted a s r e h =
      All-append _ r.tables.subscriptions (s ∷ [])
        (All-map _ _ r.tables.subscriptions (λ q k. has_area-append r.areas a q k) h)
        (has_area-last r.areas a s e, tt)

  IsIntact-add :
      (settings : Settings) (check : String → Option String) (fresh : Fresh) (spec : AreaSpec F)
      (label : Option String) (names : List String) (severity_min : ℕ) (channel : ChannelSpec)
      (r : Registry I F G) {created : Created} {r' : Registry I F G}
      → add places settings check fresh spec label names severity_min channel r ≡ ok (created, r')
      → IsIntact r
      → IsIntact r'
  unfolding add
  IsIntact-add settings check fresh spec label names severity_min channel r {r' = r'} added h =
      let (allowed, x) = guard_parts (not (is_fake_outside_local settings)) _ _ added in
      let (types, a, x₁) = and_then_parts (wanted_types names) _ x in
      let (to, b, x₂) = and_then_parts (target check fresh channel r) _ x₁ in
      let (area, c, e) =
        and_then_parts (new_area places fresh.area_id spec label r.provinces) _ x₂ in
      subst IsIntact (ap (λ p. p.1) (ok_inj e)) (
        IsIntact-inserted area
          (new_subscription fresh.subscription_id area.id types severity_min to) r refl h)

  -- What the administrator can do to the registry.
  pub data Step : Registry I F G → Registry I F G → Type 0 where
    performed : (o : Order) (r : Registry I F G) → Step r (committed r (perform o r))
    added :
        (settings : Settings) (check : String → Option String) (fresh : Fresh) (spec : AreaSpec F)
        (label : Option String) (names : List String) (severity_min : ℕ) (channel : ChannelSpec)
        (r : Registry I F G) (created : Created) (r' : Registry I F G)
        → add places settings check fresh spec label names severity_min channel r ≡ ok (created, r')
        → Step r r'

  pub data Reaches : Registry I F G → Registry I F G → Type 0 where
    start : (r : Registry I F G) → Reaches r r
    next : (r r₁ r₂ : Registry I F G) → Reaches r r₁ → Step r₁ r₂ → Reaches r r₂

  Step-IsIntact : (r r' : Registry I F G) → Step r r' → IsIntact r → IsIntact r'
  Step-IsIntact r r' (performed o _) h = IsIntact-perform o r h
  Step-IsIntact r r' (added settings check fresh spec label names n channel _ created _ e) h =
      IsIntact-add settings check fresh spec label names n channel r e h

  -- In every registry that the orders of the administrator lead to from one in which each
  -- subscription has its area, each subscription has its area.
  pub Reaches-IsIntact : (r r' : Registry I F G) → Reaches r r' → IsIntact r → IsIntact r'
  Reaches-IsIntact r r' (start _) h = h
  Reaches-IsIntact r r' (next _ r₁ _ s t) h = Step-IsIntact r₁ r' t (Reaches-IsIntact r r₁ s h)
