-- ===== src/Notifications/Manage/Refines.antt =====
-- The orders, seen as operations on what is there of each subscription.
use mathlib.Core.Option
use geo_hazard.Base.{
  is_none, none_ne_some, true_ne_false, ℕ, ◌≡◌, refl, sym, ap, ◌∙◌, Bool, true, false, Option, none,
  some, List, [], ◌∷◌, All-map, arith, ◌==◌, ==_iff, Bool-cases, Option-cases, inl, inr,
  if◌then◌else◌,
}
use geo_hazard.Base.Query.{delete_where}
use geo_hazard.Base.Query.Rows.{
  count_where-update_where, first_where-update_where, first_where_found, update_where-All,
  select_where-All,
}
use geo_hazard.Notifications.Manage.Counts.{
  subscription-delete, pending_count, pending_count-fail, is_owned, IsOwned, is_owned-delete,
  pending_count-delete, delivery_count, delivery_count-delete, episode_count, episode_count-delete,
}
use mathlib.Core.Path.{fun_ext}
use geo_hazard.Notifications.Model.{Subscription, Tables, SubscriptionStatus, active, paused}
use geo_hazard.Notifications.Deliveries.{has_id, subscription, is_pending_of, fail_pending}
use geo_hazard.Notifications.Manage.{
  set_row, delete_subscription, Order, pause_order, resume_order, remove_order, paused_by_hand,
  resumed, Registry, perform, committed, pause, resume, remove, get,
}

-- What is there of a subscription: its status if it is in the table, how many deliveries it has
-- left to send, and how many deliveries and episodes it has at all.
abbrev pub Trace : Type 0
Trace = Option SubscriptionStatus × (ℕ × (ℕ × ℕ))

abbrev pub Abstract : Type 0
Abstract = ℕ → Trace

abbrev pub subject : Order → ℕ
subject (pause_order id) = id
subject (resume_order id) = id
subject (remove_order id) = id

-- A subscription that is not there is left as it is. A pause leaves nothing to send of another one,
-- a resume does not bring anything back, and a removal leaves nothing at all.
abbrev pub changed : Order → Trace → Trace
changed o (none, counts) = (none, counts)
changed (pause_order id) (some s, (pending, counts)) = (some paused, (0, counts))
changed (resume_order id) (some s, counts) = (some active, counts)
changed (remove_order id) (some s, counts) = (none, (0, (0, 0)))

-- No order touches another subscription.
unfoldable pub specified : Order → Abstract → Abstract
specified o m j = if j == subject o then changed o (m j) else m j

changed_absent : (o : Order) (v : Trace) → v.0 ≡ none → changed o v ≡ v
changed_absent o (none, counts) h = refl
changed_absent o (some s, counts) h = absurd (none_ne_some (sym h))

status-pause :
    (id j : ℕ) (o : Option Subscription)
    → ((s : Subscription) → o ≡ some s → (s.id == j) ≡ true)
    → Option.map (λ s. s.status) (Option.map (λ s. if has_id id s then paused_by_hand s else s) o)
      ≡ (if j == id
          then Option.map (λ v. paused) (Option.map (λ s. s.status) o)
          else Option.map (λ s. s.status) o)
status-pause id j none h = ground arith
status-pause id j (some s) h = ground (arith, h s refl, ==_iff s.id j, ==_iff j id, ==_iff s.id id)

status-resume :
    (id j : ℕ) (o : Option Subscription)
    → ((s : Subscription) → o ≡ some s → (s.id == j) ≡ true)
    → Option.map (λ s. s.status) (Option.map (λ s. if has_id id s then resumed s else s) o) ≡ (
        if j == id
        then Option.map (λ v. active) (Option.map (λ s. s.status) o)
        else Option.map (λ s. s.status) o)
status-resume id j none h = ground arith
status-resume id j (some s) h = ground (arith, h s refl, ==_iff s.id j, ==_iff j id, ==_iff s.id id)

trace-pause :
    (b : Bool) (id pending pending' deliveries deliveries' episodes : ℕ)
    (o o' : Option SubscriptionStatus)
    → (b ≡ true → is_none o ≡ false)
    → o' ≡ (if b then Option.map (λ v. paused) o else o)
    → pending' ≡ (if b then 0 else pending)
    → deliveries' ≡ deliveries
    → ◌≡◌ {A = Trace}
        (o', (pending', (deliveries', episodes)))
        (if b
          then changed (pause_order id) (o, (pending, (deliveries, episodes)))
          else (o, (pending, (deliveries, episodes))))
trace-pause true id p p' d d' e none o' here x y z = absurd (true_ne_false (here refl))
trace-pause true id p p' d d' e (some s) o' here x y z = rw (x, y, z) refl
trace-pause false id p p' d d' e o o' here x y z = rw (x, y, z) refl

trace-resume :
    (b : Bool) (id : ℕ) (counts : ℕ × (ℕ × ℕ)) (o o' : Option SubscriptionStatus)
    → (b ≡ true → is_none o ≡ false)
    → o' ≡ (if b then Option.map (λ v. active) o else o)
    → ◌≡◌ {A = Trace}
        (o', counts)
        (if b then changed (resume_order id) (o, counts) else (o, counts))
trace-resume true id counts none o' here x = absurd (true_ne_false (here refl))
trace-resume true id counts (some s) o' here x = rw x refl
trace-resume false id counts o o' here x = rw x refl

trace-remove :
    (b : Bool) (id pending pending' deliveries deliveries' episodes episodes' : ℕ)
    (o o' : Option Subscription)
    → (b ≡ true → is_none o ≡ false)
    → o' ≡ (if b then none else o)
    → pending' ≡ (if b then 0 else pending)
    → deliveries' ≡ (if b then 0 else deliveries)
    → episodes' ≡ (if b then 0 else episodes)
    → ◌≡◌ {A = Trace}
        (Option.map (λ s. s.status) o', (pending', (deliveries', episodes')))
        (if b
          then changed
              (remove_order id)
              (Option.map (λ s. s.status) o, (pending, (deliveries, episodes)))
          else (Option.map (λ s. s.status) o, (pending, (deliveries, episodes))))
trace-remove true id p p' d d' e e' none o' here x y z w = absurd (true_ne_false (here refl))
trace-remove true id p p' d d' e e' (some s) o' here x y z w = rw (x, y, z, w) refl
trace-remove false id p p' d d' e e' o o' here x y z w = rw (x, y, z, w) refl

unfoldable pub specified_all : List Order → Abstract → Abstract
specified_all [] m = m
specified_all (o ∷ os) m = specified_all os (specified o m)

module _ {I : Type 0} where
  abbrev pub view : Tables I → Abstract
  view t j = (
    Option.map (λ s. s.status) (subscription j t.subscriptions),
    (pending_count j t.deliveries, (delivery_count j t.deliveries, episode_count j t.episodes)),
  )

  view_missing :
      (o : Order) (j : ℕ) (t : Tables I)
      → subscription (subject o) t.subscriptions ≡ none
      → view t j ≡ specified o (view t) j
  unfolding specified
  view_missing o j t h = elim (Bool-cases (j == subject o)) [
    | inl x ↦ rw x (
        sym (
          changed_absent o (view t j) (
            ap (Option.map (λ s. s.status))
              (ap (λ i. subscription i t.subscriptions) ((==_iff j (subject o)).0 x) ∙ h))))
    | inr x ↦ rw x refl
  ]

  -- The row of the order's subscription is there.
  is_there :
      (id j : ℕ) (t : Tables I) {s : Subscription}
      → subscription id t.subscriptions ≡ some s
      → (j == id) ≡ true
      → subscription j t.subscriptions ≡ some s
  is_there id j t h x = ap (λ i. subscription i t.subscriptions) ((==_iff j id).0 x) ∙ h

  view-pause :
      (id j : ℕ) (t : Tables I) {s : Subscription}
      → subscription id t.subscriptions ≡ some s
      → view (fail_pending id (set_row id paused_by_hand t)) j
        ≡ specified (pause_order id) (view t) j
  unfolding fail_pending specified
  view-pause id j t h =
      trace-pause (j == id) id (pending_count j t.deliveries) _ (delivery_count j t.deliveries) _
        (episode_count j t.episodes) (Option.map (λ s. s.status) (subscription j t.subscriptions)) _
        (λ x. ap (λ o. is_none (Option.map (λ s. s.status) o)) (is_there id j t h x))
        (ap (Option.map (λ s. s.status)) (
            first_where-update_where (has_id j) (has_id id) paused_by_hand t.subscriptions
              (λ s. refl))
          ∙ status-pause id j (subscription j t.subscriptions)
              (λ s x. first_where_found (has_id j) t.subscriptions x))
        (pending_count-fail id j t.deliveries)
        (count_where-update_where _ (is_pending_of id) _ t.deliveries (λ d. refl))

  view-resume :
      (id j : ℕ) (t : Tables I) {s : Subscription}
      → subscription id t.subscriptions ≡ some s
      → view (set_row id resumed t) j ≡ specified (resume_order id) (view t) j
  unfolding specified
  view-resume id j t h =
      trace-resume (j == id) id _ (Option.map (λ s. s.status) (subscription j t.subscriptions)) _
        (λ x. ap (λ o. is_none (Option.map (λ s. s.status) o)) (is_there id j t h x))
        (ap (Option.map (λ s. s.status))
            (first_where-update_where (has_id j) (has_id id) resumed t.subscriptions (λ s. refl))
          ∙ status-resume id j (subscription j t.subscriptions)
              (λ s x. first_where_found (has_id j) t.subscriptions x))

  view-remove :
      (id j : ℕ) (t : Tables I) {s : Subscription}
      → subscription id t.subscriptions ≡ some s
      → IsOwned t
      → view (delete_subscription id t) j ≡ specified (remove_order id) (view t) j
  unfolding delete_subscription specified
  view-remove id j t h owned =
      trace-remove (j == id) id (pending_count j t.deliveries) _ (delivery_count j t.deliveries) _
        (episode_count j t.episodes) _ (subscription j t.subscriptions) _
        (λ x. ap is_none (is_there id j t h x)) (subscription-delete id j t.subscriptions)
        (pending_count-delete id j t.episodes t.deliveries owned)
        (delivery_count-delete id j t.episodes t.deliveries owned)
        (episode_count-delete id j t.episodes)

module _ {I F G : Type 0} where
  -- One order after the other.
  unfoldable pub perform_all : List Order → Registry I F G → Registry I F G
  perform_all [] r = r
  perform_all (o ∷ os) r = perform_all os (committed r (perform o r))

  view-perform :
      (o : Order) (r : Registry I F G) (j : ℕ)
      → IsOwned r.tables
      → view (committed r (perform o r)).tables j ≡ specified o (view r.tables) j
  unfolding perform pause resume remove get
  view-perform (pause_order id) r j h =
      elim (Option-cases (subscription id r.tables.subscriptions)) [
        | inl x ↦ rw x (view_missing (pause_order id) j r.tables x)
        | inr (s, x) ↦ rw x (view-pause id j r.tables x)
      ]
  view-perform (resume_order id) r j h =
      elim (Option-cases (subscription id r.tables.subscriptions)) [
        | inl x ↦ rw x (view_missing (resume_order id) j r.tables x)
        | inr (s, x) ↦ rw x (view-resume id j r.tables x)
      ]
  view-perform (remove_order id) r j h =
      elim (Option-cases (subscription id r.tables.subscriptions)) [
        | inl x ↦ rw x (view_missing (remove_order id) j r.tables x)
        | inr (s, x) ↦ rw x (view-remove id j r.tables x h)
      ]

  IsOwned-perform :
      (o : Order) (r : Registry I F G)
      → IsOwned r.tables
      → IsOwned (committed r (perform o r)).tables
  unfolding perform pause resume remove get fail_pending delete_subscription delete_where
  IsOwned-perform (pause_order id) r h =
      elim (Option-cases (subscription id r.tables.subscriptions)) [
        | inl x ↦ rw x h
        | inr (s, x) ↦ rw x (
            update_where-All (λ d. is_owned r.tables.episodes d ≡ true) (is_pending_of id) _
              r.tables.deliveries (λ d p k. k) h)
      ]
  IsOwned-perform (resume_order id) r h =
      elim (Option-cases (subscription id r.tables.subscriptions)) [
        | inl x ↦ rw x h
        | inr (s, x) ↦ rw x h
      ]
  IsOwned-perform (remove_order id) r h =
      elim (Option-cases (subscription id r.tables.subscriptions)) [
        | inl x ↦ rw x h
        | inr (s, x) ↦ rw x (
            All-map _ _ _ (λ d k. is_owned-delete id d r.tables.episodes k)
              (select_where-All (λ d. is_owned r.tables.episodes d ≡ true) _ r.tables.deliveries h))
      ]

  -- Any sequence of orders, those that raise included, does to each subscription's status and to
  -- its numbers of pending deliveries, of deliveries and of episodes what its specification says,
  -- if the episodes of the deliveries are of their subscriptions: a removal, for one, leaves no
  -- row, no delivery and no episode of its subscription, and all of the others.
  pub view-perform_all :
      (os : List Order) (r : Registry I F G)
      → IsOwned r.tables
      → view (perform_all os r).tables ≡ specified_all os (view r.tables)
  unfolding perform_all specified_all
  view-perform_all [] r h = refl
  view-perform_all (o ∷ os) r h =
      view-perform_all os (committed r (perform o r)) (IsOwned-perform o r h)
      ∙ ap (specified_all os) (fun_ext λ j. view-perform o r j h)
