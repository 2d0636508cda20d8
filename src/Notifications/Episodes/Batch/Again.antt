-- ===== src/Notifications/Episodes/Batch/Again.antt =====
-- A group of matches that was handled is only touched when it comes again.
use mathlib.Core.Option
use geo_hazard.Base.{
  ◌≢◌, ℕ, ◌+◌, ◌≤◌, max, ◌≡◌, refl, sym, ap, subst, ◌∙◌, Bool, true, false, Option, none, some,
  List, [], ◌∷◌, ◌++◌, arith, any, ltb, ◌==◌, ==_refl, none_or, if◌then◌else◌, Bool-cases, inl, inr,
  some_inj, none_ne_some,
}
use geo_hazard.Base.Query.{first_where}
use geo_hazard.Base.Query.Rows.{first_where-update_where, first_where-snoc}
use text.Mathlib.TextPositions.{eq_refl}
use geo_hazard.Notifications.Model.{
  Subscription, Delivery, Episode, Tables, Reason, opened, escalated,
}
use geo_hazard.Notifications.Episodes.{
  Action, open_new, escalate, touch, OpenEpisode, decide, decide_current, is_current, later,
  is_open_of, open_episode, refresh, add_delivery, is_delivery_of,
}
use geo_hazard.Notifications.Episodes.Batch.{
  Making, Group, open_view, current_episode, deliver, close_current, open_and_deliver, act,
  handle_group,
}

first_where-any :
    (p : Episode → Bool) (es : List Episode) → any p es ≡ false → first_where p es ≡ none
unfolding first_where
first_where-any p [] h = refl
first_where-any p (e ∷ es) h = ground (arith, first_where-any p es)

first_where-added :
    (p : Episode → Bool) (es : List Episode) (n : Episode)
    → any p es ≡ false
    → p n ≡ true
    → first_where p (es ++ n ∷ []) ≡ some n
first_where-added p es n h k = first_where-snoc p es n ∙ rw (first_where-any p es h, k) refl

not_touch : (b : Bool) → (if b then escalate else open_new) ≡ touch → ⊥
not_touch true h = cc
not_touch false h = cc

not_ltb→le : (a b : ℕ) → ltb a b ≡ false → b ≤ a
not_ltb→le a b h = ground arith

map_inv :
    {A B : Type 0} (f : A → B) (o : Option A) {b : B}
    → Option.map f o ≡ some b
    → (a : A) × (o ≡ some a) × (f a ≡ b)
map_inv f none h = absurd (none_ne_some h)
map_inv f (some a) h = (a, refl, some_inj h)

opened_tables :
    {I : Type 0} (b : Bool) (id : ℕ) (t : Tables I) {opening : ℕ × Tables I}
    → (if b then none else some (id, t)) ≡ some opening
    → (b ≡ false) × ((id, t) ≡ opening)
opened_tables true id t h = absurd (none_ne_some h)
opened_tables false id t h = (refl, some_inj h)

-- What the handling of a group says, and what it leaves of the deliveries and the subscriptions.
abbrev pub left_by :
    {I : Type 0} → Option (Bool × Tables I) → Option (Bool × List (Delivery I) × List Subscription)
left_by r = Option.map (λ again. (again.0, again.1.deliveries, again.1.subscriptions)) r

module _ {G F I : Type 0} (x : Making G F I) where
  -- The episode has the severity and the expiry of the group at least.
  abbrev Covers : Group G F → Option OpenEpisode → Type 0
  Covers g none = ⊥
  Covers g (some e) =
      (g.severity ≤ e.notified_severity) × (is_current (some e) x.batch_at x.grace ≡ true)

  decide-Covers :
      (g : Group G F) (o : Option OpenEpisode)
      → Covers g o
      → decide o g.severity x.batch_at x.grace ≡ touch
  unfolding decide decide_current
  decide-Covers g none h = absurd h
  decide-Covers g (some e) h = ground (arith, h.0, h.1)

  episodes-deliver :
      (id : ℕ) (g : Group G F) (episode_id : ℕ) (reason : Reason) (t : Tables I)
      → (deliver x id g episode_id reason t).1.episodes ≡ t.episodes
  unfolding deliver add_delivery
  episodes-deliver id g episode_id reason t =
      elim (Bool-cases (any (is_delivery_of episode_id g.severity) t.deliveries)) [
        | inl e ↦ rw e refl
        | inr e ↦ rw e refl
      ]

  refreshed_view :
      (c : OpenEpisode) (severity : ℕ) (expires_at : Option ℕ) (o : Option Episode)
      → Option.map (open_view x) o ≡ some c
      → Option.map (open_view x) (
          Option.map
            (λ e.
              if e.id == c.id
              then record e {
                notified_severity = max e.notified_severity severity;
                last_matched_at = max e.last_matched_at x.batch_at;
                expires_at = later e.expires_at expires_at;
              }
              else e)
            o)
        ≡ some (record c {
          notified_severity = max c.notified_severity severity;
          expires_at = later c.expires_at expires_at;
        })
  refreshed_view c severity expires_at none h = absurd (none_ne_some h)
  refreshed_view c severity expires_at (some e) h =
      subst
        (λ c.
          Option.map (open_view x) (
            Option.map
              (λ e.
                if e.id == c.id
                then record e {
                  notified_severity = max e.notified_severity severity;
                  last_matched_at = max e.last_matched_at x.batch_at;
                  expires_at = later e.expires_at expires_at;
                }
                else e)
              (some e))
          ≡ some (record c {
            notified_severity = max c.notified_severity severity;
            expires_at = later c.expires_at expires_at;
          }))
        (some_inj h) (rw (==_refl e.id) refl)

  -- The severity and the expiry of the group are those of the episode after it is refreshed.
  current-refresh :
      (g : Group G F) (c : OpenEpisode) (severity : ℕ) (t : Tables I)
      → current_episode x g t ≡ some c
      → current_episode x g (refresh c.id severity g.expires_at x.batch_at t)
        ≡ some (record c {
          notified_severity = max c.notified_severity severity;
          expires_at = later c.expires_at g.expires_at;
        })
  unfolding current_episode refresh
  current-refresh g c severity t h =
      ap (Option.map (open_view x)) (
        first_where-update_where (is_open_of g.subscription_id g.key) (λ e. e.id == c.id) _
          t.episodes (λ e. refl))
      ∙ refreshed_view c severity g.expires_at
          (first_where (is_open_of g.subscription_id g.key) t.episodes) h

  current-open_episode :
      (new_id : ℕ) (g : Group G F) (t : Tables I) {opening : ℕ × Tables I}
      → open_episode new_id g.subscription_id g.key g.severity g.expires_at x.batch_at t
        ≡ some opening
      → current_episode x g opening.1
        ≡ some (record { id = new_id; notified_severity = g.severity; expires_at = g.expires_at })
  unfolding current_episode open_episode
  current-open_episode new_id g t {opening} h =
      let (closed, same) =
        opened_tables (any (is_open_of g.subscription_id g.key) t.episodes) new_id _ h in
      subst
        (λ s.
          current_episode x g s.1
          ≡ some
              (record { id = new_id; notified_severity = g.severity; expires_at = g.expires_at }))
        same
        (ap (Option.map (open_view x)) (
          first_where-added (is_open_of g.subscription_id g.key) t.episodes _ closed
            (rw (==_refl g.subscription_id, eq_refl g.key) refl)))

  later-current :
      (a b : Option ℕ)
      → none_or (λ at. ltb x.batch_at (at + x.grace)) b ≡ true
      → none_or (λ at. ltb x.batch_at (at + x.grace)) a ≡ true
      → none_or (λ at. ltb x.batch_at (at + x.grace)) (later a b) ≡ true
  later-current none none h k = refl
  later-current none (some b) h k = h
  later-current (some a) none h k = k
  later-current (some a) (some b) h k = ground arith

  current-deliver :
      (id : ℕ) (g : Group G F) (episode_id : ℕ) (reason : Reason) (t : Tables I)
      → current_episode x g (deliver x id g episode_id reason t).1 ≡ current_episode x g t
  unfolding current_episode
  current-deliver id g episode_id reason t =
      ap (λ es. Option.map (open_view x) (first_where (is_open_of g.subscription_id g.key) es))
        (episodes-deliver id g episode_id reason t)

  decide-current :
      (c : OpenEpisode) (severity : ℕ) (a : Action)
      → decide (some c) severity x.batch_at x.grace ≡ a
      → a ≢ open_new
      → is_current (some c) x.batch_at x.grace ≡ true
  unfolding decide
  decide-current c severity a h n = elim (Bool-cases (is_current (some c) x.batch_at x.grace)) [
    | inl e ↦ e
    | inr e ↦ absurd (n (sym h ∙ rw e refl))
  ]

  decide-touch :
      (c : OpenEpisode) (severity : ℕ)
      → decide (some c) severity x.batch_at x.grace ≡ touch
      → severity ≤ c.notified_severity
  unfolding decide decide_current
  decide-touch c severity h = elim (Bool-cases (ltb c.notified_severity severity)) [
    | inl e ↦ absurd (
        not_touch (is_current (some c) x.batch_at x.grace) (
          subst
            (λ b.
              (if is_current (some c) x.batch_at x.grace
                then (if b then escalate else touch)
                else open_new)
              ≡ touch)
            e h))
    | inr e ↦ omega (arith, not_ltb→le c.notified_severity severity e)
  ]

  module _ (g : Group G F)
      (live : none_or (λ at. ltb x.batch_at (at + x.grace)) g.expires_at ≡ true) where
    refreshed-Covers :
        (c : OpenEpisode) (severity : ℕ) (t : Tables I)
        → g.severity ≤ max c.notified_severity severity
        → is_current (some c) x.batch_at x.grace ≡ true
        → current_episode x g t ≡ some c
        → Covers g (current_episode x g (refresh c.id severity g.expires_at x.batch_at t))
    unfolding is_current
    refreshed-Covers c severity t h k at =
        subst (Covers g) (sym (current-refresh g c severity t at))
          (h, later-current c.expires_at g.expires_at live k)

    opened-Covers :
        (reason : Reason) (ids : ℕ × ℕ) (o : Option OpenEpisode) (t : Tables I)
        {s : Bool × Tables I}
        → open_and_deliver x reason ids g o t ≡ some s
        → Covers g (current_episode x g s.1)
    unfolding open_and_deliver is_current
    opened-Covers reason ids o t {s} h =
        let (opening, opens, same) = map_inv _ _ h in
        subst (λ s. Covers g (current_episode x g s.1)) same
          (subst (Covers g)
            (sym (
              current-deliver ids.1 g opening.0 reason opening.1
              ∙ current-open_episode ids.0 g (close_current x o t) opens))
            (omega arith, live))

    act-Covers :
        (a : Action) (ids : ℕ × ℕ) (o : Option OpenEpisode) (t : Tables I) {s : Bool × Tables I}
        → decide o g.severity x.batch_at x.grace ≡ a
        → current_episode x g t ≡ o
        → act x a ids g o t ≡ some s
        → Covers g (current_episode x g s.1)
    unfolding act
    act-Covers touch ids (some c) t d at h =
        subst (λ s. Covers g (current_episode x g s.1)) (some_inj h)
          (refreshed-Covers c c.notified_severity t (omega (arith, decide-touch c g.severity d))
            (decide-current c g.severity touch d (λ e. cc)) at)
    act-Covers escalate ids (some c) t d at h =
        subst (λ s. Covers g (current_episode x g s.1)) (some_inj h)
          (subst (Covers g) (sym (current-deliver ids.1 g c.id escalated _)) (
            refreshed-Covers c g.severity t (omega arith)
              (decide-current c g.severity escalate d (λ e. cc)) at))
    act-Covers touch ids none t d at h = opened-Covers opened ids none t h
    act-Covers escalate ids none t d at h = opened-Covers escalated ids none t h
    act-Covers open_new ids o t d at h = opened-Covers opened ids o t h

    touched :
        (ids : ℕ × ℕ) (o : Option OpenEpisode) (t : Tables I)
        → Covers g o
        → left_by (handle_group x ids g o t) ≡ some (false, t.deliveries, t.subscriptions)
    unfolding handle_group act refresh
    touched ids none t h = absurd h
    touched ids (some c) t h = rw (decide-Covers g (some c) h) refl

    -- A group of matches whose expiry is none or lies ahead creates no delivery when it is handled
    -- again in the batch: the handling says so, and it leaves all deliveries and all subscriptions
    -- as they are.
    pub handle_group-again :
        (ids ids' : ℕ × ℕ) (t : Tables I) {s : Bool × Tables I}
        → handle_group x ids g (current_episode x g t) t ≡ some s
        → left_by (handle_group x ids' g (current_episode x g s.1) s.1)
          ≡ some (false, s.1.deliveries, s.1.subscriptions)
    unfolding handle_group act
    handle_group-again ids ids' t {s} h =
        touched ids' (current_episode x g s.1) s.1 (act-Covers _ ids _ t refl refl h)
