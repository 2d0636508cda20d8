-- ===== src/Notifications/Manage/Silence.antt =====
-- What waited before a pause is not sent after a resume.
use geo_hazard.Base.{ℕ, ◌≡◌, sym, ap, ◌∙◌, Bool, false, All, any, ◌==◌}
use geo_hazard.Base.Results.{ok, ok_inj, and_then_parts}
use geo_hazard.Notifications.Deliveries.{picks, is_pending_of, fail_pending}
use geo_hazard.Notifications.Deliveries.Marks.{any-fail_pending, picks_quiet}
use geo_hazard.Notifications.Manage.{Registry, get, pause, resume}

module _ {I F G : Type 0} where
  any-pause :
      (id : ℕ) (r : Registry I F G) {r' : Registry I F G}
      → pause id r ≡ ok r'
      → any (is_pending_of id) r'.tables.deliveries ≡ false
  unfolding pause fail_pending
  any-pause id r h =
      let (s, x, e) = and_then_parts (get id r) _ h in
      ap (λ r. any (is_pending_of id) r.tables.deliveries) (sym (ok_inj e))
      ∙ any-fail_pending id r.tables.deliveries

  any-resume :
      (id : ℕ) (r : Registry I F G) {r' : Registry I F G}
      → resume id r ≡ ok r'
      → any (is_pending_of id) r'.tables.deliveries ≡ any (is_pending_of id) r.tables.deliveries
  unfolding resume
  any-resume id r h =
      let (s, x, e) = and_then_parts (get id r) _ h in
      ap (λ r. any (is_pending_of id) r.tables.deliveries) (sym (ok_inj e))

  -- After a pause of a subscription and a resume of it, no claim takes the subscription, at any
  -- time, while no delivery is added.
  pub picks-resume :
      (id : ℕ) (r : Registry I F G) (locked : ℕ → Bool) (later min_interval limit : ℕ)
      {r₁ r₂ : Registry I F G}
      → pause id r ≡ ok r₁
      → resume id r₁ ≡ ok r₂
      → All (λ s. (s.id == id) ≡ false) (picks locked later min_interval limit r₂.tables)
  picks-resume id r locked later min_interval limit {r₁ = r₁} h k =
      picks_quiet id _ locked later min_interval limit (any-resume id r₁ k ∙ any-pause id r h)
