-- ===== src/Sources/Health.antt =====
-- What a success and what failures do to the health of a source.
use mathlib.Core.Option
use geo_hazard.Base.{
  ℕ, ◌+◌, ◌*◌, ◌≤◌, String, ◌≡◌, refl, ap, ◌∙◌, Bool, true, false, not, ◌&&◌, Option, none, some,
  List, [], ◌∷◌, ◌++◌, arith, ltb, is_none, or_default, if◌then◌else◌, seconds, length,
}
use text.Mathlib.TextPositions.{eq_refl}
use geo_hazard.Base.Query.{update_where}
use geo_hazard.Base.Query.Rows.{first_where-update_where, first_where-snoc, first_where_found}
use geo_hazard.Sources.{
  SourceSyncState, is_of, state_of, upsert_state, success_row, record_success, failure_row,
  record_failure, failures_of, stale, healthy,
}

too_many : (b : Bool) (n max_failures : ℕ) → max_failures ≤ n → (b && ltb n max_failures) ≡ false
too_many true n max_failures h = ground (arith, h)
too_many false n max_failures h = refl

module _ {C : Type 0} where
  upserted :
      SourceSyncState C
      → (SourceSyncState C → SourceSyncState C)
      → Option (SourceSyncState C)
      → SourceSyncState C
  upserted row change none = row
  upserted row change (some s) = change s

  upsert_state_from :
      (row : SourceSyncState C) (change : SourceSyncState C → SourceSyncState C)
      (t : List (SourceSyncState C)) (o : Option (SourceSyncState C))
      → ((s : SourceSyncState C) → is_of row.source (change s) ≡ is_of row.source s)
      → state_of row.source t ≡ o
      → state_of row.source
          (if is_none o then t ++ row ∷ [] else update_where (is_of row.source) change t)
        ≡ some (upserted row change o)
  unfolding upserted
  upsert_state_from row change t none k h =
      first_where-snoc (is_of row.source) t row ∙ rw (h, eq_refl row.source) refl
  upsert_state_from row change t (some s) k h =
      first_where-update_where (is_of row.source) (is_of row.source) change t k
      ∙ rw (h, first_where_found (is_of row.source) t h) refl

  state_of-upsert_state :
      (row : SourceSyncState C) (change : SourceSyncState C → SourceSyncState C)
      (t : List (SourceSyncState C)) (o : Option (SourceSyncState C))
      → ((s : SourceSyncState C) → is_of row.source (change s) ≡ is_of row.source s)
      → state_of row.source t ≡ o
      → state_of row.source (upsert_state row change t) ≡ some (upserted row change o)
  state_of-upsert_state row change t o k h =
      upsert_state_from row change t (state_of row.source t) k refl
      ∙ ap (λ o. some (upserted row change o)) h

  -- The state of a source after its success.
  success-state :
      (empty : C) (source : String) (cursor : Option C) (now : ℕ) (t : List (SourceSyncState C))
      (o : Option (SourceSyncState C))
      → state_of source t ≡ o
      → (s : SourceSyncState C) × (state_of source (record_success empty source cursor now t)
          ≡ some s)
        × (s.last_success_at ≡ some now)
        × (s.consecutive_failures ≡ 0)
  unfolding record_success upserted
  success-state empty source cursor now t none h = (
    _,
    state_of-upsert_state (success_row empty source cursor now) _ t none (λ s. refl) h,
    refl,
    refl,
  )
  success-state empty source cursor now t (some s) h = (
    _,
    state_of-upsert_state (success_row empty source cursor now) _ t (some s) (λ s. refl) h,
    refl,
    refl,
  )

  cursor-state :
      (empty : C) (source : String) (cursor : C) (now : ℕ) (t : List (SourceSyncState C))
      (o : Option (SourceSyncState C))
      → state_of source t ≡ o
      → (s : SourceSyncState C) × (state_of source (record_success empty source (some cursor) now t)
          ≡ some s)
        × (s.cursor ≡ cursor)
  unfolding record_success upserted
  cursor-state empty source cursor now t none h = (
    _,
    state_of-upsert_state (success_row empty source (some cursor) now) _ t none (λ s. refl) h,
    refl,
  )
  cursor-state empty source cursor now t (some s) h = (
    _,
    state_of-upsert_state (success_row empty source (some cursor) now) _ t (some s) (λ s. refl) h,
    refl,
  )

  -- The cursor of a source after a success that gives one is that one.
  pub cursor-record_success :
      (empty : C) (source : String) (cursor : C) (now : ℕ) (t : List (SourceSyncState C))
      → Option.map
          (λ s. s.cursor)
          (state_of source (record_success empty source (some cursor) now t))
        ≡ some cursor
  cursor-record_success empty source cursor now t =
      let (s, at, e) = cursor-state empty source cursor now t (state_of source t) refl in
      ap (Option.map (λ s. s.cursor)) at ∙ ap some e

  healthy-state :
      (now later factor max_failures : ℕ) (interval : Option ℕ) (s : SourceSyncState C)
      → later ≤ now + seconds (factor * or_default interval 0)
      → 1 ≤ max_failures
      → s.last_success_at ≡ some now
      → s.consecutive_failures ≡ 0
      → healthy later factor max_failures interval (some s) ≡ true
  healthy-state now later factor max_failures none s h k at failures =
      rw failures (ground (arith, k))
  healthy-state now later factor max_failures (some i) s h k at failures =
      rw (at, failures) (ground (arith, h, k))

  -- A source is healthy after a success, for as long as the factor and its interval allow, where
  -- one failure at least is allowed.
  pub healthy-record_success :
      (empty : C) (source : String) (cursor : Option C) (now later factor max_failures : ℕ)
      (interval : Option ℕ) (t : List (SourceSyncState C))
      → later ≤ now + seconds (factor * or_default interval 0)
      → 1 ≤ max_failures
      → healthy later factor max_failures interval
          (state_of source (record_success empty source cursor now t))
        ≡ true
  healthy-record_success empty source cursor now later factor max_failures interval t h k =
      let (s, at, last, failures) =
        success-state empty source cursor now t (state_of source t) refl in
      ap (healthy later factor max_failures interval) at
      ∙ healthy-state now later factor max_failures interval s h k last failures

  -- So many failures, with their texts and their times.
  unfoldable pub record_failures :
      C → String → List (String × ℕ) → List (SourceSyncState C) → List (SourceSyncState C)
  record_failures empty source [] t = t
  record_failures empty source ((error, now) ∷ es) t =
      record_failures empty source es (record_failure empty source error now t)

  failure-state :
      (empty : C) (source error : String) (now : ℕ) (t : List (SourceSyncState C))
      (o : Option (SourceSyncState C))
      → state_of source t ≡ o
      → failures_of (state_of source (record_failure empty source error now t)) ≡ failures_of o + 1
  unfolding record_failure upserted
  failure-state empty source error now t none h =
      ap failures_of
        (state_of-upsert_state (failure_row empty source error now) _ t none (λ s. refl) h)
  failure-state empty source error now t (some s) h =
      ap failures_of
        (state_of-upsert_state (failure_row empty source error now) _ t (some s) (λ s. refl) h)

  failures-record_failures :
      (empty : C) (source : String) (es : List (String × ℕ)) (t : List (SourceSyncState C))
      → failures_of (state_of source (record_failures empty source es t))
        ≡ failures_of (state_of source t) + length es
  unfolding record_failures
  failures-record_failures empty source [] t = omega arith
  failures-record_failures empty source ((error, now) ∷ es) t = omega (
    arith,
    failures-record_failures empty source es (record_failure empty source error now t),
    failure-state empty source error now t (state_of source t) refl,
  )

  -- A source is degraded after as many failures in a row as are allowed, or more, however recent
  -- its last success.
  pub healthy-record_failures :
      (empty : C) (source : String) (es : List (String × ℕ)) (now factor max_failures : ℕ)
      (interval : Option ℕ) (t : List (SourceSyncState C))
      → max_failures ≤ length es
      → healthy now factor max_failures interval
          (state_of source (record_failures empty source es t))
        ≡ false
  healthy-record_failures empty source es now factor max_failures interval t h =
      too_many
        (not (stale now factor interval (state_of source (record_failures empty source es t)))) _
        max_failures (omega (arith, failures-record_failures empty source es t))
