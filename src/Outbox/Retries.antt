-- ===== src/Outbox/Retries.antt =====
-- Retries end: the count, the backoff and the end of an event that keeps failing.
use geo_hazard.Base.{
  ℕ, ◌+◌, ◌≤◌, ◌<◌, max, ◌≡◌, ◌⊎◌, refl, Bool, true, false, some, List, [], ◌∷◌, arith, length, leb,
  seconds, if◌then◌else◌, Bool-cases, inl, inr,
}
use geo_hazard.Outbox.Dispatch.{Dispatcher, all_succeeded, errors_summary, HandlerResult}
use geo_hazard.Outbox.{
  failed, is_pending, OutboxEvent, Readings, backoff, handle_event, after_failure, record_results,
  next_tick, max_error_backoff_seconds,
}
use geo_hazard.Outbox.Once.{results}

backoff-le : (n jitter : ℕ) → backoff n jitter ≤ seconds 3600
unfolding backoff
backoff-le n jitter = omega arith

module _ {P : Type 0} (at : Readings) (rs : List HandlerResult) (e : OutboxEvent P) where
  abbrev pub Failure : OutboxEvent P → Type 0
  Failure e' =
      (e'.retry_count ≡ e.retry_count + 1)
      × (e'.last_error ≡ some (errors_summary rs))
      × (((e.max_retries ≤ e.retry_count + 1)
            × (e'.status ≡ failed)
            × (e'.scheduled_at ≡ e.scheduled_at))
          ⊎ ((e.retry_count + 1 < e.max_retries)
              × (e'.status ≡ e.status)
              × (e'.scheduled_at ≡ at.retry_from + backoff (e.retry_count + 1) at.jitter)
              × (e'.scheduled_at ≤ at.retry_from + seconds 3600)))

  after_failure-Failure : Failure (after_failure at rs e)
  unfolding after_failure
  after_failure-Failure = elim (Bool-cases (leb e.max_retries (e.retry_count + 1))) [
    | inl x ↦ rw x (refl, refl, inl (ground arith, refl, refl))
    | inr x ↦ rw x (
      refl,
      refl,
      inr (ground arith, refl, refl, omega (arith, backoff-le (e.retry_count + 1) at.jitter)),
    )
  ]

module _ {W P : Type 0} (d : Dispatcher W P) where
  -- A failed handling, on both its branches: the count goes up by one and the errors are kept;
  -- the event is FAILED with its schedule unchanged if that exhausts the retries, and otherwise
  -- keeps its status and is due again after the backoff, which is an hour at most.
  pub handle_event-Failure :
      (at : Readings) (e : OutboxEvent P) (w : W)
      → all_succeeded (results d at e w) ≡ false
      → Failure at (results d at e w) e (handle_event d at e w).0
  unfolding handle_event
  handle_event-Failure at e w h = rw h (
      after_failure-Failure at (results d at e w) (record e {
        handler_state = record_results at.recorded_at (results d at e w) e.handler_state;
      }))

  -- The handlings of an event while it is PENDING.
  pub retry : List Readings → OutboxEvent P → W → OutboxEvent P × W
  retry [] e w = (e, w)
  retry (at ∷ ats) e w = elim (is_pending e.status) [
    | true ↦ let (e', w') = handle_event d at e w in retry ats e' w'
    | false ↦ (e, w)
  ]

  retry_stopped :
      (ats : List Readings) (e : OutboxEvent P) (w : W)
      → is_pending e.status ≡ false
      → retry ats e w ≡ (e, w)
  unfolding retry
  retry_stopped [] e w h = refl
  retry_stopped (at ∷ ats) e w h = rw (h, retry)

  max-handle_event :
      (at : Readings) (e : OutboxEvent P) (w : W)
      → (handle_event d at e w).0.max_retries ≡ e.max_retries
  unfolding handle_event
  max-handle_event at e w = ground arith

  -- PENDING after a handling is a failure that left a retry.
  pending_again :
      (at : Readings) (e : OutboxEvent P) (w : W)
      → is_pending (handle_event d at e w).0.status ≡ true
      → ((handle_event d at e w).0.retry_count ≡ e.retry_count + 1)
        × (e.retry_count + 1 < e.max_retries)
  unfolding handle_event
  pending_again at e w h = ground arith

  -- An event is handled `max_retries - retry_count` times at most, whatever its handlers do: after
  -- so many readings it is PROCESSED or FAILED.
  pub retry_ends :
      (ats : List Readings) (e : OutboxEvent P) (w : W)
      → e.retry_count < e.max_retries
      → e.max_retries ≤ e.retry_count + length ats
      → is_pending (retry ats e w).0.status ≡ false
  unfolding retry
  retry_ends [] e w h k = absurd (omega arith)
  retry_ends (at ∷ ats) e w h k = elim (Bool-cases (is_pending e.status)) [
    | inr x ↦ rw (x, retry) x
    | inl x ↦
        rw (x, retry)
          (elim (Bool-cases (is_pending (handle_event d at e w).0.status)) [
            | inr y ↦ rw (retry_stopped ats (handle_event d at e w).0 (handle_event d at e w).1 y) y
            | inl y ↦
                let (counted, room) = pending_again at e w y in
                retry_ends ats (handle_event d at e w).0 (handle_event d at e w).1
                  (omega (arith, max-handle_event at e w)) (omega (arith, max-handle_event at e w))
          ])
  ]

-- The delay between two ticks is the poll interval after a batch that went well. After an error
-- it is no shorter, and never longer than the longer of the poll interval and a minute; the count
-- of errors in a row starts again after a success.
pub next_tick_bounds :
    (poll : ℕ) (raised : Bool) (errors : ℕ)
    → (poll ≤ (next_tick poll raised errors).1)
      × ((next_tick poll raised errors).1 ≤ max poll (seconds max_error_backoff_seconds))
      × ((next_tick poll raised errors).0 ≡ (if raised then errors + 1 else 0))
unfolding next_tick
next_tick_bounds poll true errors = (omega arith, omega arith, refl)
next_tick_bounds poll false errors = (omega arith, omega arith, refl)
