-- ===== src/Outbox.antt =====
-- app/core/events: the transactional outbox. `Dispatch` has the dispatcher, this file the worker
-- that takes one event at a time and records what its handlers did.
-- The clock, the jitter of the backoff and the rows that other workers hold locked are arguments.
pub mod Dispatch
pub mod Entries
pub mod Once
pub mod Retries
pub mod Batch
mod Tests
use geo_hazard.Base.{
  ℕ, zero, suc, ◌+◌, ◌*◌, ◌^◌, ◌<◌, min, max, String, Bool, true, false, not, ◌&&◌, Option, none,
  some, List, [], ◌∷◌, ltb, leb, ◌==◌, str_eq, if◌then◌else◌, first_chars, seconds,
}
use geo_hazard.Base.Query.{select_where, update_where, order_by, limit_one}
use geo_hazard.Base.Dict.{Dict, lookup, insert}
use geo_hazard.Outbox.Dispatch.{HandlerResult, Dispatcher, dispatch, all_succeeded, errors_summary}
use mathlib.Core.Option

pub data EventStatus : Type 0 where
  pending processed failed : EventStatus

abbrev pub is_pending : EventStatus → Bool
is_pending pending = true
is_pending processed = false
is_pending failed = false

-- An entry of `handler_state`.
pub record HandlerInfo : Type 0 where
  pub ok : Bool
  pub at : ℕ
  pub error : Option String

module _ (P : Type 0) where
  pub record OutboxEvent : Type 0 where
    pub id : ℕ
    pub event_type : String
    pub payload : P
    pub status : EventStatus
    pub retry_count : ℕ
    pub max_retries : ℕ
    pub scheduled_at : ℕ
    pub last_error : Option String
    pub processed_at : Option ℕ
    pub handler_state : Dict HandlerInfo

abbrev pub batch_size : ℕ
batch_size = 50

-- MAX_BACKOFF_HOURS, in hours, and MAX_ERROR_BACKOFF_SECONDS.
abbrev pub max_backoff_hours : ℕ
max_backoff_hours = 1

abbrev pub max_error_backoff_seconds : ℕ
max_error_backoff_seconds = 60

-- Membership in the set of names whose last entry is "ok".
unfoldable pub is_completed : Dict HandlerInfo → String → Bool
is_completed state name = elim (lookup name state) [ none ↦ false | some info ↦ info.ok ]

unfoldable pub record_results : ℕ → List HandlerResult → Dict HandlerInfo → Dict HandlerInfo
record_results now [] state = state
record_results now (r ∷ rs) state = record_results now rs (
    if r.skipped
    then state
    else insert r.handler_name
        (record { ok = r.success; at = now; error = Option.map (first_chars 500) r.error }) state)

-- min(2**retry_count + random.uniform(0, 5), MAX_BACKOFF_HOURS * 3600), with the jitter in
-- microseconds.
pub backoff : ℕ → ℕ → ℕ
backoff retry_count jitter =
    min (seconds (2 ^ retry_count) + jitter) (seconds (max_backoff_hours * 3600))

-- The readings of the clock and of the random numbers while an event is handled.
pub record Readings : Type 0 where
  pub recorded_at : ℕ
  pub done_at : ℕ
  pub retry_from : ℕ
  pub jitter : ℕ

module _ {P : Type 0} where
  abbrev pub scheduled_before : OutboxEvent P → OutboxEvent P → Bool
  scheduled_before a b = ltb a.scheduled_at b.scheduled_at

  -- PENDING, due, and not locked by another worker.
  abbrev pub is_ready : (ℕ → Bool) → ℕ → OutboxEvent P → Bool
  is_ready locked now e = is_pending e.status && leb e.scheduled_at now && not (locked e.id)

  unfoldable pub next_event : (ℕ → Bool) → ℕ → List (OutboxEvent P) → Option (OutboxEvent P)
  next_event locked now t =
      limit_one (order_by scheduled_before (select_where (is_ready locked now) t))

  abbrev pub store_event : OutboxEvent P → List (OutboxEvent P) → List (OutboxEvent P)
  store_event e t = update_where (λ r. r.id == e.id) (λ _. e) t

  after_success : Readings → OutboxEvent P → OutboxEvent P
  after_success at e = record e { status = processed; processed_at = some at.done_at }

  after_failure : Readings → List HandlerResult → OutboxEvent P → OutboxEvent P
  after_failure at results e =
      let retried = record e {
        retry_count = e.retry_count + 1;
        last_error = some (errors_summary results);
      } in
      if leb e.max_retries (e.retry_count + 1)
      then record retried { status = failed }
      else record retried { scheduled_at = at.retry_from + backoff (e.retry_count + 1) at.jitter }

module _ {W P : Type 0} where
  -- `_handle_event`: the event that is written back, and the world after its handlers.
  unfoldable pub handle_event : Dispatcher W P → Readings → OutboxEvent P → W → OutboxEvent P × W
  unfolding after_success after_failure
  handle_event d at e w =
      let (results, w') = dispatch d e.event_type e.payload (is_completed e.handler_state) w in
      let recorded = record e {
        handler_state = record_results at.recorded_at results e.handler_state;
      } in
      (
        if all_succeeded results
            then after_success at recorded
            else after_failure at results recorded,
        w',
      )

  -- One round of the loop: `none` if no event is ready.
  pub process_next :
      Dispatcher W P
      → (ℕ → Bool)
      → ℕ
      → Readings
      → List (OutboxEvent P) × W
      → Option (List (OutboxEvent P) × W)
  process_next d locked now at (t, w) =
      Option.map (λ e. let (e', w') = handle_event d at e w in (store_event e' t, w'))
        (next_event locked now t)

  -- `_process_batch`; `at n` are the readings of the query and of the handling, and `locked n` the
  -- rows that are locked, in the round that leaves n rounds.
  process_from :
      Dispatcher W P
      → (ℕ → ℕ → Bool)
      → (ℕ → ℕ × Readings)
      → ℕ
      → List (OutboxEvent P) × W
      → List (OutboxEvent P) × W
  process_from d locked at zero s = s
  process_from d locked at (suc n) s = elim (process_next d (locked n) (at n).0 (at n).1 s) [
    | none ↦ s
    | some s' ↦ process_from d locked at n s'
  ]

  pub process_batch :
      Dispatcher W P
      → (ℕ → ℕ → Bool)
      → (ℕ → ℕ × Readings)
      → List (OutboxEvent P) × W
      → List (OutboxEvent P) × W
  unfolding process_from
  process_batch d locked at s = process_from d locked at batch_size s

-- One tick of `_run`: the count of errors in a row and the delay before the next tick, from the
-- poll interval and from whether the batch raised.
pub next_tick : ℕ → Bool → ℕ → ℕ × ℕ
next_tick poll raised consecutive_errors =
    if raised
    then (
      consecutive_errors + 1,
      max poll (min (seconds (2 ^ (consecutive_errors + 1))) (seconds max_error_backoff_seconds)),
    )
    else (0, poll)
