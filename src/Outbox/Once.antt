-- ===== src/Outbox/Once.antt =====
-- `handler_state` makes each handler of an event run to success once, whatever the retries.
use geo_hazard.Base.{
  String, ◌≡◌, ◌≢◌, ◌↔◌, refl, ◌∙◌, Bool, true, false, List, [], ◌∷◌, arith, All, str_eq, eq_iff,
  if◌then◌else◌, All-map, All-const, leb, ◌+◌,
}
use geo_hazard.Outbox.Dispatch.{HandlerResult, Dispatcher, handlers_of, dispatch, all_succeeded}
use geo_hazard.Outbox.Entries.{
  after_completed, succeeded_iff, dispatch_all-keeps, DistinctNames, all_completed,
}
use geo_hazard.Outbox.{
  OutboxEvent, EventStatus, Readings, is_completed, record_results, handle_event, processed,
  pending, failed,
}

module _ {W P : Type 0} (d : Dispatcher W P) (at : Readings) (e : OutboxEvent P) (w : W) where
  abbrev pub results : List HandlerResult
  results = (dispatch d e.event_type e.payload (is_completed e.handler_state) w).0

  pub state-handle_event :
      (handle_event d at e w).0.handler_state
      ≡ record_results at.recorded_at results e.handler_state
  unfolding handle_event
  state-handle_event = ground arith

  pub status-handle_event : (handle_event d at e w).0.status ≡ (
      if all_succeeded results
      then processed
      else if leb e.max_retries (e.retry_count + 1)
      then failed
      else e.status)
  unfolding handle_event
  status-handle_event = ground arith

  pub payload-handle_event : (handle_event d at e w).0.payload ≡ e.payload
  unfolding handle_event
  payload-handle_event = ground arith

  pub type-handle_event : (handle_event d at e w).0.event_type ≡ e.event_type
  unfolding handle_event
  type-handle_event = ground arith

  pub world-handle_event :
      (handle_event d at e w).1
      ≡ (dispatch d e.event_type e.payload (is_completed e.handler_state) w).1
  unfolding handle_event
  world-handle_event = refl

processed_cases :
    {A : Type 0} (ok exhausted : Bool) {status : EventStatus}
    → (ok ≡ true) ↔ A
    → status ≡ pending
    → ((if ok then processed else if exhausted then failed else status) ≡ processed) ↔ A
processed_cases true exhausted h p = (λ _. h.0 refl, λ _. refl)
processed_cases false true h p = (λ e. cc, λ a. cc (h.1 a))
processed_cases false false h p = (λ e. cc, λ a. cc (h.1 a))

module _ {W P : Type 0} (d : Dispatcher W P) where
  -- A handler that is recorded as completed stays so through every later handling of its event.
  pub is_completed-handle_event :
      (at : Readings) (e : OutboxEvent P) (w : W) (name : String)
      → is_completed e.handler_state name ≡ true
      → is_completed (handle_event d at e w).0.handler_state name ≡ true
  unfolding dispatch
  is_completed-handle_event at e w name c = rw (state-handle_event d at e w) (
      after_completed (is_completed e.handler_state) e.payload at.recorded_at name
        (handlers_of d e.event_type) w e.handler_state c
      ∙ c)

  -- An event that was PENDING, of a type whose handlers have distinct names, is PROCESSED by a
  -- handling exactly when it has a handler and all of them are recorded as completed afterwards.
  pub processed_iff :
      (at : Readings) (e : OutboxEvent P) (w : W)
      → e.status ≡ pending
      → DistinctNames (handlers_of d e.event_type)
      → ((handle_event d at e w).0.status ≡ processed) ↔ (
          (handlers_of d e.event_type ≢ [])
          × (all_completed (handle_event d at e w).0.handler_state (handlers_of d e.event_type)
              ≡ true))
  unfolding dispatch
  processed_iff at e w p dn =
      rw (state-handle_event d at e w, status-handle_event d at e w)
        (processed_cases _ _
          (succeeded_iff (is_completed e.handler_state) e.payload at.recorded_at
            (handlers_of d e.event_type) w e.handler_state dn
            (All-const _ (handlers_of d e.event_type) (λ h c. c)))
          p)

  -- The handlings of one event in a row, each at its own readings.
  unfoldable pub handle_all : List Readings → OutboxEvent P → W → OutboxEvent P × W
  handle_all [] e w = (e, w)
  handle_all (at ∷ ats) e w = let (e', w') = handle_event d at e w in handle_all ats e' w'

  -- Once a handler is recorded as completed, no later handling of the event runs it again: what
  -- all the other handlers keep of the world is kept, whatever the completed one would do.
  pub completed_never_runs {ℓ} :
      (Q : W → Type ℓ) (name : String) (ats : List Readings) (e : OutboxEvent P) (w : W)
      → is_completed e.handler_state name ≡ true
      → All
          (λ h. str_eq h.name name ≡ false → (v : W) → Q v → Q (h.run e.payload v).1)
          (handlers_of d e.event_type)
      → Q w
      → Q (handle_all ats e w).1
  unfolding handle_all dispatch
  completed_never_runs Q name [] e w c k q = q
  completed_never_runs Q name (at ∷ ats) e w c k q =
      completed_never_runs Q name ats (handle_event d at e w).0 (handle_event d at e w).1
        (is_completed-handle_event at e w name c)
        (rw (payload-handle_event d at e w, type-handle_event d at e w) k)
        (rw (world-handle_event d at e w) (
          dispatch_all-keeps (is_completed e.handler_state) e.payload Q (handlers_of d e.event_type)
            w
            (All-map _ _ (handlers_of d e.event_type)
              (λ h keeps open_. keeps (ground (arith, eq_iff h.name name))) k)
            q))
