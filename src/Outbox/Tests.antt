-- ===== src/Outbox/Tests.antt =====
-- The theorems on the outbox at an event with two handlers, of which the first one succeeds and
-- writes its name to the world and the second one fails.
use geo_hazard.Base.{
  ℕ, String, ◌≡◌, ◌≢◌, ◌↔◌, refl, true, false, none, some, List, [], ◌∷◌, ◌++◌, arith,
}
use geo_hazard.Base.Dict.{lookup, insert}
use geo_hazard.Outbox.Dispatch.{Handler, Dispatcher, handlers_of, register, dispatch, all_succeeded}
use geo_hazard.Outbox.{
  OutboxEvent, pending, processed, Readings, is_pending, is_completed, record_results, handle_event,
}
use geo_hazard.Outbox.Entries.{DistinctNames, all_completed}
use geo_hazard.Outbox.Once.{processed_iff, handle_all, completed_never_runs}
use geo_hazard.Outbox.Retries.{retry, retry_ends}

abbrev Log : Type 0
Log = List String

abbrev export : Handler Log ℕ
export = record { name = "export_geoparquet"; run = λ p w. (none, w ++ "exported" ∷ []) }

abbrev matching : Handler Log ℕ
matching = record { name = "match_notifications"; run = λ p w. (some "timeout", w) }

abbrev handlers : Dispatcher Log ℕ
handlers = ("hazards.batch_ingested", export ∷ matching ∷ []) ∷ []

abbrev event : OutboxEvent ℕ
event = record {
  id = 1;
  event_type = "hazards.batch_ingested";
  payload = 7;
  status = pending;
  retry_count = 0;
  max_retries = 2;
  scheduled_at = 100;
  last_error = none;
  processed_at = none;
  handler_state = [];
}

abbrev readings : Readings
readings = record { recorded_at = 200; done_at = 201; retry_from = 202; jitter = 3 }

abbrev exported : OutboxEvent ℕ
exported = record event {
  handler_state = ("export_geoparquet", record { ok = true; at = 90; error = none }) ∷ [];
}

registered :
    register "hazards.batch_ingested" matching (register "hazards.batch_ingested" export [])
    ≡ handlers
unfolding register lookup insert
registered = refl

-- The first handling runs both handlers, the second one only the one that failed.
retried : (handle_all handlers (readings ∷ readings ∷ []) event []).1 ≡ "exported" ∷ []
unfolding handle_all handle_event dispatch is_completed record_results lookup insert all_succeeded
retried = refl

names : DistinctNames (handlers_of handlers "hazards.batch_ingested")
unfolding lookup
names = ((refl, tt), (tt, tt))

processed_iff_example : ((handle_event handlers readings event []).0.status ≡ processed) ↔ (
    (handlers_of handlers "hazards.batch_ingested" ≢ [])
    × (all_completed
          (handle_event handlers readings event []).0.handler_state
          (handlers_of handlers "hazards.batch_ingested")
        ≡ true))
processed_iff_example = processed_iff handlers readings event [] refl names

completed_never_runs_example : (handle_all handlers (readings ∷ readings ∷ []) exported []).1 ≡ []
unfolding is_completed lookup
completed_never_runs_example =
    completed_never_runs handlers (λ w. w ≡ []) "export_geoparquet" (readings ∷ readings ∷ [])
      exported [] refl (λ e v q. cc, (λ e v q. q, tt)) refl

retry_ends_example :
    is_pending (retry handlers (readings ∷ readings ∷ []) event []).0.status ≡ false
retry_ends_example =
    retry_ends handlers (readings ∷ readings ∷ []) event [] (omega arith) (omega arith)

later : OutboxEvent ℕ
later = record event { id = 2; scheduled_at = 150 }
