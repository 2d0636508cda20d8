-- ===== src/Sync/Jobs/Failures.antt =====
-- Runs whose source fails: the data stays, and the source is reported as degraded.
use geo_hazard.Base.{
  ℕ, ◌≤◌, String, ◌≡◌, refl, sym, ap, ◌∙◌, Bool, true, false, Option, List, [], ◌∷◌, map, length,
  length-map, arith, All, true_ne_false,
}
use geo_hazard.Hazards.Model.{Source}
use geo_hazard.Sources.{healthy, state_of}
use geo_hazard.Sources.Health.{record_failures, healthy-record_failures}
use geo_hazard.Sync.{Readings, World, source_name}
use geo_hazard.Sync.Jobs.{Answer, answered, transient_error, protocol_error, bookkeep, sync_job}

module _ {R : Type 0} where
  abbrev pub is_error : Answer R → Bool
  is_error (answered r) = false
  is_error _ = true

  abbrev failure_text : Answer R → String
  failure_text (answered r) = ""
  failure_text (transient_error e) = e
  failure_text (protocol_error e) = e

  abbrev errors : List (Readings × Answer R) → List (String × ℕ)
  errors runs = map (λ r. (failure_text r.1, r.0.clock)) runs

module _ {G F R N : Type 0} (source : Source)
    (execute : Readings → R → World G F → Option (N × World G F)) where
  -- One run of the job after the other.
  unfoldable pub run_jobs : List (Readings × Answer R) → World G F → World G F
  run_jobs [] w = w
  run_jobs ((at, a) ∷ runs) w = run_jobs runs (sync_job source (execute at) at a w).1

  failing_run :
      (at : Readings) (a : Answer R) (w : World G F)
      → is_error a ≡ true
      → (sync_job source (execute at) at a w).1 ≡ bookkeep source at (failure_text a) w
  unfolding sync_job
  failing_run at (answered r) w h = absurd (true_ne_false (sym h))
  failing_run at (transient_error e) w h = refl
  failing_run at (protocol_error e) w h = refl

  -- Runs that fail do no more than to record their failures.
  run_jobs-failures :
      (runs : List (Readings × Answer R)) (w : World G F)
      → All (λ r. is_error r.1 ≡ true) runs
      → run_jobs runs w
        ≡ record w { states = record_failures [] (source_name source) (errors runs) w.states }
  unfolding run_jobs record_failures bookkeep
  run_jobs-failures [] w h = refl
  run_jobs-failures ((at, a) ∷ runs) w h =
      ap (run_jobs runs) (failing_run at a w h.0)
      ∙ run_jobs-failures runs (bookkeep source at (failure_text a) w) h.1

  -- After as many runs of a job as the limit, or more, whose source all fails, transiently or not,
  -- the events and the outbox are what they were, and the source is reported as degraded, at any
  -- time and however recent its last success.
  pub run_jobs-degraded :
      (runs : List (Readings × Answer R)) (w : World G F) (now factor max_failures : ℕ)
      (interval : Option ℕ)
      → All (λ r. is_error r.1 ≡ true) runs
      → max_failures ≤ length runs
      → ((run_jobs runs w).events ≡ w.events)
        × ((run_jobs runs w).outbox ≡ w.outbox)
        × (healthy now factor max_failures interval
              (state_of (source_name source) (run_jobs runs w).states)
            ≡ false)
  run_jobs-degraded runs w now factor max_failures interval h le =
      let end = run_jobs-failures runs w h in
      (
        ap (λ v. v.events) end,
        ap (λ v. v.outbox) end,
        ap (λ v. healthy now factor max_failures interval (state_of (source_name source) v.states))
              end
            ∙ healthy-record_failures [] (source_name source) (errors runs) now factor max_failures
                interval w.states
                (omega
                  (arith, length-map {B = String × ℕ} (λ r. (failure_text r.1, r.0.clock)) runs)),
      )
