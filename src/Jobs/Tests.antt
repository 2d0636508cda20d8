-- ===== src/Jobs/Tests.antt =====
-- The theorems on jobs at a table of two jobs, and runs of the functions on it.
use geo_hazard.Base.{◌+◌, ℕ, ◌≤◌, String, ◌≡◌, refl, none, some, List, [], ◌∷◌, arith, seconds}
use geo_hazard.Base.Query.{first_where, update_where, count_where}
use geo_hazard.Jobs.{
  ScheduledJob, pending, running, JobTable, JobWorker, ClaimTimes, row, has_id, released,
  recover_stale_jobs, claim, reschedule, run_handler, execute_job, error_tail,
}
use geo_hazard.Jobs.Turns.{claim_turn, reschedule_turn, Turn, after_turns, claim-after_turns}
use geo_hazard.Jobs.Phases.{row-execute_job, reschedule_lost}
use geo_hazard.Jobs.Workers.{System, Reach, here, next, start, started, at_once}
use geo_hazard.Jobs.Workers.Exclusion.{exclusive, keeps_lease}

abbrev due_job : ScheduledJob
due_job = record {
  id = 1;
  job_name = "effis_sync";
  interval_seconds = 14400;
  status = pending;
  last_run_at = none;
  next_run_at = 500;
  last_error = none;
  run_count = 3;
  claimed_by = none;
  lease_until = none;
  updated_at = none;
}

-- Left RUNNING by a worker that died.
abbrev zombie : ScheduledJob
zombie = record due_job {
  id = 2;
  job_name = "ign_sync";
  status = running;
  claimed_by = some "a:7";
  lease_until = some 900;
}

abbrev table : JobTable
table = due_job ∷ zombie ∷ []

abbrev worker : JobWorker
worker = record {
  worker_id = "b:8";
  lease_seconds = 120;
  registered = "effis_sync" ∷ "ign_sync" ∷ [];
  outcome = λ name. some "timeout";
}

abbrev now : ClaimTimes
now = at_once 1000

keyed : (id : ℕ) → count_where (has_id id) table ≤ 1
unfolding count_where
keyed id = ground arith

recover_table : recover_stale_jobs 1000 table ≡ due_job ∷ released zombie ∷ []
unfolding recover_stale_jobs update_where
recover_table = refl

-- Another worker tries the job, takes the other one when that is due and ends its run.
abbrev turns : List Turn
turns =
    claim_turn 120 "a:7" (at_once 1010) 1
    ∷ claim_turn 120 "a:7" (at_once 1010) 2
    ∷ reschedule_turn "a:7" 2 300 none 1020
    ∷ []

claim-after_turns_example :
    (claim 120 "a:7" now 1 (after_turns turns (claim 120 "b:8" now 1 table).1)).0 ≡ none
unfolding claim first_where
claim-after_turns_example =
    claim-after_turns 120 120 "b:8" "a:7" now now 1 turns table (keyed 1) (λ e. cc)
      (tt, (tt, (refl, tt)))

row-execute_job_example :
    row 1 (execute_job worker now 2000 1 table)
    ≡ some (record due_job {
      status = pending;
      claimed_by = none;
      lease_until = none;
      next_run_at = 2000 + seconds 14400;
      last_run_at = some 2000;
      run_count = 4;
      last_error = error_tail (run_handler worker.registered worker.outcome "effis_sync");
      updated_at = some 2000;
    })
unfolding first_where
row-execute_job_example = row-execute_job worker now 2000 1 table due_job refl refl

reschedule_lost_example : (reschedule "b:8" 2 60 none 2000 table).1 ≡ table
unfolding reschedule count_where
reschedule_lost_example = reschedule_lost "b:8" 2 60 none 2000 table refl

abbrev idle : System
idle = record { clock = 1000; table = table; executions = [] }

abbrev busy : System
busy = started "b:8" 1 "effis_sync" 14400 120 idle

Reach-busy : Reach 120 (seconds 110) idle busy
unfolding claim first_where
Reach-busy = next here (start "b:8" 1 "effis_sync" 14400 refl refl refl)

exclusive_example : ◌≡◌ {A = String} "b:8" "b:8"
unfolding first_where
exclusive_example =
    exclusive 120 (seconds 110) {s = idle} {t = busy} (omega arith) refl keyed Reach-busy refl refl
      refl

keeps_lease_example : (reschedule "b:8" 1 14400 (some "timeout") 1000 busy.table).0 ≡ 1
unfolding first_where
keeps_lease_example =
    keeps_lease 120 (seconds 110) "b:8" {s = idle} {t = busy} (some "timeout") (omega arith) refl
      keyed Reach-busy refl
