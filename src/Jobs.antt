-- ===== src/Jobs.antt =====
-- app/core/jobs/worker.py and app/core/jobs/models.py: the scheduled jobs, and the phases in which
-- a worker claims, runs and reschedules one. The clock is read by the caller and passed in; the
-- handlers are outside of the model and enter by their outcome, an error text or none.
pub mod Phases
pub mod Turns
pub mod Workers
pub mod Schedule
mod Tests
use geo_hazard.Base.{
  ℕ, ◌+◌, String, Bool, true, false, ◌&&◌, Option, none, some, List, [], ◌∷◌, map, ltb, leb, ◌==◌,
  str_eq, any, take, none_or, if◌then◌else◌, last_chars, ◌&◌, seconds,
}
use geo_hazard.Base.Query.{select_where, first_where, update_where, count_where, order_by}
use mathlib.Core.Option

pub data JobStatus : Type 0 where
  pending running : JobStatus

abbrev pub is_pending : JobStatus → Bool
is_pending pending = true
is_pending running = false

pub record ScheduledJob : Type 0 where
  pub id : ℕ
  pub job_name : String
  pub interval_seconds : ℕ
  pub status : JobStatus
  pub last_run_at : Option ℕ
  pub next_run_at : ℕ
  pub last_error : Option String
  pub run_count : ℕ
  pub claimed_by : Option String
  pub lease_until : Option ℕ
  pub updated_at : Option ℕ

abbrev pub JobTable : Type 0
JobTable = List ScheduledJob

abbrev pub batch_size : ℕ
batch_size = 10

abbrev pub has_id : ℕ → ScheduledJob → Bool
has_id job_id j = j.id == job_id

abbrev pub row : ℕ → JobTable → Option ScheduledJob
row job_id t = first_where (has_id job_id) t

-- RUNNING with no lease, or with a lease that has run out.
abbrev pub is_stale : ℕ → ScheduledJob → Bool
is_stale now j = elim (is_pending j.status) [
  | true ↦ false
  | false ↦ none_or (λ l. ltb l now) j.lease_until
]

abbrev pub released : ScheduledJob → ScheduledJob
released j = record j { status = pending; claimed_by = none; lease_until = none }

pub recover_stale_jobs : ℕ → JobTable → JobTable
recover_stale_jobs now t = update_where (is_stale now) released t

-- PENDING and due.
abbrev pub is_due : ℕ → ScheduledJob → Bool
is_due now j = is_pending j.status && leb j.next_run_at now

abbrev pub has_handler : List String → ScheduledJob → Bool
has_handler registered j = any (λ n. str_eq n j.job_name) registered

abbrev pub is_candidate : List String → ℕ → ScheduledJob → Bool
is_candidate registered now j = is_due now j && has_handler registered j

abbrev pub runs_before : ScheduledJob → ScheduledJob → Bool
runs_before a b = ltb a.next_run_at b.next_run_at

-- The SELECT of `_process_due_jobs`.
pub candidates : List String → ℕ → JobTable → JobTable
candidates registered now t =
    take batch_size (order_by runs_before (select_where (is_candidate registered now) t))

-- The three clock readings of the claim: for the lease, for the test and for `updated_at`.
pub record ClaimTimes : Type 0 where
  pub lease_from : ℕ
  pub due_at : ℕ
  pub updated : ℕ

abbrev pub is_claimable : ℕ → ℕ → ScheduledJob → Bool
is_claimable job_id now j = has_id job_id j && is_due now j

abbrev pub claimed : ℕ → String → ClaimTimes → ScheduledJob → ScheduledJob
claimed lease_seconds worker_id at j = record j {
  status = running;
  claimed_by = some worker_id;
  lease_until = some (at.lease_from + seconds lease_seconds);
  updated_at = some at.updated;
}

-- Phase 1 of `_execute_job`: the name and the interval of the row, or `none` if another worker
-- took it.
pub claim : ℕ → String → ClaimTimes → ℕ → JobTable → Option (String × ℕ) × JobTable
claim lease_seconds worker_id at job_id t = (
  Option.map (λ j. (j.job_name, j.interval_seconds))
      (first_where (is_claimable job_id at.due_at) t),
  update_where (is_claimable job_id at.due_at) (claimed lease_seconds worker_id at) t,
)

-- Phase 2: the outcome of the handler, or the error of a missing one.
pub run_handler : List String → (String → Option String) → String → Option String
run_handler registered outcome job_name =
    if any (λ n. str_eq n job_name) registered
    then outcome job_name
    else some ("No handler registered for job '" & job_name & "'")

-- `error[-500:] if error else None`
pub error_tail : Option String → Option String
error_tail none = none
error_tail (some e) = if str_eq e "" then none else some (last_chars 500 e)

abbrev pub is_held : String → ℕ → ScheduledJob → Bool
is_held worker_id job_id j =
    has_id job_id j && elim j.claimed_by [ none ↦ false | some w ↦ str_eq w worker_id ]

abbrev pub rescheduled : ℕ → Option String → ℕ → ScheduledJob → ScheduledJob
rescheduled interval_seconds error now j = record j {
  status = pending;
  claimed_by = none;
  lease_until = none;
  next_run_at = now + seconds interval_seconds;
  last_run_at = some now;
  run_count = j.run_count + 1;
  last_error = error_tail error;
  updated_at = some now;
}

-- Phase 3, with the number of rows that it wrote: none if the lease went to another worker.
pub reschedule : String → ℕ → ℕ → Option String → ℕ → JobTable → ℕ × JobTable
reschedule worker_id job_id interval_seconds error now t = (
  count_where (is_held worker_id job_id) t,
  update_where (is_held worker_id job_id) (rescheduled interval_seconds error now) t,
)

-- A process of the API: its name, its lease, the handlers that it knows and what they return.
pub record JobWorker : Type 0 where
  pub worker_id : String
  pub lease_seconds : ℕ
  pub registered : List String
  pub outcome : String → Option String

-- What phases 2 and 3 do with a claim.
finish_job : JobWorker → ℕ → ℕ → Option (String × ℕ) → JobTable → JobTable
finish_job w job_id done_at none t = t
finish_job w job_id done_at (some (job_name, interval_seconds)) t =
    (reschedule w.worker_id job_id interval_seconds (run_handler w.registered w.outcome job_name)
      done_at t).1

-- `_execute_job`, with nobody else between its phases.
pub execute_job : JobWorker → ClaimTimes → ℕ → ℕ → JobTable → JobTable
unfolding finish_job
execute_job w at done_at job_id t =
    let (row, t') = claim w.lease_seconds w.worker_id at job_id t in
    finish_job w job_id done_at row t'

-- The loop of `_process_due_jobs`; `at i` are the clock readings of its i-th job.
execute_all : JobWorker → (ℕ → ClaimTimes × ℕ) → ℕ → List ℕ → JobTable → JobTable
execute_all w at i [] t = t
execute_all w at i (job_id ∷ ids) t =
    execute_all w at (i + 1) ids (execute_job w (at i).0 (at i).1 job_id t)

pub process_due_jobs : JobWorker → ℕ → (ℕ → ClaimTimes × ℕ) → JobTable → JobTable
unfolding execute_all candidates
process_due_jobs w now at t = execute_all w at 0 (map (λ j. j.id) (candidates w.registered now t)) t
