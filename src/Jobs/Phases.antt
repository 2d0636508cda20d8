-- ===== src/Jobs/Phases.antt =====
-- What each phase of a job does to its row and to the others.
use mathlib.Core.Option
use geo_hazard.Base.{◌+◌, seconds}
use geo_hazard.Base.{
  ℕ, ◌≤◌, String, ◌≡◌, refl, true, Option, none, some, [], ◌∷◌, arith, eq_iff, if◌then◌else◌,
}
use geo_hazard.Base.Query.{first_where, update_where, count_where}
use geo_hazard.Base.Query.Rows.{
  first_where-update_where, count_where-update_where, update_where_none,
}
use geo_hazard.Jobs.{
  ScheduledJob, JobTable, JobWorker, ClaimTimes, has_id, row, is_stale, is_due, is_held,
  is_claimable, released, claimed, rescheduled, recover_stale_jobs, claim, reschedule, run_handler,
  execute_job, error_tail, pending,
}

-- A row after the recovery: released if it was RUNNING with no lease or an expired one, and
-- otherwise as it was.
pub row-recover_stale_jobs :
    (now job_id : ℕ) (t : JobTable)
    → row job_id (recover_stale_jobs now t)
      ≡ Option.map (λ j. if is_stale now j then released j else j) (row job_id t)
unfolding recover_stale_jobs
row-recover_stale_jobs now job_id t =
    first_where-update_where (has_id job_id) (is_stale now) released t (λ a. refl)

-- A row after a claim of `job_id`.
pub row-claim :
    (lease : ℕ) (w : String) (at : ClaimTimes) (job_id other : ℕ) (t : JobTable)
    → row other (claim lease w at job_id t).1
      ≡ Option.map
          (λ j. if is_claimable job_id at.due_at j then claimed lease w at j else j)
          (row other t)
unfolding claim
row-claim lease w at job_id other t =
    first_where-update_where (has_id other) (is_claimable job_id at.due_at) (claimed lease w at) t
      (λ a. refl)

-- A row after a reschedule of `job_id` by `w`.
pub row-reschedule :
    (w : String) (job_id interval : ℕ) (error : Option String) (now other : ℕ) (t : JobTable)
    → row other (reschedule w job_id interval error now t).1
      ≡ Option.map
          (λ j. if is_held w job_id j then rescheduled interval error now j else j)
          (row other t)
unfolding reschedule
row-reschedule w job_id interval error now other t =
    first_where-update_where (has_id other) (is_held w job_id) (rescheduled interval error now) t
      (λ a. refl)

-- A reschedule that wrote no row left the whole table as it was.
pub reschedule_lost :
    (w : String) (job_id interval : ℕ) (error : Option String) (now : ℕ) (t : JobTable)
    → (reschedule w job_id interval error now t).0 ≡ 0
    → (reschedule w job_id interval error now t).1 ≡ t
unfolding reschedule
reschedule_lost w job_id interval error now t h =
    update_where_none (is_held w job_id) (rescheduled interval error now) t h

module _ (job_id : ℕ) where
  -- The claim finds the row of the job if that is due.
  pub first_claimable :
      (now : ℕ) (t : JobTable) {j : ScheduledJob}
      → row job_id t ≡ some j
      → is_due now j ≡ true
      → first_where (is_claimable job_id now) t ≡ some j
  unfolding first_where
  first_claimable now [] e d = cc
  first_claimable now (x ∷ t) {j} e d = ground (arith, first_claimable now t {j = j})

  -- A row that is not due is claimed by nobody.
  none_claimable :
      (now : ℕ) (t : JobTable)
      → count_where (has_id job_id) t ≡ 0
      → first_where (is_claimable job_id now) t ≡ none
  unfolding first_where count_where
  none_claimable now [] e = refl
  none_claimable now (x ∷ t) e = ground (arith, none_claimable now t)

  -- Where the id is a key, the row that a claim finds is the row of the job.
  pub row_of_claimable :
      (now : ℕ) (t : JobTable) {j : ScheduledJob}
      → count_where (has_id job_id) t ≤ 1
      → first_where (is_claimable job_id now) t ≡ some j
      → row job_id t ≡ some j
  unfolding first_where count_where
  row_of_claimable now [] k e = cc
  row_of_claimable now (x ∷ t) {j} k e =
      ground (arith, row_of_claimable now t {j = j}, none_claimable now t)

  pub claimed_once :
      (lease : ℕ) (w : String) (at : ClaimTimes) (now : ℕ) (t : JobTable) {j : ScheduledJob}
      → count_where (has_id job_id) t ≤ 1
      → first_where (is_claimable job_id at.due_at) t ≡ some j
      → first_where
          (is_claimable job_id now)
          (update_where (is_claimable job_id at.due_at) (claimed lease w at) t)
        ≡ none
  unfolding first_where update_where count_where
  claimed_once lease w at now [] k e = cc
  claimed_once lease w at now (x ∷ t) {j} k e = ground (
    arith,
    claimed_once lease w at now t {j = j},
    none_claimable at.due_at t,
    none_claimable now (update_where (is_claimable job_id at.due_at) (claimed lease w at) t),
    count_where-update_where (has_id job_id) (is_claimable job_id at.due_at) (claimed lease w at) t
        (λ j. refl),
  )

claim_found :
    (lease : ℕ) (w : String) (at : ClaimTimes) (job_id : ℕ) (t : JobTable) {j : ScheduledJob}
    → row job_id t ≡ some j
    → is_due at.due_at j ≡ true
    → (claim lease w at job_id t).0 ≡ some (j.job_name, j.interval_seconds)
unfolding claim
claim_found lease w at job_id t e d = rw (first_claimable job_id at.due_at t e d)

pub row_id :
    (job_id : ℕ) (t : JobTable) {j : ScheduledJob} → row job_id t ≡ some j → has_id job_id j ≡ true
unfolding first_where
row_id job_id [] e = cc
row_id job_id (x ∷ t) {j} e = ground (arith, row_id job_id t {j = j})

-- One run of `execute_job` on a due job, whatever its handler does: the row is PENDING again with
-- no owner, `run_count` is one more, the next run is an interval after the end of this one, and
-- `last_error` holds the end of the error text, or nothing after a success.
pub row-execute_job :
    (w : JobWorker) (at : ClaimTimes) (done_at job_id : ℕ) (t : JobTable) (j : ScheduledJob)
    → row job_id t ≡ some j
    → is_due at.due_at j ≡ true
    → row job_id (execute_job w at done_at job_id t)
      ≡ some (record j {
        status = pending;
        claimed_by = none;
        lease_until = none;
        next_run_at = done_at + seconds j.interval_seconds;
        last_run_at = some done_at;
        run_count = j.run_count + 1;
        last_error = error_tail (run_handler w.registered w.outcome j.job_name);
        updated_at = some done_at;
      })
unfolding execute_job
row-execute_job w at done_at job_id t j e d = ground (
  arith,
  row-claim w.lease_seconds w.worker_id at job_id job_id t,
  claim_found w.lease_seconds w.worker_id at job_id t e d,
  row-reschedule w.worker_id job_id j.interval_seconds
      (run_handler w.registered w.outcome j.job_name) done_at job_id
      (claim w.lease_seconds w.worker_id at job_id t).1,
  eq_iff w.worker_id w.worker_id,
  row_id job_id t {j = j} e,
)
