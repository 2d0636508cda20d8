-- ===== src/Jobs/Workers.antt =====
-- Several workers on one table, as they interleave at their transactions: time passes, a worker
-- recovers stale rows, claims a job, or reschedules the job that it has run.
-- `hold` bounds the time between the claim of a job and its reschedule: the handler's timeout, with
-- as much again for the transactions around it.
pub mod Exclusion
use geo_hazard.Base.{
  ℕ, ◌+◌, ◌*◌, ◌≤◌, String, ◌≡◌, Bool, false, not, Option, some, List, [], ◌∷◌, All, any, str_eq,
  seconds,
}
use geo_hazard.Base.Query.{first_where, delete_where}
use geo_hazard.Jobs.{JobTable, ClaimTimes, recover_stale_jobs, claim, reschedule}

-- A worker that runs the handler of a job which it claimed at `started`.
pub record Execution : Type 0 where
  pub worker : String
  pub job_id : ℕ
  pub job_name : String
  pub interval_seconds : ℕ
  pub started : ℕ

pub record System : Type 0 where
  pub clock : ℕ
  pub table : JobTable
  pub executions : List Execution

abbrev pub is_of : String → Execution → Bool
is_of w e = str_eq e.worker w

abbrev pub at_once : ℕ → ClaimTimes
at_once now = record { lease_from = now; due_at = now; updated = now }

abbrev pub InTime : ℕ → ℕ → Execution → Type 0
InTime hold now e = now ≤ e.started + hold

-- The system after a claim that got the job, and after a reschedule.
abbrev pub started : String → ℕ → String → ℕ → ℕ → System → System
started w job_id name interval lease s = record s {
  table = (claim lease w (at_once s.clock) job_id s.table).1;
  executions =
      record {
        worker = w;
        job_id = job_id;
        job_name = name;
        interval_seconds = interval;
        started = s.clock;
      }
      ∷ s.executions;
}

abbrev pub finished : String → Execution → Option String → System → System
finished w e error s = record s {
  table = (reschedule w e.job_id e.interval_seconds error s.clock s.table).1;
  executions = delete_where (is_of w) s.executions;
}

-- `lease` is JOB_LEASE_SECONDS.
pub data Step (lease hold : ℕ) (s : System) (s' : System) : Type 0 where
  pass :
      (n : ℕ)
      → All (InTime hold (s.clock + n)) s.executions
      → s' ≡ record s { clock = s.clock + n }
      → Step lease hold s s'
  recover : s' ≡ record s { table = recover_stale_jobs s.clock s.table } → Step lease hold s s'
  start :
      (w : String) (job_id : ℕ) (name : String) (interval : ℕ)
      → any (is_of w) s.executions ≡ false
      → (claim lease w (at_once s.clock) job_id s.table).0 ≡ some (name, interval)
      → s' ≡ started w job_id name interval lease s
      → Step lease hold s s'
  finish :
      (w : String) (e : Execution) (error : Option String)
      → first_where (is_of w) s.executions ≡ some e
      → s' ≡ finished w e error s
      → Step lease hold s s'

pub data Reach (lease hold : ℕ) (s : System) : System → Type 0 where
  here : Reach lease hold s s
  next : {t u : System} → Reach lease hold s t → Step lease hold t u → Reach lease hold s u
