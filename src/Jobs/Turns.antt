-- ===== src/Jobs/Turns.antt =====
-- What other workers, and the same one, do between two claims of a job that no one gives back.
use mathlib.Core.Logic.{◌≢◌, inl, inr}
use geo_hazard.Base.{
  Option-cases, ℕ, ◌≤◌, String, ◌≡◌, refl, ◌==◌, ==_iff, false, Option, none, List, [], ◌∷◌, All,
  arith,
}
use geo_hazard.Base.Query.{first_where, update_where, count_where}
use geo_hazard.Jobs.{
  JobTable, ClaimTimes, has_id, is_claimable, claimed, is_held, rescheduled, claim, reschedule,
}
use geo_hazard.Jobs.Phases.{claimed_once}

-- A claim of any job, or the end of the run of one.
pub data Turn : Type 0 where
  claim_turn : ℕ → String → ClaimTimes → ℕ → Turn
  reschedule_turn : String → ℕ → ℕ → Option String → ℕ → Turn

unfoldable pub after_turns : List Turn → JobTable → JobTable
after_turns [] t = t
after_turns (claim_turn lease w at id ∷ turns) t = after_turns turns (claim lease w at id t).1
after_turns (reschedule_turn w id interval error now ∷ turns) t =
    after_turns turns (reschedule w id interval error now t).1

-- The turn does not give the job back.
abbrev pub Keeps : ℕ → Turn → Type 0
Keeps job_id (claim_turn lease w at id) = Unit
Keeps job_id (reschedule_turn w id interval error now) = (id == job_id) ≡ false

module _ (job_id due_at : ℕ) where
  claim-unclaimable :
      (lease : ℕ) (w : String) (at : ClaimTimes) (id : ℕ) (t : JobTable)
      → first_where (is_claimable job_id due_at) t ≡ none
      → first_where
          (is_claimable job_id due_at)
          (update_where (is_claimable id at.due_at) (claimed lease w at) t)
        ≡ none
  unfolding first_where update_where
  claim-unclaimable lease w at id [] h = refl
  claim-unclaimable lease w at id (x ∷ t) h = ground (arith, h, claim-unclaimable lease w at id t)

  reschedule-unclaimable :
      (w : String) (id interval : ℕ) (error : Option String) (now : ℕ) (t : JobTable)
      → (id == job_id) ≡ false
      → first_where (is_claimable job_id due_at) t ≡ none
      → first_where
          (is_claimable job_id due_at)
          (update_where (is_held w id) (rescheduled interval error now) t)
        ≡ none
  unfolding first_where update_where
  reschedule-unclaimable w id interval error now [] n h = refl
  reschedule-unclaimable w id interval error now (x ∷ t) n h = ground (
    arith,
    n,
    h,
    reschedule-unclaimable w id interval error now t n,
    ==_iff x.id id,
    ==_iff x.id job_id,
    ==_iff id job_id,
  )

  turns-unclaimable :
      (turns : List Turn) (t : JobTable)
      → All (Keeps job_id) turns
      → first_where (is_claimable job_id due_at) t ≡ none
      → first_where (is_claimable job_id due_at) (after_turns turns t) ≡ none
  unfolding after_turns claim reschedule
  turns-unclaimable [] t k h = h
  turns-unclaimable (claim_turn lease w at id ∷ turns) t k h =
      turns-unclaimable turns _ k.1 (claim-unclaimable lease w at id t h)
  turns-unclaimable (reschedule_turn w id interval error now ∷ turns) t k h =
      turns-unclaimable turns _ k.1 (reschedule-unclaimable w id interval error now t k.0 h)

-- Of a table where the id of a job is a key, a claim that got the job is followed by any claims of
-- any jobs and any ends of runs of other jobs, by whatever workers and at whatever times: as long
-- as the job itself is neither rescheduled nor released by a recovery, no claim gets it.
pub claim-after_turns :
    (lease lease' : ℕ) (w w' : String) (at at' : ClaimTimes) (job_id : ℕ) (turns : List Turn)
    (t : JobTable)
    → count_where (has_id job_id) t ≤ 1
    → (claim lease w at job_id t).0 ≢ none
    → All (Keeps job_id) turns
    → (claim lease' w' at' job_id (after_turns turns (claim lease w at job_id t).1)).0 ≡ none
unfolding claim
claim-after_turns lease lease' w w' at at' job_id turns t unique got k =
    elim (Option-cases (first_where (is_claimable job_id at.due_at) t)) [
      | inl e ↦ absurd (got (rw e))
      | inr (j, e) ↦
          rw
            (turns-unclaimable job_id at'.due_at turns
              (update_where (is_claimable job_id at.due_at) (claimed lease w at) t) k
              (claimed_once job_id lease w at at'.due_at t unique e))
            refl
    ]
