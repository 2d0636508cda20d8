-- ===== src/Jobs/Workers/Exclusion.antt =====
-- No two workers run one job at the same time, and no worker loses its lease while it runs.
use geo_hazard.Base.{
  ℕ, ◌+◌, ◌≤◌, String, ◌≡◌, refl, ap, sym, ◌∙◌, true, false, not, Option, some, List, [], ◌∷◌, All,
  any, seconds, arith, eq_iff, All-map, All-map₂, Option-cases, inl, inr, none,
}
use geo_hazard.Base.Query.{count_where, select_where, first_where, delete_where}
use geo_hazard.Jobs.{
  JobTable, ClaimTimes, ScheduledJob, running, recover_stale_jobs, claim, reschedule, row, is_stale,
  released, is_held, rescheduled, has_id, is_claimable, claimed,
}
use geo_hazard.Base.Query.Rows.{
  count_where_mono, count_where_pos, first_where-All, first_where_found, count_where-update_where,
  select_where-All, All-select_where,
}
use geo_hazard.Jobs.Phases.{
  row_id, row_of_claimable, row-recover_stale_jobs, row-claim, row-reschedule,
}
use geo_hazard.Jobs.Workers.{
  Execution, System, InTime, Step, Reach, pass, recover, start, finish, here, next, is_of, at_once,
  started, finished,
}

-- The row of an execution: RUNNING, owned by its worker, under a lease from its start.
pub record IsOwned (lease : ℕ) (e : Execution) (j : ScheduledJob) : Type 0 where
  pub status : j.status ≡ running
  pub owner : j.claimed_by ≡ some e.worker
  pub until : j.lease_until ≡ some (e.started + seconds lease)

abbrev pub Holds : ℕ → JobTable → Execution → Type 0
Holds lease t e = (j : ScheduledJob) × (row e.job_id t ≡ some j) × IsOwned lease e j

recover-Holds :
    (lease hold now : ℕ) (t : JobTable) (e : Execution)
    → hold ≤ seconds lease
    → InTime hold now e
    → Holds lease t e
    → Holds lease (recover_stale_jobs now t) e
recover-Holds lease hold now t e h i (j, r, o) =
    (j, ground (arith, row-recover_stale_jobs now e.job_id t), o)

claim-Holds :
    (lease : ℕ) (w : String) (at : ClaimTimes) (job_id : ℕ) (t : JobTable) (e : Execution)
    → Holds lease t e
    → Holds lease (claim lease w at job_id t).1 e
claim-Holds lease w at job_id t e (j, r, o) =
    (j, ground (arith, row-claim lease w at job_id e.job_id t), o)

reschedule-Holds :
    (lease : ℕ) (w : String) (job_id interval : ℕ) (error : Option String) (now : ℕ) (t : JobTable)
    (e : Execution)
    → is_of w e ≡ false
    → Holds lease t e
    → Holds lease (reschedule w job_id interval error now t).1 e
reschedule-Holds lease w job_id interval error now t e ne (j, r, o) =
    (j, ground (arith, row-reschedule w job_id interval error now e.job_id t), o)

-- Each worker runs one job at most.
abbrev pub Distinct : List Execution → Type 0
Distinct [] = Unit {0}
Distinct (e ∷ es) = All (λ e'. is_of e.worker e' ≡ false) es × Distinct es

-- The execution holds its job, and within its time.
abbrev pub Good : ℕ → ℕ → System → Execution → Type 0
Good lease hold s e = Holds lease s.table e × InTime hold s.clock e

pub record Inv (lease hold : ℕ) (s : System) : Type 0 where
  pub good : All (Good lease hold s) s.executions
  pub distinct : Distinct s.executions
  pub keys : (job_id : ℕ) → count_where (has_id job_id) s.table ≤ 1

All-is_of :
    (w : String) (es : List Execution) → any (is_of w) es ≡ false → All (λ e. is_of w e ≡ false) es
All-is_of w [] h = tt
All-is_of w (e ∷ es) h = ground (arith, All-is_of w es)

Distinct-delete :
    (w : String) (es : List Execution) → Distinct es → Distinct (delete_where (is_of w) es)
unfolding delete_where select_where
Distinct-delete w [] h = tt
Distinct-delete w (e ∷ es) h = ground (
  arith,
  Distinct-delete w es h.1,
  select_where-All (λ e'. is_of e.worker e' ≡ false) (λ x. not (is_of w x)) es h.0,
)

pass-Inv :
    (lease hold n : ℕ) (s : System)
    → All (InTime hold (s.clock + n)) s.executions
    → Inv lease hold s
    → Inv lease hold (record s { clock = s.clock + n })
pass-Inv lease hold n s h v = record {
  good = All-map₂ _ _ _ s.executions (λ e g i. (g.0, i)) v.good h;
  distinct = v.distinct;
  keys = v.keys;
}

keys-recover :
    (now id : ℕ) (t : JobTable)
    → count_where (has_id id) (recover_stale_jobs now t) ≡ count_where (has_id id) t
unfolding recover_stale_jobs
keys-recover now id t = count_where-update_where (has_id id) (is_stale now) released t (λ j. refl)

keys-claim :
    (lease : ℕ) (w : String) (at : ClaimTimes) (job_id id : ℕ) (t : JobTable)
    → count_where (has_id id) (claim lease w at job_id t).1 ≡ count_where (has_id id) t
unfolding claim
keys-claim lease w at job_id id t =
    count_where-update_where (has_id id) (is_claimable job_id at.due_at) (claimed lease w at) t
      (λ j. refl)

keys-reschedule :
    (w : String) (job_id interval : ℕ) (error : Option String) (now id : ℕ) (t : JobTable)
    → count_where (has_id id) (reschedule w job_id interval error now t).1
      ≡ count_where (has_id id) t
unfolding reschedule
keys-reschedule w job_id interval error now id t =
    count_where-update_where (has_id id) (is_held w job_id) (rescheduled interval error now) t
      (λ j. refl)

no_claim : {x : String × ℕ} → ◌≡◌ {A = Option (String × ℕ)} none (some x) → ⊥
no_claim e = cc

recover-Inv :
    (lease hold : ℕ) (s : System)
    → hold ≤ seconds lease
    → Inv lease hold s
    → Inv lease hold (record s { table = recover_stale_jobs s.clock s.table })
recover-Inv lease hold s h v = record {
  good =
      All-map _ _ s.executions (λ e g. (recover-Holds lease hold s.clock s.table e h g.1 g.0, g.1))
        v.good;
  distinct = v.distinct;
  keys = λ id. rw keys-recover (v.keys id);
}

claimed-Holds :
    (lease : ℕ) (w name : String) (interval now job_id : ℕ) (t : JobTable) (e : Execution)
    → count_where (has_id job_id) t ≤ 1
    → e.worker ≡ w
    → e.job_id ≡ job_id
    → e.started ≡ now
    → (claim lease w (at_once now) job_id t).0 ≡ some (name, interval)
    → Holds lease (claim lease w (at_once now) job_id t).1 e
unfolding claim
claimed-Holds lease w name interval now job_id t e k p q r got =
    elim (Option-cases (first_where (is_claimable job_id now) t)) [
      | inl e ↦ absurd (no_claim (rw e at got))
      | inr (j, found) ↦ (
        claimed lease w (at_once now) j,
        rw
            (
              q,
              row-claim lease w (at_once now) job_id job_id t,
              row_of_claimable job_id now t k found,
            )
            (ground (arith, first_where_found (is_claimable job_id now) t found)),
        record { status = refl; owner = rw p; until = rw r },
      )
    ]

start-Inv :
    (lease hold job_id interval : ℕ) (w name : String) (s : System)
    → Inv lease hold s
    → any (is_of w) s.executions ≡ false
    → (claim lease w (at_once s.clock) job_id s.table).0 ≡ some (name, interval)
    → Inv lease hold (started w job_id name interval lease s)
start-Inv lease hold job_id interval w name s v idle got = record {
  good = (
    (
      claimed-Holds lease w name interval s.clock job_id s.table _ (v.keys job_id) refl refl refl
          got,
      omega arith,
    ),
    All-map _ _ s.executions
        (λ e g. (claim-Holds lease w (at_once s.clock) job_id s.table e g.0, g.1)) v.good,
  );
  distinct = (All-is_of w s.executions idle, v.distinct);
  keys = λ id. rw keys-claim (v.keys id);
}

finish-Inv :
    (lease hold : ℕ) (w : String) (e : Execution) (error : Option String) (s : System)
    → Inv lease hold s
    → Inv lease hold (finished w e error s)
unfolding delete_where
finish-Inv lease hold w e error s v = record {
  good =
      All-map₂ (λ x. not (is_of w x) ≡ true) (Good lease hold s) _
        (delete_where (is_of w) s.executions)
        (λ x n g. (
          reschedule-Holds lease w e.job_id e.interval_seconds error s.clock s.table x
              (ground arith) g.0,
          g.1,
        ))
        (All-select_where (λ x. not (is_of w x)) s.executions)
        (select_where-All (Good lease hold s) (λ x. not (is_of w x)) s.executions v.good);
  distinct = Distinct-delete w s.executions v.distinct;
  keys = λ id. rw keys-reschedule (v.keys id);
}

-- Every step keeps the invariant: a job in execution is RUNNING under its worker's lease, which
-- ends after the execution does.
Step-Inv :
    (lease hold : ℕ) {s t : System}
    → hold ≤ seconds lease
    → Step lease hold s t
    → Inv lease hold s
    → Inv lease hold t
Step-Inv lease hold {s} h (pass n i e) v = rw e (pass-Inv lease hold n s i v)
Step-Inv lease hold {s} h (recover e) v = rw e (recover-Inv lease hold s h v)
Step-Inv lease hold {s} h (start w job_id name interval idle got e) v =
    rw e (start-Inv lease hold job_id interval w name s v idle got)
Step-Inv lease hold {s} h (finish w x error of_w e) v = rw e (finish-Inv lease hold w x error s v)

pub Reach-Inv :
    (lease hold : ℕ) {s t : System}
    → hold ≤ seconds lease
    → Inv lease hold s
    → Reach lease hold s t
    → Inv lease hold t
Reach-Inv lease hold h v here = v
Reach-Inv lease hold h v (next r st) = Step-Inv lease hold h st (Reach-Inv lease hold h v r)

idle-Inv :
    (lease hold : ℕ) (s : System)
    → s.executions ≡ []
    → ((job_id : ℕ) → count_where (has_id job_id) s.table ≤ 1)
    → Inv lease hold s
idle-Inv lease hold s idle keys = record { good = rw idle tt; distinct = rw idle tt; keys = keys }

same_owner :
    (lease : ℕ) (t : JobTable) (e e' : Execution)
    → Holds lease t e
    → Holds lease t e'
    → e.job_id ≡ e'.job_id
    → e.worker ≡ e'.worker
same_owner lease t e e' (j, r, o) (j', r', o') same =
    ground (arith, o.owner, o'.owner, ap (λ (i : ℕ). row i t) same)

held_once :
    (lease : ℕ) (w : String) (t : JobTable) (e : Execution)
    → count_where (has_id e.job_id) t ≤ 1
    → is_of w e ≡ true
    → Holds lease t e
    → count_where (is_held w e.job_id) t ≡ 1
held_once lease w t e k of_w (j, r, o) = omega (
  arith,
  count_where_mono (is_held w e.job_id) (has_id e.job_id) t (λ a h. ground arith),
  count_where_pos (is_held w e.job_id) (has_id e.job_id) t r
      (rw o.owner (ground (arith, row_id e.job_id t r))),
)

-- In every state that is reached from one with no job in execution and with the ids as a key, and
-- if a job stays with its worker no longer than its lease: two workers that run the same job are
-- one worker.
pub exclusive :
    (lease hold : ℕ) {s t : System} {w w' : String} {e e' : Execution}
    → hold ≤ seconds lease
    → s.executions ≡ []
    → ((job_id : ℕ) → count_where (has_id job_id) s.table ≤ 1)
    → Reach lease hold s t
    → first_where (is_of w) t.executions ≡ some e
    → first_where (is_of w') t.executions ≡ some e'
    → e.job_id ≡ e'.job_id
    → w ≡ w'
exclusive lease hold {s} {t} {w} {w'} {e} {e'} h idle keys r p p' same =
    let v = Reach-Inv lease hold h (idle-Inv lease hold s idle keys) r in
    let g = first_where-All (Good lease hold t) (is_of w) t.executions v.good p in
    let g' = first_where-All (Good lease hold t) (is_of w') t.executions v.good p' in
    let owner = same_owner lease t.table e e' g.0.0 g'.0.0 same in
    sym ((eq_iff e.worker w).0 g.1) ∙ owner ∙ (eq_iff e'.worker w').0 g'.1

-- Under the same conditions a worker that reschedules its job still holds it: the reschedule
-- writes its row.
pub keeps_lease :
    (lease hold : ℕ) (w : String) {s t : System} {e : Execution} (error : Option String)
    → hold ≤ seconds lease
    → s.executions ≡ []
    → ((job_id : ℕ) → count_where (has_id job_id) s.table ≤ 1)
    → Reach lease hold s t
    → first_where (is_of w) t.executions ≡ some e
    → (reschedule w e.job_id e.interval_seconds error t.clock t.table).0 ≡ 1
keeps_lease lease hold w {s} {t} {e} error h idle keys r p =
    let v = Reach-Inv lease hold h (idle-Inv lease hold s idle keys) r in
    let g = first_where-All (Good lease hold t) (is_of w) t.executions v.good p in
    unfold reschedule in held_once lease w t.table e (v.keys e.job_id) g.1 g.0.0
