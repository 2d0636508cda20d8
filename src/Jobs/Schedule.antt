-- ===== src/Jobs/Schedule.antt =====
-- Which jobs a worker takes up, in which order, and what the recovery of stale rows comes to.
use geo_hazard.Base.{
  ℕ, ◌≤◌, String, ◌≡◌, refl, true, List, [], ◌∷◌, arith, All, length, length-take, take_all,
  All-take,
}
use geo_hazard.Base.Query.{count_where, select_where, update_where, order_by}
use geo_hazard.Base.Query.Rows.{update_where_none, All-select_where}
use geo_hazard.Base.Query.Order.{
  IsOrdering, IsOrdered, order_by-All, order_by-perm, order_by-IsOrdered, length-order_by,
  take-IsOrdered,
}
use geo_hazard.Jobs.{
  JobTable, batch_size, is_candidate, is_stale, runs_before, released, recover_stale_jobs,
  candidates,
}
use mathlib.Core.List.{Perm}

runs_before-IsOrdering : IsOrdering runs_before
runs_before-IsOrdering = record { asym = λ a b h. ground arith; ties = λ a b c h k. ground arith }

module _ (registered : List String) (now : ℕ) (t : JobTable) where
  abbrev selected : JobTable
  selected = order_by runs_before (select_where (is_candidate registered now) t)

  -- What a worker takes up is PENDING, due and has a handler in its process, comes in the order of
  -- `next_run_at`, and is ten jobs at most.
  pub candidates_sound :
      All (λ j. is_candidate registered now j ≡ true) (candidates registered now t)
      × IsOrdered runs_before (candidates registered now t)
      × (length (candidates registered now t) ≤ batch_size)
  unfolding candidates
  candidates_sound = (
    All-take _ batch_size selected (
        order_by-All runs_before _ (select_where (is_candidate registered now) t)
          (All-select_where (is_candidate registered now) t)),
    take-IsOrdered runs_before batch_size selected
        (order_by-IsOrdered runs_before runs_before-IsOrdering _),
    omega (arith, length-take batch_size selected),
  )

  -- Where ten jobs at most are PENDING, due and known, all of them are taken up.
  pub candidates_complete :
      length (select_where (is_candidate registered now) t) ≤ batch_size
      → Perm (candidates registered now t) (select_where (is_candidate registered now) t)
  unfolding candidates
  candidates_complete few =
      rw
        (take_all batch_size selected (
          omega
            (arith, length-order_by runs_before (select_where (is_candidate registered now) t))))
        (order_by-perm runs_before _)

none_stale :
    (now now' : ℕ) (t : JobTable)
    → now' ≤ now
    → count_where (is_stale now') (update_where (is_stale now) released t) ≡ 0
unfolding update_where count_where
none_stale now now' [] h = refl
none_stale now now' (j ∷ t) h = ground (arith, none_stale now now' t h)

-- A recovery leaves no stale row behind: another one, at the same reading of the clock or at an
-- earlier one, changes nothing.
pub recover_twice :
    (now now' : ℕ) (t : JobTable)
    → now' ≤ now
    → recover_stale_jobs now' (recover_stale_jobs now t) ≡ recover_stale_jobs now t
unfolding recover_stale_jobs
recover_twice now now' t h = update_where_none (is_stale now') released _ (none_stale now now' t h)
