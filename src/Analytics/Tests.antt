-- ===== src/Analytics/Tests.antt =====
-- The theorem on the analytics at two requests and one slot.
use geo_hazard.Base.{◌≡◌, refl, false, [], ◌∷◌}
use geo_hazard.Analytics.{
  Plane, idle, busy, answered, acquire, release, reject, arrives, acquires, times_out, finishes,
  Reaches, here, next,
}
use geo_hazard.Analytics.Slots.{IsCounted, Reaches-IsCounted}

abbrev both : Plane
both = record { borrowed = 0; waiting = 2 ∷ 1 ∷ []; running = []; ended = [] }

abbrev one_runs : Plane
one_runs = acquire 1 1 (2 ∷ []) [] both

abbrev rejected : Plane
rejected = reject 2 [] [] one_runs

abbrev done : Plane
done = release 1 false [] [] rejected

rejected_run : done.ended ≡ (1, answered) ∷ (2, busy) ∷ []
unfolding acquire reject release
rejected_run = refl

to_done : Reaches 1 idle done
unfolding acquire reject release
to_done =
    next rejected done
      (next one_runs rejected
        (next both one_runs
          (next (record { borrowed = 0; waiting = 1 ∷ []; running = []; ended = [] }) both
            (next idle _ here (arrives 1 idle)) (arrives 2 _))
          (acquires 1 (2 ∷ []) [] both refl))
        (times_out 2 [] [] one_runs refl))
      (finishes 1 false [] [] rejected refl)

Reaches-IsCounted_example : IsCounted 1 done
Reaches-IsCounted_example = Reaches-IsCounted 1 done to_done
