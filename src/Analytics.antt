-- ===== src/Analytics.antt =====
-- app/analytics/concurrency.py: `run_analytics` under its limiter. The requests interleave at the
-- acquisition of a slot, the end of the wait for one, and the end of the query.
pub mod Slots
mod Tests
use geo_hazard.Base.{
  ℕ, zero, suc, ◌+◌, ◌-◌, ◌<◌, Bool, true, false, String, ◌≡◌, List, [], ◌∷◌, ◌++◌, ltb,
  if◌then◌else◌,
}

pub data Ended : Type 0 where
  -- the query has returned, or raised
  answered : Ended
  raised : Ended
  -- ServiceOverloadedError, with its text and the seconds of Retry-After
  overloaded : String → ℕ → Ended

-- The limiter counts the slots that are lent; the requests are known by their numbers.
pub record Plane : Type 0 where
  pub borrowed : ℕ
  pub waiting : List ℕ
  pub running : List ℕ
  pub ended : List (ℕ × Ended)

abbrev pub idle : Plane
idle = record { borrowed = 0; waiting = []; running = []; ended = [] }

abbrev pub busy : Ended
busy = overloaded "analytics plane is busy, retry shortly" 1

-- `_limiter.acquire()` for a request, which goes on waiting where no slot is free.
unfoldable pub acquire : ℕ → ℕ → List ℕ → List ℕ → Plane → Plane
acquire limit id us vs p =
    if ltb p.borrowed limit
    then record p { borrowed = p.borrowed + 1; waiting = us ++ vs; running = id ∷ p.running }
    else p

-- The end of the query, in which the slot is given back whether it raises or not.
unfoldable pub release : ℕ → Bool → List ℕ → List ℕ → Plane → Plane
release id fails us vs p = record p {
  borrowed = p.borrowed - 1;
  running = us ++ vs;
  ended = (id, if fails then raised else answered) ∷ p.ended;
}

-- The timeout, which covers the wait for a slot alone.
unfoldable pub reject : ℕ → List ℕ → List ℕ → Plane → Plane
reject id us vs p = record p { waiting = us ++ vs; ended = (id, busy) ∷ p.ended }

-- The steps of the requests under a limit.
pub data Step (limit : ℕ) : Plane → Plane → Type 0 where
  arrives : (id : ℕ) (p : Plane) → Step limit p (record p { waiting = id ∷ p.waiting })
  acquires :
      (id : ℕ) (us vs : List ℕ) (p : Plane)
      → p.waiting ≡ us ++ id ∷ vs
      → Step limit p (acquire limit id us vs p)
  times_out :
      (id : ℕ) (us vs : List ℕ) (p : Plane)
      → p.waiting ≡ us ++ id ∷ vs
      → Step limit p (reject id us vs p)
  finishes :
      (id : ℕ) (fails : Bool) (us vs : List ℕ) (p : Plane)
      → p.running ≡ us ++ id ∷ vs
      → Step limit p (release id fails us vs p)

pub data Reaches (limit : ℕ) (p : Plane) : Plane → Type 0 where
  here : Reaches limit p p
  next : (q r : Plane) → Reaches limit p q → Step limit q r → Reaches limit p r
