-- ===== src/Analytics/Slots.antt =====
-- The limiter never lends more slots than it has, and loses none.
use geo_hazard.Base.{
  ℕ, ◌-◌, ◌≤◌, ◌≡◌, refl, ap, ◌∙◌, List, ◌∷◌, ◌++◌, length, length-append, ltb, ltb→lt, arith,
  Bool-cases, inl, inr,
}
use geo_hazard.Analytics.{
  Plane, idle, acquire, release, reject, Step, arrives, acquires, times_out, finishes, Reaches,
  here, next,
}

-- As many slots are lent as queries run, and no more than the limit.
abbrev pub IsCounted : ℕ → Plane → Type 0
IsCounted limit p = (p.borrowed ≡ length p.running) × (p.borrowed ≤ limit)

one_less : (id : ℕ) (us vs xs : List ℕ) → xs ≡ us ++ id ∷ vs → length xs - 1 ≡ length (us ++ vs)
one_less id us vs xs h = omega (arith, ap length h, length-append us (id ∷ vs), length-append us vs)

Step-IsCounted : (limit : ℕ) (p q : Plane) → Step limit p q → IsCounted limit p → IsCounted limit q
unfolding acquire release reject
Step-IsCounted limit _ _ (arrives id p) h = h
Step-IsCounted limit _ _ (acquires id us vs p e) h = elim (Bool-cases (ltb p.borrowed limit)) [
  | inl free ↦ rw free (omega (arith, h.0), omega (arith, ltb→lt p.borrowed limit free))
  | inr full ↦ rw full h
]
Step-IsCounted limit _ _ (times_out id us vs p e) h = h
Step-IsCounted limit _ _ (finishes id fails us vs p e) h =
    (ap (λ n. n - 1) h.0 ∙ one_less id us vs p.running e, omega (arith, h.1))

Reaches-kept : (limit : ℕ) (p q : Plane) → IsCounted limit p → Reaches limit p q → IsCounted limit q
Reaches-kept limit p _ h here = h
Reaches-kept limit p _ h (next m q r s) = Step-IsCounted limit m q s (Reaches-kept limit p m h r)

-- In every state that requests reach from an idle plane, in whatever order they arrive, wait, give
-- up, run, fail and end, as many slots are lent as queries run, and no more than the limit: no slot
-- is lost, and no query runs without one.
pub Reaches-IsCounted : (limit : ℕ) (q : Plane) → Reaches limit idle q → IsCounted limit q
Reaches-IsCounted limit q r = Reaches-kept limit idle q (refl, omega arith) r
