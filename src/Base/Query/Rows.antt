-- ===== src/Base/Query/Rows.antt =====
-- Laws of the query operations: what an update does to a lookup, to a count and to a property of
-- every row.
use geo_hazard.Base.Tests.{if◌then◌else◌}
use geo_hazard.Base.Lists.{All, length}
use geo_hazard.Base.Query.{select_where, first_where, update_where, count_where}
use Prim.Native.Nat.{◌≤◌}
use mathlib.Core.Path.{◌≡◌, refl}
use mathlib.Core.Bool.{Bool, true, false, ◌&&◌}
use mathlib.Core.List.{List, [], ◌∷◌, ◌++◌}
use mathlib.Core.Option
use mathlib.Core.Option.{none, some}
use native.Mathlib.Omega.{arith}

module _ {ℓ} {A : Type ℓ} where
  -- A lookup after an update that leaves the looked-up key alone.
  pub first_where-update_where :
      (q p : A → Bool) (f : A → A) (xs : List A)
      → ((a : A) → q (f a) ≡ q a)
      → first_where q (update_where p f xs)
        ≡ Option.map (λ a. if p a then f a else a) (first_where q xs)
  unfolding first_where update_where
  first_where-update_where q p f [] key = refl
  first_where-update_where q p f (x ∷ xs) key =
      ground (arith, key x, first_where-update_where q p f xs key)

  pub count_where-update_where :
      (q p : A → Bool) (f : A → A) (xs : List A)
      → ((a : A) → q (f a) ≡ q a)
      → count_where q (update_where p f xs) ≡ count_where q xs
  unfolding count_where update_where
  count_where-update_where q p f [] key = refl
  count_where-update_where q p f (x ∷ xs) key =
      ground (arith, key x, count_where-update_where q p f xs key)

  pub length-update_where :
      (p : A → Bool) (f : A → A) (xs : List A) → length (update_where p f xs) ≡ length xs
  unfolding update_where
  length-update_where p f [] = refl
  length-update_where p f (x ∷ xs) = omega (arith, length-update_where p f xs)

  -- An update of no row changes nothing.
  pub update_where_none :
      (p : A → Bool) (f : A → A) (xs : List A) → count_where p xs ≡ 0 → update_where p f xs ≡ xs
  unfolding update_where count_where
  update_where_none p f [] h = refl
  update_where_none p f (x ∷ xs) h = ground (arith, update_where_none p f xs)

  pub count_where-le-length : (p : A → Bool) (xs : List A) → count_where p xs ≤ length xs
  unfolding count_where
  count_where-le-length p [] = omega arith
  count_where-le-length p (x ∷ xs) = ground (arith, count_where-le-length p xs)

  pub length-select_where :
      (p : A → Bool) (xs : List A) → length (select_where p xs) ≡ count_where p xs
  unfolding select_where count_where
  length-select_where p [] = refl
  length-select_where p (x ∷ xs) = ground (arith, length-select_where p xs)

  pub select_where-append :
      (p : A → Bool) (xs ys : List A)
      → select_where p (xs ++ ys) ≡ select_where p xs ++ select_where p ys
  unfolding select_where
  select_where-append p [] ys = refl
  select_where-append p (x ∷ xs) ys = ground (arith, select_where-append p xs ys)

  -- Selecting twice is selecting by both conditions.
  pub select_where-select_where :
      (p q : A → Bool) (xs : List A)
      → select_where p (select_where q xs) ≡ select_where (λ x. q x && p x) xs
  unfolding select_where
  select_where-select_where p q [] = refl
  select_where-select_where p q (x ∷ xs) = ground (arith, select_where-select_where p q xs)

  -- The rows that are found meet the condition.
  pub All-select_where : (p : A → Bool) (xs : List A) → All (λ a. p a ≡ true) (select_where p xs)
  unfolding select_where
  All-select_where p [] = tt
  All-select_where p (x ∷ xs) = ground (arith, All-select_where p xs)

  pub select_where-All {κ} :
      (P : A → Type κ) (p : A → Bool) (xs : List A) → All P xs → All P (select_where p xs)
  unfolding select_where
  select_where-All P p [] h = tt
  select_where-All P p (x ∷ xs) h = ground (arith, select_where-All P p xs h.1)

  -- A property of every row survives an update that keeps it on the rows it writes.
  pub update_where-All {κ} :
      (P : A → Type κ) (p : A → Bool) (f : A → A) (xs : List A)
      → ((a : A) → p a ≡ true → P a → P (f a))
      → All P xs
      → All P (update_where p f xs)
  unfolding update_where
  update_where-All P p f [] keep h = tt
  update_where-All P p f (x ∷ xs) keep h =
      ground (arith, keep x, update_where-All P p f xs keep h.1)

  pub first_where-All {κ} :
      (P : A → Type κ) (p : A → Bool) (xs : List A) {a : A}
      → All P xs
      → first_where p xs ≡ some a
      → P a × (p a ≡ true)
  unfolding first_where
  first_where-All P p [] h e = cc
  first_where-All P p (x ∷ xs) {a} h e = ground (arith, first_where-All P p xs {a = a} h.1)

  -- The row that is found meets the condition.
  pub first_where_found :
      (p : A → Bool) (xs : List A) {a : A} → first_where p xs ≡ some a → p a ≡ true
  unfolding first_where
  first_where_found p [] e = cc
  first_where_found p (x ∷ xs) {a} e = ground (arith, first_where_found p xs {a = a})

  pub count_where_mono :
      (p q : A → Bool) (xs : List A)
      → ((a : A) → p a ≡ true → q a ≡ true)
      → count_where p xs ≤ count_where q xs
  unfolding count_where
  count_where_mono p q [] h = omega arith
  count_where_mono p q (x ∷ xs) h = ground (arith, h x, count_where_mono p q xs h)

  -- A row that is found and meets a further condition is counted by it.
  pub count_where_pos :
      (p q : A → Bool) (xs : List A) {a : A}
      → first_where q xs ≡ some a
      → p a ≡ true
      → 1 ≤ count_where p xs
  unfolding first_where count_where
  count_where_pos p q [] e h = cc
  count_where_pos p q (x ∷ xs) {a} e h = ground (arith, count_where_pos p q xs {a = a})

  -- An update of rows that a lookup passes over, into rows that it passes over.
  pub first_where-update_other :
      (q p : A → Bool) (f : A → A) (xs : List A)
      → ((a : A) → p a ≡ true → (q a ≡ false) × (q (f a) ≡ false))
      → first_where q (update_where p f xs) ≡ first_where q xs
  unfolding first_where update_where
  first_where-update_other q p f [] h = refl
  first_where-update_other q p f (x ∷ xs) h =
      ground (arith, h x, first_where-update_other q p f xs h)

  -- A lookup in a table with one more row at its end.
  pub first_where-snoc :
      (p : A → Bool) (xs : List A) (x : A)
      → first_where p (xs ++ x ∷ [])
        ≡ elim (first_where p xs) [ none ↦ (if p x then some x else none) | some a ↦ some a ]
  unfolding first_where
  first_where-snoc p [] x = ground arith
  first_where-snoc p (y ∷ xs) x = ground (arith, first_where-snoc p xs x)
