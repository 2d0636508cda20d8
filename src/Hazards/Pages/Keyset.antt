-- ===== src/Hazards/Pages/Keyset.antt =====
-- The rows behind a row, in the order of the pages.
use geo_hazard.Base.{
  ◌≡◌, refl, sym, ap, ◌∙◌, Bool, true, false, List, [], ◌∷◌, ◌++◌, arith, All, All-map, ◌==◌,
  if◌then◌else◌, Bool-cases, inl, inr,
}
use geo_hazard.Base.Query.{select_where, order_by, insert_by}
use geo_hazard.Base.Query.Rows.{select_where-All}
use geo_hazard.Base.Query.Order.{order_by-All, insert_by-All}
use geo_hazard.Hazards.Model.{HazardEvent, EventTable}
use geo_hazard.Hazards.Pages.{newest_first}

pub All-middle :
    {A : Type 0} (P : A → Type 0) (xs : List A) (a : A) (ys : List A) → All P (xs ++ a ∷ ys) → P a
All-middle P [] a ys h = h.0
All-middle P (x ∷ xs) a ys h = All-middle P xs a ys h.1

select_where_same :
    {A : Type 0} (p : A → Bool) (xs : List A) → All (λ x. p x ≡ true) xs → select_where p xs ≡ xs
unfolding select_where
select_where_same p [] h = refl
select_where_same p (x ∷ xs) h = rw h.0 (ap (λ ys. x ∷ ys) (select_where_same p xs h.1))

module _ {G F : Type 0} where
  newest_first_irrefl : (a : HazardEvent G F) → newest_first a a ≡ false
  newest_first_irrefl a = ground arith

  newest_first_asym : (a b : HazardEvent G F) → newest_first a b ≡ true → newest_first b a ≡ false
  newest_first_asym a b h = ground (arith, h)

  pub newest_first_trans :
      (a b c : HazardEvent G F)
      → newest_first a b ≡ true
      → newest_first b c ≡ true
      → newest_first a c ≡ true
  newest_first_trans a b c h k = ground (arith, h, k)

  newest_first_total :
      (a b : HazardEvent G F)
      → (b.id == a.id) ≡ false
      → newest_first a b ≡ false
      → newest_first b a ≡ true
  newest_first_total a b h k = ground (arith, h, k)

  -- The primary key.
  abbrev pub DistinctIds : EventTable G F → Type 0
  DistinctIds [] = Unit {0}
  DistinctIds (x ∷ xs) = All (λ y. (x.id == y.id) ≡ false) xs × DistinctIds xs

  -- Every row stands before those behind it.
  abbrev pub Strict : EventTable G F → Type 0
  Strict [] = Unit {0}
  Strict (x ∷ xs) = All (λ y. newest_first x y ≡ true) xs × Strict xs

  insert_by-Strict :
      (x : HazardEvent G F) (ys : EventTable G F)
      → All (λ y. (x.id == y.id) ≡ false) ys
      → Strict ys
      → Strict (insert_by newest_first x ys)
  unfolding insert_by
  insert_by-Strict x [] d h = (tt, tt)
  insert_by-Strict x (y ∷ ys) d h = elim (Bool-cases (newest_first y x)) [
    | inl e ↦ rw e (
      insert_by-All newest_first (λ z. newest_first y z ≡ true) x ys e h.0,
      insert_by-Strict x ys d.1 h.1,
    )
    | inr e ↦
        let xy = newest_first_total y x d.0 e in
        rw e ((xy, All-map _ _ ys (λ z k. newest_first_trans x y z xy k) h.0), h)
  ]

  pub order_by-Strict : (xs : EventTable G F) → DistinctIds xs → Strict (order_by newest_first xs)
  unfolding order_by
  order_by-Strict [] d = tt
  order_by-Strict (x ∷ xs) d =
      insert_by-Strict x (order_by newest_first xs) (order_by-All newest_first _ xs d.0)
        (order_by-Strict xs d.1)

  pub select_where-DistinctIds :
      (p : HazardEvent G F → Bool) (xs : EventTable G F)
      → DistinctIds xs
      → DistinctIds (select_where p xs)
  unfolding select_where
  select_where-DistinctIds p [] d = tt
  select_where-DistinctIds p (x ∷ xs) d = elim (Bool-cases (p x)) [
    | inl e ↦ rw e (select_where-All _ p xs d.0, select_where-DistinctIds p xs d.1)
    | inr e ↦ rw e (select_where-DistinctIds p xs d.1)
  ]

  insert_by-front :
      (x : HazardEvent G F) (ys : EventTable G F)
      → All (λ y. newest_first x y ≡ true) ys
      → insert_by newest_first x ys ≡ x ∷ ys
  unfolding insert_by
  insert_by-front x [] h = refl
  insert_by-front x (y ∷ ys) h = rw (newest_first_asym x y h.0) refl

  front_select :
      (q : HazardEvent G F → Bool) (x : HazardEvent G F) (ys : EventTable G F)
      → All (λ y. newest_first x y ≡ true) ys
      → select_where q (x ∷ ys)
        ≡ (if q x then insert_by newest_first x (select_where q ys) else select_where q ys)
  unfolding select_where
  front_select q x ys h = elim (Bool-cases (q x)) [
    | inl e ↦ rw e (sym (insert_by-front x (select_where q ys) (select_where-All _ q ys h)))
    | inr e ↦ rw e refl
  ]

  select_where-insert_by :
      (q : HazardEvent G F → Bool) (x : HazardEvent G F) (ys : EventTable G F)
      → All (λ y. (x.id == y.id) ≡ false) ys
      → Strict ys
      → select_where q (insert_by newest_first x ys)
        ≡ (if q x then insert_by newest_first x (select_where q ys) else select_where q ys)
  unfolding select_where insert_by
  select_where-insert_by q x [] d h = refl
  select_where-insert_by q x (y ∷ ys) d h = elim (Bool-cases (newest_first y x)) [
    | inl e ↦ rw e (ground (arith, e, select_where-insert_by q x ys d.1 h.1))
    | inr e ↦
        let xy = newest_first_total y x d.0 e in
        rw e (
          front_select q x (y ∷ ys) (xy, All-map _ _ ys (λ z k. newest_first_trans x y z xy k) h.0))
  ]

  -- A filter after the order is the order after the filter.
  pub select_where-order_by :
      (q : HazardEvent G F → Bool) (xs : EventTable G F)
      → DistinctIds xs
      → select_where q (order_by newest_first xs) ≡ order_by newest_first (select_where q xs)
  unfolding select_where order_by
  select_where-order_by q [] d = refl
  select_where-order_by q (x ∷ xs) d =
      select_where-insert_by q x (order_by newest_first xs) (order_by-All newest_first _ xs d.0)
        (order_by-Strict xs d.1)
      ∙ elim (Bool-cases (q x)) [
        | inl e ↦ rw e (ap (insert_by newest_first x) (select_where-order_by q xs d.1))
        | inr e ↦ rw e (select_where-order_by q xs d.1)
      ]

  -- What stands before a row in the strict order does not come after it.
  pub select_where-behind :
      (xs : EventTable G F) (a : HazardEvent G F) (ys : EventTable G F)
      → Strict (xs ++ a ∷ ys)
      → select_where (newest_first a) (xs ++ a ∷ ys) ≡ ys
  unfolding select_where
  select_where-behind [] a ys h =
      rw (newest_first_irrefl a) (select_where_same (newest_first a) ys h.0)
  select_where-behind (x ∷ xs) a ys h =
      rw (newest_first_asym x a (All-middle _ xs a ys h.0)) (select_where-behind xs a ys h.1)
