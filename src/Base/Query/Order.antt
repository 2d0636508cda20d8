-- ===== src/Base/Query/Order.antt =====
-- ORDER BY returns the same rows, in order.
use geo_hazard.Base.Tests.{Bool-cases}
use geo_hazard.Base.Lists.{All, All-map, All-take, All-behind, length, take, any}
use Prim.Native.Nat.{ℕ, zero, suc}
use geo_hazard.Base.Query.{insert_by, order_by}
use mathlib.Core.Path.{◌≡◌, refl, ◌∙◌, ap}
use mathlib.Core.Logic.{inl, inr}
use mathlib.Core.Bool.{Bool, true, false, ◌||◌}
use mathlib.Core.List.{List, [], ◌∷◌, ◌++◌, Perm}
use mathlib.Core.List.Perm
use native.Mathlib.Omega.{arith}

-- The laws of a strict order with ties.
pub record IsOrdering {ℓ} {A : Type ℓ} (before : A → A → Bool) : Type ℓ where
  pub asym : (a b : A) → before a b ≡ true → before b a ≡ false
  pub ties : (a b c : A) → before b a ≡ false → before c b ≡ false → before c a ≡ false

-- No row stands behind one that it should precede.
abbrev pub IsOrdered {ℓ} : {A : Type ℓ} → (A → A → Bool) → List A → Type ℓ
IsOrdered before [] = Unit
IsOrdered before (x ∷ xs) = All (λ y. before y x ≡ false) xs × IsOrdered before xs

module _ {ℓ} {A : Type ℓ} (before : A → A → Bool) where
  pub insert_by-All {κ} :
      (P : A → Type κ) (x : A) (xs : List A) → P x → All P xs → All P (insert_by before x xs)
  unfolding insert_by
  insert_by-All P x [] p h = (p, tt)
  insert_by-All P x (y ∷ ys) p h = ground (arith, insert_by-All P x ys p h.1)

  pub order_by-All {κ} : (P : A → Type κ) (xs : List A) → All P xs → All P (order_by before xs)
  unfolding order_by
  order_by-All P [] h = tt
  order_by-All P (x ∷ xs) h = insert_by-All P x _ h.0 (order_by-All P xs h.1)

  insert_by-All_inv {κ} :
      (P : A → Type κ) (x : A) (xs : List A) → All P (insert_by before x xs) → P x × All P xs
  unfolding insert_by
  insert_by-All_inv P x [] h = h
  insert_by-All_inv P x (y ∷ ys) h = ground (arith, insert_by-All_inv P x ys)

  pub order_by-All_inv {κ} : (P : A → Type κ) (xs : List A) → All P (order_by before xs) → All P xs
  unfolding order_by
  order_by-All_inv P [] h = tt
  order_by-All_inv P (x ∷ xs) h =
      let (p, rest) = insert_by-All_inv P x (order_by before xs) h in
      (p, order_by-All_inv P xs rest)

  insert_by-perm : (x : A) (xs : List A) → Perm (insert_by before x xs) (x ∷ xs)
  unfolding insert_by
  insert_by-perm x [] = Perm.rfl
  insert_by-perm x (y ∷ ys) = elim (Bool-cases (before y x)) [
    | inl e ↦ rw e (Perm.trans (Perm.cons y (insert_by-perm x ys)) (Perm.swap x y ys))
    | inr e ↦ rw e Perm.rfl
  ]

  -- ORDER BY loses no row and adds none.
  pub order_by-perm : (xs : List A) → Perm (order_by before xs) xs
  unfolding order_by
  order_by-perm [] = Perm.rfl
  order_by-perm (x ∷ xs) =
      Perm.trans (insert_by-perm x (order_by before xs)) (Perm.cons x (order_by-perm xs))

  module _ (o : IsOrdering before) where
    insert_by-IsOrdered :
        (x : A) (xs : List A) → IsOrdered before xs → IsOrdered before (insert_by before x xs)
    unfolding insert_by
    insert_by-IsOrdered x [] h = (tt, tt)
    insert_by-IsOrdered x (y ∷ ys) h = elim (Bool-cases (before y x)) [
      | inl e ↦ rw e (
        insert_by-All (λ z. before z y ≡ false) x ys (o.asym y x e) h.0,
        insert_by-IsOrdered x ys h.1,
      )
      | inr e ↦ rw e ((e, All-map _ _ ys (λ z k. o.ties x y z e k) h.0), h)
    ]

    pub order_by-IsOrdered : (xs : List A) → IsOrdered before (order_by before xs)
    unfolding order_by
    order_by-IsOrdered [] = tt
    order_by-IsOrdered (x ∷ xs) = insert_by-IsOrdered x _ (order_by-IsOrdered xs)

module _ {ℓ} {A : Type ℓ} (before : A → A → Bool) where
  length-insert_by : (x : A) (xs : List A) → length (insert_by before x xs) ≡ suc (length xs)
  unfolding insert_by
  length-insert_by x [] = refl
  length-insert_by x (y ∷ ys) = ground (arith, length-insert_by x ys)

  pub length-order_by : (xs : List A) → length (order_by before xs) ≡ length xs
  unfolding order_by
  length-order_by [] = refl
  length-order_by (x ∷ xs) = length-insert_by x (order_by before xs) ∙ ap suc (length-order_by xs)

  -- LIMIT keeps the order.
  pub take-IsOrdered : (n : ℕ) (xs : List A) → IsOrdered before xs → IsOrdered before (take n xs)
  take-IsOrdered zero xs h = tt
  take-IsOrdered (suc n) [] h = tt
  take-IsOrdered (suc n) (x ∷ xs) h = (All-take _ n xs h.0, take-IsOrdered n xs h.1)

module _ {ℓ} {A : Type ℓ} (p : A → Bool) (before : A → A → Bool) where
  any-insert_by : (x : A) (xs : List A) → any p (insert_by before x xs) ≡ (p x || any p xs)
  unfolding insert_by
  any-insert_by x [] = refl
  any-insert_by x (y ∷ ys) = ground (arith, any-insert_by x ys)

  pub any-order_by : (xs : List A) → any p (order_by before xs) ≡ any p xs
  unfolding order_by
  any-order_by [] = refl
  any-order_by (x ∷ xs) =
      any-insert_by x (order_by before xs) ∙ ap (λ b. p x || b) (any-order_by xs)

module _ {ℓ} {A : Type ℓ} (before : A → A → Bool) where
  -- In an ordered list no row of the back part should precede one of the front part.
  pub IsOrdered-behind :
      (xs ys : List A)
      → IsOrdered before (xs ++ ys)
      → All (λ x. All (λ y. before y x ≡ false) ys) xs
  IsOrdered-behind [] ys h = tt
  IsOrdered-behind (x ∷ xs) ys h =
      (All-behind (λ y. before y x ≡ false) xs ys h.0, IsOrdered-behind xs ys h.1)
