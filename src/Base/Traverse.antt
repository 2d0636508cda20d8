-- ===== src/Base/Traverse.antt =====
-- The comprehension [f(x) for x in xs] of an f that may raise.
use mathlib.Core.Option
use geo_hazard.Base.{
  suc, ◌≡◌, refl, sym, ap, ◌∙◌, Option, none, some, some_inj, none_ne_some, List, [], ◌∷◌, ◌++◌,
  length,
}

module _ {B : Type 0} where
  abbrev put : Option B → Option (List B) → Option (List B)
  put none r = none
  put (some y) r = Option.map (λ ys. y ∷ ys) r

  -- The results of two lists, one after the other.
  abbrev pub appended : Option (List B) → Option (List B) → Option (List B)
  appended none r = none
  appended (some ys) r = Option.map (λ zs. ys ++ zs) r

  put-appended :
      (y : Option B) (o r : Option (List B)) → put y (appended o r) ≡ appended (put y o) r
  put-appended none o r = refl
  put-appended (some y) none r = refl
  put-appended (some y) (some ys) none = refl
  put-appended (some y) (some ys) (some zs) = refl

  pub appended-none : (o : Option (List B)) → appended o none ≡ none
  appended-none none = refl
  appended-none (some ys) = refl

  appended_nil : (r : Option (List B)) → r ≡ appended (some []) r
  appended_nil none = refl
  appended_nil (some zs) = refl

  put_parts :
      (y : Option B) (o : Option (List B)) {ys : List B}
      → put y o ≡ some ys
      → (zs : List B) × (o ≡ some zs) × (length ys ≡ suc (length zs))
  put_parts none o h = absurd (none_ne_some h)
  put_parts (some y) none h = absurd (none_ne_some h)
  put_parts (some y) (some zs) h = (zs, refl, ap length (sym (some_inj h)))

module _ {A B : Type 0} (f : A → Option B) where
  -- f of every element in its order, or `none` where it is `none` of one.
  unfoldable pub all_of : List A → Option (List B)
  all_of [] = some []
  all_of (x ∷ xs) = put (f x) (all_of xs)

  pub all_of-append : (xs ys : List A) → all_of (xs ++ ys) ≡ appended (all_of xs) (all_of ys)
  unfolding all_of
  all_of-append [] ys = appended_nil (all_of ys)
  all_of-append (x ∷ xs) ys =
      ap (put (f x)) (all_of-append xs ys) ∙ put-appended (f x) (all_of xs) (all_of ys)

  pub length-all_of : (xs : List A) {ys : List B} → all_of xs ≡ some ys → length ys ≡ length xs
  unfolding all_of
  length-all_of [] h = ap length (sym (some_inj h))
  length-all_of (x ∷ xs) {ys} h =
      let (zs, e, one_more) = put_parts (f x) (all_of xs) h in
      one_more ∙ ap suc (length-all_of xs e)
