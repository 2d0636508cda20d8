-- ===== src/Parsers/Effis/Vertices.antt =====
-- The coordinates that a parsed record carries.
use geo_hazard.Base.{
  ◌≡◌, refl, sym, subst, Bool, true, false, Option, none, some, str_eq, if◌then◌else◌,
}
use geo_hazard.Base.Json.{Json, null, bool, number, text, array, object, Items, nil, cons}
use geo_hazard.Base.Floats.{Floats}
use geo_hazard.Parsers.{Entry, accepted, skipped, aborted}
use geo_hazard.Parsers.Effis.{
  numeric, is_place, vertex_with, vertex, pairs_with, with_part, array_of, swap_pairs, swap_parts,
}

pub skipped_ne_accepted : {A : Type 0} {a : A} → ◌≡◌ {A = Entry A} skipped (accepted a) → ⊥
skipped_ne_accepted h = cc

pub aborted_ne_accepted : {A : Type 0} {a : A} → ◌≡◌ {A = Entry A} aborted (accepted a) → ⊥
aborted_ne_accepted h = cc

pub accepted_inj : {A : Type 0} {a b : A} → ◌≡◌ {A = Entry A} (accepted a) (accepted b) → a ≡ b
accepted_inj h = cc

pub place_parts :
    {A : Type 0} (b : Bool) {a d : A}
    → ◌≡◌ {A = Entry A} (if b then accepted a else skipped) (accepted d)
    → (b ≡ true) × (a ≡ d)
place_parts true h = (refl, accepted_inj h)
place_parts false h = absurd (skipped_ne_accepted h)

text_never :
    {A : Type 0} (b : Bool) {d : A}
    → ◌≡◌ {A = Entry A} (if b then skipped else aborted) (accepted d)
    → ⊥
text_never true h = skipped_ne_accepted h
text_never false h = aborted_ne_accepted h

module _ {F : Type 0} (fl : Floats F) where
  -- A pair [lon, lat] of numbers in their ranges.
  pub IsVertex : Json F → Type 0
  IsVertex c =
      (lon : Json F) × (lat : Json F) × (x : F) × (y : F) × (c ≡ array (cons lon (cons lat nil)))
      × (numeric fl lon ≡ some x)
      × (numeric fl lat ≡ some y)
      × (is_place fl y x ≡ true)

  -- Lists of any depth, not empty, of such pairs.
  mutual
    pub data IsCoordinates : Json F → Type 0 where
      leaf : (c : Json F) → IsVertex c → IsCoordinates c
      parts :
          (v : Json F) (vs : Items F)
          → IsCoordinates v
          → AllCoordinates vs
          → IsCoordinates (array (cons v vs))

    pub data AllCoordinates : Items F → Type 0 where
      none_left : AllCoordinates nil
      and_part :
          (v : Json F) (vs : Items F)
          → IsCoordinates v
          → AllCoordinates vs
          → AllCoordinates (cons v vs)

  vertex_with-IsVertex :
      (first second : Json F) (lat : F) (o : Option F) {d : Json F}
      → numeric fl first ≡ some lat
      → numeric fl second ≡ o
      → vertex_with fl first lat second o ≡ accepted d
      → IsVertex d
  unfolding IsVertex
  vertex_with-IsVertex first second lat none n m h = absurd (skipped_ne_accepted h)
  vertex_with-IsVertex first second lat (some lon) n m h =
      let (x, e) = place_parts (is_place fl lat lon) h in (second, first, lon, lat, sym e, m, n, x)

  vertex-IsVertex :
      (first : Json F) (lat : F) (vs : Items F) {d : Json F}
      → numeric fl first ≡ some lat
      → vertex fl first lat vs ≡ accepted d
      → IsVertex d
  vertex-IsVertex first lat nil n h = absurd (skipped_ne_accepted h)
  vertex-IsVertex first lat (cons second vs) n h =
      vertex_with-IsVertex first second lat (numeric fl second) n refl h

  array_of-parts :
      (e : Entry (Json F)) (es : Entry (Items F)) {d : Json F}
      → ((v : Json F) → e ≡ accepted v → IsCoordinates v)
      → ((vs : Items F) → es ≡ accepted vs → AllCoordinates vs)
      → array_of (with_part e es) ≡ accepted d
      → IsCoordinates d
  array_of-parts skipped es p q h = absurd (skipped_ne_accepted h)
  array_of-parts aborted es p q h = absurd (aborted_ne_accepted h)
  array_of-parts (accepted v) skipped p q h = absurd (skipped_ne_accepted h)
  array_of-parts (accepted v) aborted p q h = absurd (aborted_ne_accepted h)
  array_of-parts (accepted v) (accepted vs) p q h =
      subst IsCoordinates (accepted_inj h) (parts v vs (p v refl) (q vs refl))

  with_part-AllCoordinates :
      (e : Entry (Json F)) (es : Entry (Items F)) {ds : Items F}
      → ((v : Json F) → e ≡ accepted v → IsCoordinates v)
      → ((vs : Items F) → es ≡ accepted vs → AllCoordinates vs)
      → with_part e es ≡ accepted ds
      → AllCoordinates ds
  with_part-AllCoordinates skipped es p q h = absurd (skipped_ne_accepted h)
  with_part-AllCoordinates aborted es p q h = absurd (aborted_ne_accepted h)
  with_part-AllCoordinates (accepted v) skipped p q h = absurd (skipped_ne_accepted h)
  with_part-AllCoordinates (accepted v) aborted p q h = absurd (aborted_ne_accepted h)
  with_part-AllCoordinates (accepted v) (accepted vs) p q h =
      subst AllCoordinates (accepted_inj h) (and_part v vs (p v refl) (q vs refl))

  pairs_with-IsCoordinates :
      (v : Json F) (vs : Items F) (o : Option F) (e : Entry (Json F)) (es : Entry (Items F))
      {d : Json F}
      → numeric fl v ≡ o
      → ((v : Json F) → e ≡ accepted v → IsCoordinates v)
      → ((vs : Items F) → es ≡ accepted vs → AllCoordinates vs)
      → pairs_with fl v vs o (with_part e es) ≡ accepted d
      → IsCoordinates d
  pairs_with-IsCoordinates v vs (some lat) e es n p q h = leaf _ (vertex-IsVertex v lat vs n h)
  pairs_with-IsCoordinates v vs none e es n p q h = array_of-parts e es p q h

  mutual
    unfolding swap_pairs

    -- What the swap gives is made of pairs [lon, lat] in their ranges, at any depth.
    pub swap_pairs-IsCoordinates :
        (c : Json F) {d : Json F} → swap_pairs fl c ≡ accepted d → IsCoordinates d
    swap_pairs-IsCoordinates (text s) h = absurd (text_never (str_eq s "") h)
    swap_pairs-IsCoordinates (array nil) h = absurd (skipped_ne_accepted h)
    swap_pairs-IsCoordinates (array (cons v vs)) h =
        pairs_with-IsCoordinates v vs (numeric fl v) (swap_pairs fl v) (swap_parts fl vs) refl
          (λ d e. swap_pairs-IsCoordinates v e) (λ ds e. swap_parts-AllCoordinates vs e) h
    swap_pairs-IsCoordinates null h = absurd (skipped_ne_accepted h)
    swap_pairs-IsCoordinates (bool b) h = absurd (skipped_ne_accepted h)
    swap_pairs-IsCoordinates (number x) h = absurd (skipped_ne_accepted h)
    swap_pairs-IsCoordinates (object fs) h = absurd (skipped_ne_accepted h)

    swap_parts-AllCoordinates :
        (vs : Items F) {ds : Items F} → swap_parts fl vs ≡ accepted ds → AllCoordinates ds
    swap_parts-AllCoordinates nil h = subst AllCoordinates (accepted_inj h) none_left
    swap_parts-AllCoordinates (cons v vs) h =
        with_part-AllCoordinates (swap_pairs fl v) (swap_parts fl vs)
          (λ d e. swap_pairs-IsCoordinates v e) (λ ds e. swap_parts-AllCoordinates vs e) h
