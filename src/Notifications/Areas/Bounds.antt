-- ===== src/Notifications/Areas/Bounds.antt =====
-- The areas that the command line accepts.
use Prim.Native.String.{String}
use geo_hazard.Base.{
  ℕ, ◌≤◌, ◌≡◌, subst, true, ◌&&◌, Option, none, some, List, [], ◌∷◌, arith, leb, ◌==◌, length,
  if◌then◌else◌, split,
}
use geo_hazard.Base.Floats.{Floats}
use geo_hazard.Base.Results.{ok, error_ne_ok, ok_inj, guard_parts, and_then_parts}
use geo_hazard.Notifications.Areas.{
  AreaSpec, province, bbox, circle, is_province_code, degrees, province_area, validate_bbox,
  read_all, parse_bbox, bbox_area, circle_area, area_of, box_of, circle_with, circle_of,
  is_coordinate, is_span, min_radius_m, max_radius_m,
}

module _ {F : Type 0} (fl : Floats F) where
  -- A longitude or a latitude.
  abbrev IsWithin : ℕ → F → Type 0
  IsWithin limit x =
      (fl.le (fl.minus (degrees fl limit)) x ≡ true) × (fl.le x (degrees fl limit) ≡ true)

  -- What each kind of area promises: the code of a province, a rectangle between its corners, a
  -- circle around a place with a radius of 1 to 200 km.
  pub InBounds : AreaSpec F → Type 0
  InBounds (province code) = is_province_code code ≡ true
  InBounds (bbox a b c d) =
      (fl.le (fl.minus (degrees fl 180)) a ≡ true)
      × (fl.lt a c ≡ true)
      × (fl.le c (degrees fl 180) ≡ true)
      × (fl.le (fl.minus (degrees fl 90)) b ≡ true)
      × (fl.lt b d ≡ true)
      × (fl.le d (degrees fl 90) ≡ true)
  InBounds (circle lon lat radius_m) =
      (IsWithin 180 lon × IsWithin 90 lat) × ((1000 ≤ radius_m) × (radius_m ≤ 200000))

  InBounds-province : (code : String) {a : AreaSpec F} → province_area code ≡ ok a → InBounds a
  unfolding province_area InBounds
  InBounds-province code h =
      let (x, e) = guard_parts (is_province_code code) _ _ h in subst InBounds (ok_inj e) x

  InBounds-box :
      (o : Option (List F)) {b : F × F × F × F}
      → box_of fl o ≡ ok b
      → InBounds (bbox b.0 b.1 b.2 b.3)
  unfolding validate_bbox InBounds
  InBounds-box none h = absurd (error_ne_ok h)
  InBounds-box (some []) h = absurd (error_ne_ok h)
  InBounds-box (some (a ∷ [])) h = absurd (error_ne_ok h)
  InBounds-box (some (a ∷ b ∷ [])) h = absurd (error_ne_ok h)
  InBounds-box (some (a ∷ b ∷ c ∷ [])) h = absurd (error_ne_ok h)
  InBounds-box (some (a ∷ b ∷ c ∷ d ∷ e ∷ xs)) h = absurd (error_ne_ok h)
  InBounds-box (some (a ∷ b ∷ c ∷ d ∷ [])) h =
      let (x, k) =
        guard_parts (is_span fl (fl.minus (degrees fl 180)) (degrees fl 180) a c) _ _ h in
      let (y, e) = guard_parts (is_span fl (fl.minus (degrees fl 90)) (degrees fl 90) b d) _ _ k in
      subst (λ b. InBounds (bbox b.0 b.1 b.2 b.3)) {x = (a, b, c, d)} (ok_inj e)
        (ground (arith, x, y))

  InBounds-bbox : (raw : String) {a : AreaSpec F} → bbox_area fl raw ≡ ok a → InBounds a
  unfolding bbox_area parse_bbox
  InBounds-bbox raw h =
      let (b, x, e) = and_then_parts (parse_bbox fl raw) _ h in
      let (n, k) = guard_parts (length (split b',' raw) == 4) _ _ x in
      subst InBounds (ok_inj e) (InBounds-box (read_all fl (split b',' raw)) k)

  InBounds-radius :
      (lon lat : F) (o : Option ℕ) {a : AreaSpec F}
      → IsWithin 180 lon × IsWithin 90 lat
      → circle_with fl lon lat o ≡ ok a
      → InBounds a
  unfolding InBounds
  InBounds-radius lon lat none w h = absurd (error_ne_ok h)
  InBounds-radius lon lat (some r) w h =
      let (x, e) = guard_parts (leb min_radius_m r && leb r max_radius_m) _ _ h in
      subst InBounds (ok_inj e) (w, ground (arith, x))

  InBounds-circle_of :
      (metres : F → Option ℕ) (o : Option (List F)) {a : AreaSpec F}
      → circle_of fl metres o ≡ ok a
      → InBounds a
  InBounds-circle_of metres none h = absurd (error_ne_ok h)
  InBounds-circle_of metres (some []) h = absurd (error_ne_ok h)
  InBounds-circle_of metres (some (a ∷ [])) h = absurd (error_ne_ok h)
  InBounds-circle_of metres (some (a ∷ b ∷ [])) h = absurd (error_ne_ok h)
  InBounds-circle_of metres (some (a ∷ b ∷ c ∷ d ∷ xs)) h = absurd (error_ne_ok h)
  InBounds-circle_of metres (some (lon ∷ lat ∷ km ∷ [])) h =
      let (x, k) = guard_parts (is_coordinate fl 180 lon && is_coordinate fl 90 lat) _ _ h in
      InBounds-radius lon lat (if fl.is_finite km then metres km else none) (ground (arith, x)) k

  -- An area that the command line accepts is in its bounds, whichever of the options gives it.
  pub area_of-InBounds :
      (metres : F → Option ℕ) (code box : Option String) (raw : String) {a : AreaSpec F}
      → area_of fl metres code box raw ≡ ok a
      → InBounds a
  unfolding area_of circle_area
  area_of-InBounds metres (some code) box raw h = InBounds-province code h
  area_of-InBounds metres none (some box) raw h = InBounds-bbox box h
  area_of-InBounds metres none none raw h =
      let (n, k) = guard_parts (length (split b',' raw) == 3) _ _ h in
      InBounds-circle_of metres (read_all fl (split b',' raw)) k
