-- ===== src/Settings/Valid.antt =====
-- What settings that start the program satisfy.
use geo_hazard.Base.{
  ◌*◌, ◌≤◌, ◌⊎◌, String, ◌≡◌, refl, sym, subst, ◌∙◌, Bool, true, false, Option, none, some, List,
  [], ◌∷◌, All, split, str_eq, eq_iff, and_parts, arith, if◌then◌else◌,
}
use geo_hazard.Base.Results.{error, ok, and_then_parts, ok_inj, error_ne_ok, guard_parts}
use geo_hazard.Base.Floats.{Floats}
use geo_hazard.Notifications.Areas.{is_span, degrees, read_all}
use geo_hazard.Settings.{
  Settings, build_database_url, validate_lease_invariant, validate_notifications_budget, is_driver,
  check_drivers, drivers_of, check_api_key, validate_drivers, check_bbox, validate_effis_bbox,
  validate,
}

abbrev pub IsDriver : String → Type 0
IsDriver value = (value ≡ "fake") ⊎ (value ≡ "http")

-- The real client of AEMET has a key.
abbrev pub HasKey : {F : Type 0} → Settings F → Type 0
HasKey x = (str_eq x.aemet_driver "http" ≡ false) ⊎ (str_eq x.aemet_api_key "" ≡ false)

module _ {F : Type 0} (fl : Floats F) (plus : F → F → F) where
  -- The sum of the budget of the delivery job and of the time of one sending does not reach the
  -- timeout of a handler. Of a NaN that is true.
  abbrev pub Affordable : Settings F → Type 0
  Affordable x =
      fl.le (fl.tenths (x.job_handler_timeout_seconds * 10))
        (plus x.notifications_deliver_budget_seconds x.notifications_http_timeout_seconds)
      ≡ false

  -- A text of four numbers that are a box within the ranges.
  abbrev pub IsBox : String → Type 0
  IsBox raw =
      (min_lon min_lat max_lon max_lat : F) × (read_all fl (split b',' raw)
        ≡ some (min_lon ∷ min_lat ∷ max_lon ∷ max_lat ∷ []))
      × (is_span fl (fl.minus (degrees fl 180)) (degrees fl 180) min_lon max_lon ≡ true)
      × (is_span fl (fl.minus (degrees fl 90)) (degrees fl 90) min_lat max_lat ≡ true)

  abbrev pub IsValid : Settings F → Type 0
  IsValid x =
      (2 * x.job_handler_timeout_seconds ≤ x.job_lease_seconds)
      × Affordable x
      × IsDriver x.effis_driver
      × IsDriver x.ign_driver
      × IsDriver x.aemet_driver
      × IsDriver x.notifications_driver
      × HasKey x
      × IsBox x.effis_bbox

-- What a guard that raises has let through.
refuse_parts :
    {F : Type 0} (b : Bool) (e : String) (x : Settings F) {y : Settings F}
    → (if b then error e else ok x) ≡ ok y
    → (b ≡ false) × (x ≡ y)
refuse_parts true e x h = absurd (error_ne_ok h)
refuse_parts false e x h = (refl, ok_inj h)

lease_parts :
    {F : Type 0} (x : Settings F) {y : Settings F}
    → validate_lease_invariant x ≡ ok y
    → (2 * x.job_handler_timeout_seconds ≤ x.job_lease_seconds) × (x ≡ y)
unfolding validate_lease_invariant
lease_parts x h = let parts = refuse_parts _ _ x h in (ground (arith, parts.0), parts.1)

budget_parts :
    {F : Type 0} (fl : Floats F) (plus : F → F → F) (x : Settings F) {y : Settings F}
    → validate_notifications_budget fl plus x ≡ ok y
    → Affordable fl plus x × (x ≡ y)
unfolding validate_notifications_budget
budget_parts fl plus x h = refuse_parts _ _ x h

is_driver-IsDriver : (value : String) → is_driver value ≡ true → IsDriver value
is_driver-IsDriver value h = ground (arith, h, eq_iff value "fake", eq_iff value "http")

drivers_parts :
    {F : Type 0} (repr : String → String) (ds : List (String × String)) (x : Settings F)
    {y : Settings F}
    → check_drivers repr ds x ≡ ok y
    → All (λ d. IsDriver d.1) ds × (x ≡ y)
unfolding check_drivers
drivers_parts repr [] x h = (tt, ok_inj h)
drivers_parts repr ((name, value) ∷ ds) x h =
    let parts = guard_parts (is_driver value) _ _ h in
    let rest = drivers_parts repr ds x parts.1 in
    ((is_driver-IsDriver value parts.0, rest.0), rest.1)

key_parts :
    {F : Type 0} (x : Settings F) {y : Settings F} → check_api_key x ≡ ok y → HasKey x × (x ≡ y)
key_parts x h = let parts = refuse_parts _ _ x h in (ground (arith, parts.0), parts.1)

module _ {F : Type 0} (fl : Floats F) (plus : F → F → F) (repr : String → String) where
  bbox_parts :
      (x : Settings F) (o : Option (List F)) {y : Settings F}
      → read_all fl (split b',' x.effis_bbox) ≡ o
      → check_bbox fl plus repr x o ≡ ok y
      → IsBox fl plus x.effis_bbox × (x ≡ y)
  bbox_parts x none e h = absurd (error_ne_ok h)
  bbox_parts x (some []) e h = absurd (error_ne_ok h)
  bbox_parts x (some (a ∷ [])) e h = absurd (error_ne_ok h)
  bbox_parts x (some (a ∷ b ∷ [])) e h = absurd (error_ne_ok h)
  bbox_parts x (some (a ∷ b ∷ c ∷ [])) e h = absurd (error_ne_ok h)
  bbox_parts x (some (a ∷ b ∷ c ∷ d ∷ [])) e h =
      let parts = guard_parts _ _ _ h in
      let spans =
        and_parts (is_span fl (fl.minus (degrees fl 180)) (degrees fl 180) a c) _ parts.0 in
      ((a, b, c, d, e, spans.0, spans.1), ok_inj parts.1)
  bbox_parts x (some (a ∷ b ∷ c ∷ d ∷ v ∷ vs)) e h = absurd (error_ne_ok h)

  -- Settings with which the program starts are the given ones with the URL of the database, and are
  -- valid: a lease covers two timeouts of a handler, the sum of the budget of the delivery
  -- job and of the time of one sending does not reach the timeout, which is true of a NaN, every driver is a known one, the client of AEMET has a key
  -- where it is the real one, and the box of EFFIS is four numbers within their ranges.
  pub validate-IsValid :
      (x : Settings F) {y : Settings F}
      → validate fl plus repr x ≡ ok y
      → (y ≡ build_database_url x) × IsValid fl plus y
  unfolding validate validate_drivers validate_effis_bbox
  validate-IsValid x {y} h =
      let (one, h1, r1) = and_then_parts (validate_lease_invariant (build_database_url x)) _ h in
      let (lease, e1) = lease_parts (build_database_url x) h1 in
      let (two, h2, r2) = and_then_parts (validate_notifications_budget fl plus one) _ r1 in
      let (budget, e2) = budget_parts fl plus one h2 in
      let (three, h3, r3) = and_then_parts (validate_drivers repr two) _ r2 in
      let (four, h4, r4) = and_then_parts (check_drivers repr (drivers_of two) two) _ h3 in
      let (drivers, e4) = drivers_parts repr (drivers_of two) two h4 in
      let (key, e3) = key_parts four r4 in
      let (box, e5) = bbox_parts three _ refl r3 in
      let from_four = e3 ∙ e5 in
      let from_two = e4 ∙ from_four in
      let from_one = e2 ∙ from_two in
      (
        sym (e1 ∙ from_one),
        (
          subst (λ x. 2 * x.job_handler_timeout_seconds ≤ x.job_lease_seconds) (e1 ∙ from_one)
              lease,
          subst (Affordable fl plus) from_one budget,
          subst (λ x. IsDriver x.effis_driver) from_two drivers.0,
          subst (λ x. IsDriver x.ign_driver) from_two drivers.1.0,
          subst (λ x. IsDriver x.aemet_driver) from_two drivers.1.1.0,
          subst (λ x. IsDriver x.notifications_driver) from_two drivers.1.1.1.0,
          subst HasKey from_four key,
          subst (λ x. IsBox fl plus x.effis_bbox) e5 box,
        ),
      )
