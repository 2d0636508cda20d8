-- ===== src/Parsers/Effis/Records.antt =====
-- What every record of an EFFIS feed that was parsed has.
use Prim.Native.String.{String}
use geo_hazard.Base.{
  ◌≡◌, refl, sym, subst, Bool, true, false, not, ◌||◌, Option, none, some, List, All, arith,
  if◌then◌else◌, some_inj, none_ne_some,
}
use geo_hazard.Base.Json.{Json, object, field, end, at_key}
use geo_hazard.Sync.Effis.{EffisRecord, kind_hotspot, kind_burnt_area}
use geo_hazard.Parsers.{parsed, protocol_error, Entry, accepted, skipped, aborted}
use geo_hazard.Parsers.Feeds.{parse_entries-All, error_ne_parsed, crashed_ne_parsed}
use geo_hazard.Parsers.Effis.{
  EffisLibraries, parse_hotspots, parse_burnt_areas, float_of, or_skip, and_geometry, typed,
  swap_pairs, swap_axes, moment_of, area_of, hotspot_of, burnt_area_of, parse_feature, parse,
  parse_features, sequence_of, features_of,
}
use geo_hazard.Parsers.Effis.Vertices.{
  IsCoordinates, swap_pairs-IsCoordinates, skipped_ne_accepted, aborted_ne_accepted, accepted_inj,
}

kept_parts :
    {A : Type 0} (b : Bool) {a a' : A}
    → ◌≡◌ {A = Option A} (if b then none else some a) (some a')
    → (b ≡ false) × (a ≡ a')
kept_parts true h = absurd (none_ne_some h)
kept_parts false h = (refl, some_inj h)

module _ {F : Type 0} where
  or_skip_parts :
      {A : Type 0} (o : Option A) (k : A → Entry (EffisRecord F)) {r : EffisRecord F}
      → or_skip o k ≡ accepted r
      → (a : A) × (o ≡ some a) × (k a ≡ accepted r)
  or_skip_parts none k h = absurd (skipped_ne_accepted h)
  or_skip_parts (some a) k h = (a, refl, h)

  and_geometry_parts :
      (e : Entry (Json F)) (k : Json F → Entry (EffisRecord F)) {r : EffisRecord F}
      → and_geometry e k ≡ accepted r
      → (g : Json F) × (e ≡ accepted g) × (k g ≡ accepted r)
  and_geometry_parts aborted k h = absurd (aborted_ne_accepted h)
  and_geometry_parts skipped k h = absurd (skipped_ne_accepted h)
  and_geometry_parts (accepted g) k h = (g, refl, h)

  guarded :
      (b : Bool) (e : Entry (EffisRecord F)) {r : EffisRecord F}
      → (if b then e else skipped) ≡ accepted r
      → e ≡ accepted r
  guarded true e h = h
  guarded false e h = absurd (skipped_ne_accepted h)

module _ {F : Type 0} (lib : EffisLibraries F) where
  -- A geometry of pairs [lon, lat] in their ranges.
  pub IsPlaced : Json F → Type 0
  IsPlaced g =
      (kind : Json F) × (c : Json F) × (g ≡ object (field "type" kind (field "coordinates" c end)))
      × IsCoordinates lib.floats c

  typed-IsPlaced :
      (kind : Json F) (e : Entry (Json F)) {g : Json F}
      → ((c : Json F) → e ≡ accepted c → IsCoordinates lib.floats c)
      → typed kind e ≡ accepted g
      → IsPlaced g
  unfolding IsPlaced
  typed-IsPlaced kind (accepted c) p h = (kind, c, sym (accepted_inj h), p c refl)
  typed-IsPlaced kind skipped p h = absurd (skipped_ne_accepted h)
  typed-IsPlaced kind aborted p h = absurd (aborted_ne_accepted h)

  swapped :
      (o p : Option (Json F)) {g : Json F}
      → elim o [
        | none ↦ skipped
        | some kind ↦ elim p [ none ↦ skipped | some c ↦ typed kind (swap_pairs lib.floats c) ]
      ]
        ≡ accepted g
      → IsPlaced g
  swapped none p h = absurd (skipped_ne_accepted h)
  swapped (some kind) none h = absurd (skipped_ne_accepted h)
  swapped (some kind) (some c) h =
      typed-IsPlaced kind (swap_pairs lib.floats c) (λ d e. swap_pairs-IsCoordinates lib.floats c e)
        h

  swap_axes-IsPlaced :
      (geometry : Json F) {g : Json F} → swap_axes lib geometry ≡ accepted g → IsPlaced g
  unfolding swap_axes
  swap_axes-IsPlaced geometry h = swapped (at_key "type" geometry) (at_key "coordinates" geometry) h

  -- No area, or a finite one that is not negative.
  pub HasArea : Option F → Type 0
  HasArea none = Unit {0}
  HasArea (some a) =
      (lib.floats.is_finite a ≡ true) × (lib.floats.lt a (lib.floats.tenths 0) ≡ false)

  -- What the syncs rely on.
  pub IsSound : String → EffisRecord F → Type 0
  IsSound kind r = (r.kind ≡ kind) × IsPlaced r.geometry × HasArea r.area_ha

  area_with-HasArea :
      (o : Option F) {a : F}
      → elim o [
        | none ↦ none
        | some a ↦
            if not (lib.floats.is_finite a) || lib.floats.lt a (lib.floats.tenths 0)
            then none
            else some a
      ]
        ≡ some a
      → HasArea (some a)
  unfolding HasArea
  area_with-HasArea none h = absurd (none_ne_some h)
  area_with-HasArea (some a) h =
      let (x, e) =
        kept_parts (not (lib.floats.is_finite a) || lib.floats.lt a (lib.floats.tenths 0)) h in
      subst (λ a. HasArea (some a)) e (ground (arith, x))

  area_of-HasArea : (v : Json F) {a : F} → area_of lib v ≡ some a → HasArea (some a)
  unfolding HasArea
  area_of-HasArea v h = area_with-HasArea (float_of lib v) h

  hotspot-IsSound :
      (properties geometry : Json F) {r : EffisRecord F}
      → hotspot_of lib properties geometry ≡ accepted r
      → IsSound kind_hotspot r
  unfolding IsSound HasArea
  hotspot-IsSound properties geometry h =
      let (kind, a, h₁) = or_skip_parts (at_key "type" geometry) _ h in
      let h₂ = guarded _ _ h₁ in
      let (id, b, h₃) = or_skip_parts (at_key "id" properties) _ h₂ in
      let (g, c, h₄) = and_geometry_parts (swap_axes lib geometry) _ h₃ in
      let (acq_at, d, h₅) = or_skip_parts (at_key "acq_at" properties) _ h₄ in
      let (at, e, h₆) = or_skip_parts (moment_of lib acq_at) _ h₅ in
      subst (IsSound kind_hotspot) (accepted_inj h₆) (refl, swap_axes-IsPlaced geometry c, tt)

  burnt_area-IsSound :
      (properties geometry : Json F) {r : EffisRecord F}
      → burnt_area_of lib properties geometry ≡ accepted r
      → IsSound kind_burnt_area r
  unfolding IsSound
  burnt_area-IsSound properties geometry h =
      let (kind, a, h₁) = or_skip_parts (at_key "type" geometry) _ h in
      let h₂ = guarded _ _ h₁ in
      let (area, b, h₃) = or_skip_parts (at_key "area" properties) _ h₂ in
      let (area_ha, b', h₃') = or_skip_parts (area_of lib area) _ h₃ in
      let (id, b'', h₃'') = or_skip_parts (at_key "fire_id" properties) _ h₃' in
      let (g, c, h₄) = and_geometry_parts (swap_axes lib geometry) _ h₃'' in
      let (date, d, h₅) = or_skip_parts (at_key "initialdate" properties) _ h₄ in
      let (at, e, h₆) = or_skip_parts (moment_of lib date) _ h₅ in
      subst (IsSound kind_burnt_area) (accepted_inj h₆)
        (refl, swap_axes-IsPlaced geometry c, area_of-HasArea area b')

  hotspot_feature :
      (feature : Json F) (r : EffisRecord F)
      → parse_feature lib kind_hotspot feature ≡ accepted r
      → IsSound kind_hotspot r
  unfolding parse_feature
  hotspot_feature feature r h =
      let (properties, a, h₁) = or_skip_parts (at_key "properties" feature) _ h in
      let (geometry, b, h₂) = or_skip_parts (at_key "geometry" feature) _ h₁ in
      hotspot-IsSound properties geometry h₂

  burnt_area_feature :
      (feature : Json F) (r : EffisRecord F)
      → parse_feature lib kind_burnt_area feature ≡ accepted r
      → IsSound kind_burnt_area r
  unfolding parse_feature
  burnt_area_feature feature r h =
      let (properties, a, h₁) = or_skip_parts (at_key "properties" feature) _ h in
      let (geometry, b, h₂) = or_skip_parts (at_key "geometry" feature) _ h₁ in
      burnt_area-IsSound properties geometry h₂

  features-IsSound :
      (kind : String) (o : Option (List (Json F))) {rs : List (EffisRecord F)}
      → ((feature : Json F) (r : EffisRecord F)
          → parse_feature lib kind feature ≡ accepted r
          → IsSound kind r)
      → parse_features lib kind o ≡ parsed rs
      → All (IsSound kind) rs
  features-IsSound kind none p h = absurd (crashed_ne_parsed h)
  features-IsSound kind (some features) p h =
      parse_entries-All (IsSound kind) (parse_feature lib kind) p _ features h

  document-IsSound :
      (kind : String) (o : Option (Json F)) {rs : List (EffisRecord F)}
      → ((feature : Json F) (r : EffisRecord F)
          → parse_feature lib kind feature ≡ accepted r
          → IsSound kind r)
      → elim o [
        | none ↦ protocol_error "unparseable EFFIS WFS response"
        | some features ↦ parse_features lib kind (sequence_of lib features)
      ]
        ≡ parsed rs
      → All (IsSound kind) rs
  document-IsSound kind none p h = absurd (error_ne_parsed h)
  document-IsSound kind (some features) p h = features-IsSound kind (sequence_of lib features) p h

  -- Every record of a feed of hotspots that was parsed, and of a feed of burnt areas, has the kind
  -- of the feed, a geometry of pairs [lon, lat] of finite numbers in their ranges at any depth, and
  -- an area that is finite and not negative where it has one.
  pub parse-IsSound :
      (payload payload' : String) {hotspots burnt_areas : List (EffisRecord F)}
      → parse_hotspots lib payload ≡ parsed hotspots
      → parse_burnt_areas lib payload' ≡ parsed burnt_areas
      → All (IsSound kind_hotspot) hotspots × All (IsSound kind_burnt_area) burnt_areas
  unfolding parse_hotspots parse_burnt_areas parse
  parse-IsSound payload payload' h k = (
    document-IsSound kind_hotspot (features_of lib (lib.loads payload)) hotspot_feature h,
    document-IsSound kind_burnt_area (features_of lib (lib.loads payload')) burnt_area_feature k,
  )
