-- ===== src/Notifications/Matching/Joined.antt =====
-- The rows that the query of the matches joins, in words of their own, and the test of the query:
-- each says what the other does.
use geo_hazard.Base.{
  ◌≤◌, ◌<◌, ◌+◌, ◌⊎◌, ◌==◌, ◌||◌, ◌&&◌, not, ==_iff, eq_iff, leb, leb→le, le→leb, any, and_parts, ℕ,
  String, ◌≡◌, refl, sym, ap, ◌∙◌, Bool, true, true_ne_false, Option, none, some, is_none, List, [],
  ◌∷◌, In, Bool-cases, inl, inr, arith,
}
use geo_hazard.Base.Json.{Json, null, bool, number, text, array, object}
use geo_hazard.Base.Dict.{lookup}
use geo_hazard.Hazards.Model.{
  Source, effis, ign, aemet, same_source, same_source_iff, HazardType, same_type, same_type_iff,
  HazardEvent,
}
use geo_hazard.Notifications.Model.{SubscriptionStatus, active, paused, Subscription, is_active}
use geo_hazard.Notifications.Manage.{AreaKind, province_kind, bbox_kind, circle_kind, WatchArea}
use geo_hazard.Notifications.Matching.{
  Geography, is_text, is_province, is_after, is_touched, is_notifiable, in_code, area_contains,
  is_matched,
}

module _ {G F : Type 0} (geo : Geography G F) (source : Source) (batch_at quake_max_age : ℕ) where
  abbrev pub matched : Subscription → WatchArea F G → HazardEvent G F → Bool
  matched s area e = is_matched geo source batch_at quake_max_age s area e

  -- The event is to be announced: a warning of AEMET that ends after the batch, a burnt area of EFFIS
  -- that is still open, or an earthquake that is not older than the limit.
  abbrev pub IsCurrent : Source → HazardEvent G F → Type 0
  IsCurrent aemet e = (end : ℕ) × (e.ends_at ≡ some end) × (batch_at < end)
  IsCurrent effis e = (lookup "kind" e.attrs ≡ some (text "burnt_area")) × (e.ends_at ≡ none)
  IsCurrent ign e = batch_at ≤ e.starts_at + quake_max_age

  -- The event meets the area; in the area of a province it has the code of that besides.
  abbrev pub IsInside : WatchArea F G → HazardEvent G F → Type 0
  IsInside area e =
      (geo.intersects area.geom e.geom ≡ true)
      × (area.kind ≡ province_kind
          → (code : String) × (e.province_code ≡ some code)
            × (lookup "code" area.params ≡ some (text code)))

  abbrev pub IsJoined : Subscription → WatchArea F G → HazardEvent G F → Type 0
  IsJoined s area e =
      (s.status ≡ active)
      × In e.hazard_type s.hazard_types
      × (s.severity_min ≤ e.severity)
      × (area.id ≡ s.watch_area_id)
      × (e.source ≡ source)
      × ((e.created_at ≡ batch_at) ⊎ (e.updated_at ≡ some batch_at))
      × IsCurrent source e
      × IsInside area e

  is_active_lem : (x : SubscriptionStatus) → is_active x ≡ true → x ≡ active
  is_active_lem active h = refl
  is_active_lem paused h = absurd (true_ne_false (sym h))

  wanted : (t : HazardType) (ts : List HazardType) → any (same_type t) ts ≡ true → In t ts
  wanted t [] h = absurd (true_ne_false (sym h))
  wanted t (x ∷ ts) h = elim (Bool-cases (same_type t x)) [
    | inl e ↦ inl ((same_type_iff t x).0 e)
    | inr e ↦ inr (wanted t ts (sym (rw e refl) ∙ h))
  ]

  touched : (o : Option ℕ) → is_touched batch_at o ≡ true → o ≡ some batch_at
  touched none h = absurd (true_ne_false (sym h))
  touched (some at) h = ap some ((==_iff at batch_at).0 h)

  written :
      (e : HazardEvent G F)
      → (e.created_at == batch_at || is_touched batch_at e.updated_at) ≡ true
      → (e.created_at ≡ batch_at) ⊎ (e.updated_at ≡ some batch_at)
  written e h = elim (Bool-cases (e.created_at == batch_at)) [
    | inl x ↦ inl ((==_iff e.created_at batch_at).0 x)
    | inr x ↦ inr (touched e.updated_at (sym (rw x refl) ∙ h))
  ]

  text-is_text : (s : String) (o : Option (Json F)) → is_text s o ≡ true → o ≡ some (text s)
  text-is_text s (some (text t)) h = ap (λ r. some (text r)) ((eq_iff t s).0 h)
  text-is_text s (some null) h = absurd (true_ne_false (sym h))
  text-is_text s (some (bool b)) h = absurd (true_ne_false (sym h))
  text-is_text s (some (number x)) h = absurd (true_ne_false (sym h))
  text-is_text s (some (array vs)) h = absurd (true_ne_false (sym h))
  text-is_text s (some (object fs)) h = absurd (true_ne_false (sym h))
  text-is_text s none h = absurd (true_ne_false (sym h))

  after :
      (o : Option ℕ) → is_after batch_at o ≡ true → (end : ℕ) × (o ≡ some end) × (batch_at < end)
  after none h = absurd (true_ne_false (sym h))
  after (some end) h = (end, refl, ground (arith, h))

  open_ended : {A : Type 0} (o : Option A) → is_none o ≡ true → o ≡ none
  open_ended none h = refl
  open_ended (some a) h = absurd (true_ne_false (sym h))

  is_notifiable-IsCurrent :
      (x : Source) (e : HazardEvent G F)
      → is_notifiable x batch_at quake_max_age e ≡ true
      → IsCurrent x e
  is_notifiable-IsCurrent aemet e h = after e.ends_at h
  is_notifiable-IsCurrent effis e h =
      let (kind, still) = and_parts (is_text "burnt_area" (lookup "kind" e.attrs)) _ h in
      (text-is_text "burnt_area" _ kind, open_ended e.ends_at still)
  is_notifiable-IsCurrent ign e h = leb→le batch_at (e.starts_at + quake_max_age) h

  coded :
      (o : Option String) (area : WatchArea F G)
      → in_code o area ≡ true
      → (code : String) × (o ≡ some code) × (lookup "code" area.params ≡ some (text code))
  coded none area h = absurd (true_ne_false (sym h))
  coded (some code) area h = (code, refl, text-is_text code _ h)

  province_passed :
      (k : AreaKind) (b : Bool) → (not (is_province k) || b) ≡ true → k ≡ province_kind → b ≡ true
  province_passed province_kind b h e = h
  province_passed bbox_kind b h e = cc
  province_passed circle_kind b h e = cc

  area_contains-IsInside :
      (area : WatchArea F G) (e : HazardEvent G F)
      → area_contains geo e area ≡ true
      → IsInside area e
  area_contains-IsInside area e h =
      let (meets, code) = and_parts (geo.intersects area.geom e.geom) _ h in
      (meets, (λ k. coded e.province_code area (province_passed area.kind _ code k)))

  pub matched-IsJoined :
      (s : Subscription) (area : WatchArea F G) (e : HazardEvent G F)
      → matched s area e ≡ true
      → IsJoined s area e
  matched-IsJoined s area e h =
      let (h, j) = and_parts _ (area_contains geo e area) h in
      let (h, i) = and_parts _ (is_notifiable source batch_at quake_max_age e) h in
      let (h, g) = and_parts _ (e.created_at == batch_at || is_touched batch_at e.updated_at) h in
      let (h, f) = and_parts _ (same_source e.source source) h in
      let (h, d) = and_parts _ (area.id == s.watch_area_id) h in
      let (h, c) = and_parts _ (leb s.severity_min e.severity) h in
      let (a, b) =
        and_parts (is_active s.status) (any (same_type e.hazard_type) s.hazard_types) h in
      (
        is_active_lem s.status a,
        wanted e.hazard_type s.hazard_types b,
        leb→le s.severity_min e.severity c,
        (==_iff area.id s.watch_area_id).0 d,
        (same_source_iff e.source source).0 f,
        written e g,
        is_notifiable-IsCurrent source e i,
        area_contains-IsInside area e j,
      )

-- The other way round: rows that are joined are matched.
module _ {G F : Type 0} (geo : Geography G F) (source : Source) (batch_at quake_max_age : ℕ) where
  In-wanted : (t : HazardType) (ts : List HazardType) → In t ts → any (same_type t) ts ≡ true
  In-wanted t [] i = absurd i
  In-wanted t (x ∷ ts) (inl e) = ground (arith, (same_type_iff t x).1 e)
  In-wanted t (x ∷ ts) (inr i) = ground (arith, In-wanted t ts i)

  IsCurrent-is_notifiable :
      (x : Source) (e : HazardEvent G F)
      → IsCurrent geo source batch_at quake_max_age x e
      → is_notifiable x batch_at quake_max_age e ≡ true
  IsCurrent-is_notifiable aemet e (end, same, later) = rw same (ground (arith, later))
  IsCurrent-is_notifiable effis e (kind, still) =
      rw (kind, still) (ground (arith, (eq_iff "burnt_area" "burnt_area").1 refl))
  IsCurrent-is_notifiable ign e h = ground (arith, h)

  inside_area :
      (k : AreaKind) (o : Option String) (area : WatchArea F G)
      → (k ≡ province_kind
          → (code : String) × (o ≡ some code) × (lookup "code" area.params ≡ some (text code)))
      → (not (is_province k) || in_code o area) ≡ true
  inside_area bbox_kind o area h = refl
  inside_area circle_kind o area h = refl
  inside_area province_kind o area h =
      let (code, same, there) = h refl in rw same (rw there ((eq_iff code code).1 refl))

  both : {a b : Bool} → a ≡ true → b ≡ true → (a && b) ≡ true
  both h k = rw (h, k) refl

  just_written :
      (e : HazardEvent G F)
      → (e.created_at ≡ batch_at) ⊎ (e.updated_at ≡ some batch_at)
      → (e.created_at == batch_at || is_touched batch_at e.updated_at) ≡ true
  just_written e (inl h) = ground (arith, (==_iff e.created_at batch_at).1 h)
  just_written e (inr h) = rw h (ground (arith, (==_iff batch_at batch_at).1 refl))

  pub IsJoined-matched :
      (s : Subscription) (area : WatchArea F G) (e : HazardEvent G F)
      → IsJoined geo source batch_at quake_max_age s area e
      → is_matched geo source batch_at quake_max_age s area e ≡ true
  IsJoined-matched s area e (a, b, c, d, f, g, i, (meets, inside)) =
      both
        (both
          (both
            (both
              (both
                (both (both (ap is_active a) (In-wanted e.hazard_type s.hazard_types b))
                  (le→leb s.severity_min e.severity c))
                ((==_iff area.id s.watch_area_id).1 d))
              ((same_source_iff e.source source).1 f))
            (just_written e g))
          (IsCurrent-is_notifiable source e i))
        (both meets (inside_area area.kind e.province_code area inside))
