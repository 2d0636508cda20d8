-- ===== src/Sync/Closing.antt =====
-- What the closings of a sync guarantee of a row: it is gone or it has ended by a given time.
use mathlib.Core.Option
use geo_hazard.Base.{
  ℕ, ◌≤◌, String, ◌≡◌, refl, sym, ap, ◌∙◌, subst, true, false, ◌&&◌, Option, none, some, List, [],
  ◌∷◌, not, any, arith, ltb, str_eq, eq_iff, none_or, if◌then◌else◌, Bool-cases, inl, inr,
}
use geo_hazard.Base.Query.Rows.{first_where_found}
use geo_hazard.Hazards.Model.{
  Source, same_source, same_source_iff, Key, same_key, same_key_iff, row_key, HazardEvent,
  EventTable, event_at,
}
use geo_hazard.Hazards.Close.{is_open_at, closed_row, close_events}
use geo_hazard.Base.Query.{select_where}
use text.Mathlib.TextPositions.{eq_refl}
use geo_hazard.Sync.{vanished}
use geo_hazard.Hazards.Close.Laws.{event_at-close_events}

abbrev pub key_of : Source → String → Key
key_of source id = record { source = source; external_id = id }

-- An end that is there and is not after `b`.
unfoldable pub Ended : ℕ → Option ℕ → Type 0
Ended b none = ⊥
Ended b (some e) = e ≤ b

module _ {G F : Type 0} where
  -- There is no row, or the row has ended by `b`.
  unfoldable pub EndsBy : ℕ → Option (HazardEvent G F) → Type 0
  unfolding Ended
  EndsBy b none = Unit {0}
  EndsBy b (some e) = Ended b e.ends_at

  abbrev pub closed_if : Source → List String → ℕ → ℕ → HazardEvent G F → HazardEvent G F
  closed_if source ids ended_at now e =
      if is_open_at source ids ended_at e then closed_row ended_at now e else e

  Ended-closed_if :
      (source : Source) (ids : List String) (ended_at now : ℕ) (e : HazardEvent G F)
      → same_source e.source source ≡ true
      → any (str_eq e.external_id) ids ≡ true
      → (o : Option ℕ) → e.ends_at ≡ o
      → Ended ended_at (closed_if source ids ended_at now e).ends_at
  unfolding Ended
  Ended-closed_if source ids ended_at now e s i none o = rw (s, i, o) (omega arith)
  Ended-closed_if source ids ended_at now e s i (some x) o = elim (Bool-cases (ltb ended_at x)) [
    | inl h ↦ rw (s, i, o, h) (omega arith)
    | inr h ↦ rw (s, i, o, h) (ground (arith, h))
  ]

  event_at-key :
      (k : Key) (t : EventTable G F) {e : HazardEvent G F} → event_at k t ≡ some e → row_key e ≡ k
  event_at-key k t {e} x =
      (same_key_iff (row_key e) k).0 (first_where_found (λ e. same_key (row_key e) k) t x)

  kept :
      (source : Source) (ids : List String) (ended_at now b : ℕ) (e : HazardEvent G F)
      (o : Option ℕ)
      → e.ends_at ≡ o
      → Ended b o
      → Ended b (closed_if source ids ended_at now e).ends_at
  unfolding Ended
  kept source ids ended_at now b e none x h = absurd h
  kept source ids ended_at now b e (some end) x h =
      elim (Bool-cases (is_open_at source ids ended_at e)) [
        | inl y ↦
            let open_then =
              subst
                (λ o.
                  (same_source e.source source
                    && any (str_eq e.external_id) ids
                    && none_or (ltb ended_at) o)
                  ≡ true)
                x y in
            rw y (ground (arith, open_then, h))
        | inr y ↦ rw (y, x) h
      ]

  still :
      (source : Source) (ids : List String) (ended_at now b : ℕ) (o : Option (HazardEvent G F))
      → EndsBy b o
      → EndsBy b (Option.map (closed_if source ids ended_at now) o)
  unfolding EndsBy
  still source ids ended_at now b none h = tt
  still source ids ended_at now b (some e) h = kept source ids ended_at now b e e.ends_at refl h

  found :
      (source : Source) (ids : List String) (ended_at now : ℕ) (o : Option (HazardEvent G F))
      → ((e : HazardEvent G F)
          → o ≡ some e
          → (same_source e.source source ≡ true) × (any (str_eq e.external_id) ids ≡ true))
      → EndsBy ended_at (Option.map (closed_if source ids ended_at now) o)
  unfolding EndsBy
  found source ids ended_at now none h = tt
  found source ids ended_at now (some e) h =
      Ended-closed_if source ids ended_at now e (h e refl).0 (h e refl).1 e.ends_at refl

  -- A listed key of the source has ended by the given time after the closing.
  pub EndsBy-close_events_listed :
      (source : Source) (ids : List String) (ended_at now : ℕ) (id : String) (t : EventTable G F)
      → any (str_eq id) ids ≡ true
      → EndsBy ended_at (event_at (key_of source id) (close_events source ids ended_at now t).1)
  EndsBy-close_events_listed source ids ended_at now id t i =
      let k = key_of source id in
      subst (EndsBy ended_at) (sym (event_at-close_events source ids ended_at now k t)) (
        found source ids ended_at now (event_at k t) (λ e x.
          let key = event_at-key k t x in
          (
            (same_source_iff e.source source).1 (ap (λ (k : Key). k.source) key),
            subst (λ (j : Key). any (str_eq j.external_id) ids ≡ true) (sym key) i,
          )))

  unlisted :
      (source : Source) (ids : List String) (ended_at now : ℕ) (o : Option (HazardEvent G F))
      → ((e : HazardEvent G F) → o ≡ some e → any (str_eq e.external_id) ids ≡ false)
      → Option.map (closed_if source ids ended_at now) o ≡ o
  unlisted source ids ended_at now none h = refl
  unlisted source ids ended_at now (some e) h = ground (arith, h e refl)

  -- A key that is not listed keeps its row.
  pub event_at-close_events_unlisted :
      (source : Source) (ids : List String) (ended_at now : ℕ) (k : Key) (t : EventTable G F)
      → any (str_eq k.external_id) ids ≡ false
      → event_at k (close_events source ids ended_at now t).1 ≡ event_at k t
  event_at-close_events_unlisted source ids ended_at now k t i =
      event_at-close_events source ids ended_at now k t
      ∙ unlisted source ids ended_at now (event_at k t) (λ e x.
        subst (λ (j : Key). any (str_eq j.external_id) ids ≡ false) (sym (event_at-key k t x)) i)

  -- What has ended by a time has still ended by it after any closing.
  pub EndsBy-close_events_kept :
      (source : Source) (ids : List String) (ended_at now b : ℕ) (k : Key) (t : EventTable G F)
      → EndsBy b (event_at k t)
      → EndsBy b (event_at k (close_events source ids ended_at now t).1)
  EndsBy-close_events_kept source ids ended_at now b k t h =
      subst (EndsBy b) (sym (event_at-close_events source ids ended_at now k t))
        (still source ids ended_at now b (event_at k t) h)

-- The ids that have vanished are those of the cursor that are not served now.
pub any-vanished :
    (id : String) (previous current : List String)
    → any (str_eq id) (vanished previous current)
      ≡ (any (str_eq id) previous && not (any (str_eq id) current))
unfolding select_where
any-vanished id [] current = refl
any-vanished id (x ∷ previous) current = elim (Bool-cases (str_eq id x)) [
  | inl h ↦
      let e = (eq_iff id x).0 h in
      subst
        (λ y.
          any (str_eq id) (vanished (y ∷ previous) current)
          ≡ (any (str_eq id) (y ∷ previous) && not (any (str_eq id) current)))
        e (ground (arith, eq_refl id, any-vanished id previous current))
  | inr h ↦ ground (arith, h, any-vanished id previous current)
]
