-- ===== src/Sync/Effis/Rows.antt =====
-- The rows that a batch of the two layers gives: the last row of a burnt area that is served has
-- no end.
use geo_hazard.Base.{
  String, ◌≡◌, refl, sym, ap, subst, ◌∙◌, Bool, true, false, Option, none, some, List, [], ◌∷◌,
  ◌++◌, any, All, arith, str_eq, eq_iff, is_none, some_inj, chain_parts, true_ne_false,
  if◌then◌else◌, Bool-cases, inl, inr,
}
use geo_hazard.Hazards.Model.{effis, Key, NewEvent, new_key, same_key_iff}
use geo_hazard.Hazards.Severity.{effis_severity}
use geo_hazard.Hazards.Upsert.Chunks.{has_key, last_with, or_else}
use geo_hazard.Sync.{Libraries, geojson_to_wkb, all_rows}
use geo_hazard.Sync.Closing.{key_of}
use geo_hazard.Sync.Effis.{EffisRecord, kind_hotspot, effis_to_row, served}

module _ {G F : Type 0} {R : Type 0} (f : R → Option (NewEvent G F)) where
  -- A row and the rows after it that make the rows of the whole.
  abbrev pub Split : R → List R → List (NewEvent G F) → Type 0
  Split r rs rows =
      (row : NewEvent G F) × (rest : List (NewEvent G F)) × (f r ≡ some row)
      × (all_rows f rs ≡ some rest)
      × (row ∷ rest ≡ rows)

  -- The parts of a list of rows that was built.
  pub all_rows-Split :
      (r : R) (rs : List R) {rows : List (NewEvent G F)}
      → all_rows f (r ∷ rs) ≡ some rows
      → Split r rs rows
  unfolding all_rows
  all_rows-Split r rs h =
      let (row, a, k) = chain_parts (f r) _ h in
      let (rest, b, e) = chain_parts (all_rows f rs) _ k in (row, rest, a, b, some_inj e)

module _ {G F : Type 0} where
  -- The row is there and has no end.
  abbrev pub opens : Option (NewEvent G F) → Bool
  opens none = false
  opens (some r) = is_none r.ends_at

  abbrev never_ends : Option (NewEvent G F) → Bool
  never_ends none = true
  never_ends (some r) = is_none r.ends_at

  or_else-opens : (o p : Option (NewEvent G F)) → opens o ≡ true → opens (or_else o p) ≡ true
  or_else-opens none p h = absurd (true_ne_false (sym h))
  or_else-opens (some r) p h = h

  or_else-first :
      (o p : Option (NewEvent G F))
      → never_ends o ≡ true
      → opens p ≡ true
      → opens (or_else o p) ≡ true
  or_else-first none p h k = k
  or_else-first (some r) p h k = h

  or_else-never :
      (o p : Option (NewEvent G F))
      → never_ends o ≡ true
      → never_ends p ≡ true
      → never_ends (or_else o p) ≡ true
  or_else-never none p h k = k
  or_else-never (some r) p h k = h

module _ {F : Type 0} where
  -- None of the records is a hotspot.
  abbrev pub NoHotspot : List (EffisRecord F) → Type 0
  NoHotspot rs = All (λ r. str_eq r.kind kind_hotspot ≡ false) rs

module _ {G F : Type 0} (lib : Libraries G F) where
  -- A row that was built has the key of its record, and an end only for a hotspot.
  abbrev RowOf : EffisRecord F → NewEvent G F → Type 0
  RowOf r row =
      (new_key row ≡ key_of effis r.external_id)
      × (row.ends_at ≡ (if str_eq r.kind kind_hotspot then some r.observed_at else none))

  effis_to_row-RowOf :
      (r : EffisRecord F) {row : NewEvent G F} → effis_to_row lib r ≡ some row → RowOf r row
  unfolding effis_to_row
  effis_to_row-RowOf r h =
      let (geom, a, k) = chain_parts (geojson_to_wkb lib r.geometry) _ h in
      let (severity, b, e) = chain_parts (effis_severity lib.floats r.kind r.area_ha) _ k in
      subst (RowOf r) (some_inj e) (refl, refl)

  never_ends-burnt :
      (k : Key) (rs : List (EffisRecord F)) {rows : List (NewEvent G F)}
      → NoHotspot rs
      → all_rows (effis_to_row lib) rs ≡ some rows
      → never_ends (last_with k rows) ≡ true
  unfolding all_rows last_with
  never_ends-burnt k [] n h = subst (λ l. never_ends (last_with k l) ≡ true) (some_inj h) refl
  never_ends-burnt k (r ∷ rs) n h =
      let (row, rest, a, b, e) = all_rows-Split (effis_to_row lib) r rs h in
      subst (λ l. never_ends (last_with k l) ≡ true) e
        (or_else-never (last_with k rest) _ (never_ends-burnt k rs n.1 b)
          (ground (arith, (effis_to_row-RowOf r a).1, n.0)))

  opens-own :
      (id : String) (r : EffisRecord F) (row : NewEvent G F)
      → str_eq r.kind kind_hotspot ≡ false
      → str_eq id r.external_id ≡ true
      → RowOf r row
      → opens (if has_key (key_of effis id) row then some row else none) ≡ true
  opens-own id r row n x h =
      let own =
        (same_key_iff (new_key row) (key_of effis id)).1
          (h.0 ∙ ap (key_of effis) (sym ((eq_iff id r.external_id).0 x))) in
      rw own (ground (arith, h.1, n))

  opens-burnt :
      (id : String) (rs : List (EffisRecord F)) {rows : List (NewEvent G F)}
      → NoHotspot rs
      → any (str_eq id) (served rs) ≡ true
      → all_rows (effis_to_row lib) rs ≡ some rows
      → opens (last_with (key_of effis id) rows) ≡ true
  unfolding all_rows last_with
  opens-burnt id [] n i h = absurd (true_ne_false (sym i))
  opens-burnt id (r ∷ rs) n i h =
      let (row, rest, a, b, e) = all_rows-Split (effis_to_row lib) r rs h in
      subst (λ l. opens (last_with (key_of effis id) l) ≡ true) e
        (elim (Bool-cases (str_eq id r.external_id)) [
          | inr x ↦
              or_else-opens (last_with (key_of effis id) rest) _
                (opens-burnt id rs n.1 (ground (arith, x, i)) b)
          | inl x ↦
              or_else-first (last_with (key_of effis id) rest) _
                (never_ends-burnt (key_of effis id) rs n.1 b)
                (opens-own id r row n.0 x (effis_to_row-RowOf r a))
        ])

  -- The hotspots, which stand in front, do not matter to a burnt area that is served.
  pub opens-batch :
      (id : String) (hotspots rs : List (EffisRecord F)) {rows : List (NewEvent G F)}
      → NoHotspot rs
      → any (str_eq id) (served rs) ≡ true
      → all_rows (effis_to_row lib) (hotspots ++ rs) ≡ some rows
      → opens (last_with (key_of effis id) rows) ≡ true
  unfolding last_with
  opens-batch id [] rs n i h = opens-burnt id rs n i h
  opens-batch id (r ∷ hotspots) rs n i h =
      let (row, rest, a, b, e) = all_rows-Split (effis_to_row lib) r (hotspots ++ rs) h in
      subst (λ l. opens (last_with (key_of effis id) l) ≡ true) e
        (or_else-opens (last_with (key_of effis id) rest) _ (opens-batch id hotspots rs n i b))
