-- ===== src/Hazards/Upsert/Again.antt =====
-- A second upsert of the same batch.
use geo_hazard.Base.{
  ℕ, String, ◌≡◌, refl, sym, ap, subst, ◌∙◌, false, Option, some, List, [], ◌∷◌, All, All-map,
  All-map₂, some_inj,
}
use geo_hazard.Base.Query.{first_where}
use geo_hazard.Hazards.Model.{
  Key, same_key_refl, same_key_sym, NewEvent, HazardEvent, EventTable, new_key, event_at,
}
use geo_hazard.Hazards.Upsert.{
  Upserted, is_changed, deduplicate, upsert_row, conflict, no_writes, upsert_batch,
}
use geo_hazard.Hazards.Upsert.Chunks.{has_key, DistinctKeys, deduplicate-DistinctKeys}
use geo_hazard.Hazards.Upsert.Laws.{merged, merged-unchanged}
use geo_hazard.Hazards.Upsert.Batch.{upsert_rows, upsert_batch_rows, event_at-upsert_rows}

module _ {G F : Type 0} where
  -- In a list with distinct keys every row is the first one of its key.
  first_where-own :
      (rs : List (NewEvent G F))
      → DistinctKeys rs
      → All (λ x. first_where (has_key (new_key x)) rs ≡ some x) rs
  unfolding first_where
  first_where-own [] d = tt
  first_where-own (r ∷ rs) d = (
    rw (same_key_refl (new_key r)) refl,
    All-map₂ (λ x. has_key (new_key r) x ≡ false)
        (λ x. first_where (has_key (new_key x)) rs ≡ some x)
        (λ x. first_where (has_key (new_key x)) (r ∷ rs) ≡ some x) rs
        (λ x p q. rw (same_key_sym (new_key r) (new_key x), p) q) d.0 (first_where-own rs d.1),
  )

  -- The table has the row of `r` and nothing differs.
  abbrev Settled : EventTable G F → NewEvent G F → Type 0
  Settled t r = (e : HazardEvent G F) × (event_at (new_key r) t ≡ some e) × (is_changed r e ≡ false)

module _ {G F : Type 0} (province : G → Option String) (new_id : Key → ℕ) (now : ℕ) where
  upsert_row-Settled :
      (r : NewEvent G F) (u : Upserted G F)
      → Settled u.table r
      → upsert_row province new_id now r u ≡ u
  unfolding upsert_row conflict
  upsert_row-Settled r u (e, at, same) = rw at (rw same refl)

  upsert_rows-Settled :
      (rs : List (NewEvent G F)) (u : Upserted G F)
      → All (Settled u.table) rs
      → upsert_rows province new_id now rs u ≡ u
  unfolding upsert_rows
  upsert_rows-Settled [] u h = refl
  upsert_rows-Settled (r ∷ rs) u h = rw (upsert_row-Settled r u h.0) (upsert_rows-Settled rs u h.1)

  Settled-after :
      (rs : List (NewEvent G F)) (u : Upserted G F)
      → DistinctKeys rs
      → All (Settled (upsert_rows province new_id now rs u).table) rs
  Settled-after rs u d =
      All-map _ _ rs
        (λ x found. (
          merged province new_id now x (event_at (new_key x) u.table),
          event_at-upsert_rows province new_id now (new_key x) rs u d ∙ rw found refl,
          merged-unchanged province new_id now x (event_at (new_key x) u.table),
        ))
        (first_where-own rs d)

module _ {G F : Type 0} (province : G → Option String) where
  -- After the upsert of a batch a second upsert of it, at any time, writes nothing.
  pub upsert_batch_twice :
      (new_id new_id' : Key → ℕ) (now now' : ℕ) (rows : List (NewEvent G F)) (t : EventTable G F)
      {u : Upserted G F}
      → upsert_batch province new_id now rows t ≡ some u
      → upsert_batch province new_id' now' rows u.table ≡ some (no_writes u.table)
  upsert_batch_twice new_id new_id' now now' rows t {u} h =
      upsert_batch_rows province new_id' now' rows u.table
      ∙ ap some (
          upsert_rows-Settled province new_id' now' (deduplicate rows) (no_writes u.table) (
            subst (λ v. All (Settled v.table) (deduplicate rows))
              (some_inj (sym (upsert_batch_rows province new_id now rows t) ∙ h))
              (Settled-after province new_id now (deduplicate rows) (no_writes t)
                (deduplicate-DistinctKeys rows))))
