-- ===== src/Sync/Effis/Lifecycle.antt =====
-- A burnt area is open while the layer serves it, and has ended when it is no longer served.
use geo_hazard.Base.{
  ℕ, String, ◌≡◌, refl, sym, ap, subst, ◌∙◌, true, false, Option, none, some, List, [], ◌++◌, any,
  arith, str_eq, some_inj, chain_parts, true_ne_false, is_none,
}
use geo_hazard.Hazards.Model.{effis, Key, NewEvent, HazardEvent, EventTable, event_at}
use geo_hazard.Hazards.Upsert.{Upserted, upsert_batch, same_time}
use geo_hazard.Hazards.Upsert.Chunks.{last_with}
use geo_hazard.Hazards.Upsert.Laws.{merged, merged-unchanged}
use geo_hazard.Hazards.Upsert.Batch.{event_at-upserted}
use geo_hazard.Sources.{state_of, record_success}
use geo_hazard.Sync.Cursors.{any-previous_ids}
use geo_hazard.Sync.{
  Libraries, Readings, World, all_rows, previous_ids, ids_cursor, vanished, close_vanished,
  finish_sync,
}
use geo_hazard.Sync.Closing.{
  EndsBy, key_of, any-vanished, event_at-close_events_unlisted, EndsBy-close_events_listed,
}
use geo_hazard.Sync.Effis.Rows.{NoHotspot, opens, opens-batch}
use geo_hazard.Sync.Effis.{EffisRecord, effis_to_row, served, effis_after, effis_batch}

same_time-none : (a b : Option ℕ) → same_time a b ≡ true → is_none a ≡ true → b ≡ none
same_time-none none none h n = refl
same_time-none none (some b) h n = absurd (true_ne_false (sym h))
same_time-none (some a) b h n = absurd (true_ne_false (sym n))

module _ {G F : Type 0} where
  -- The row is there and open.
  pub IsOpen : Option (HazardEvent G F) → Type 0
  IsOpen none = ⊥
  IsOpen (some e) = e.ends_at ≡ none

module _ {G F : Type 0} (lib : Libraries G F) where
  -- The steps of a batch that went through.
  abbrev Parts :
      Readings
      → List (EffisRecord F)
      → List (EffisRecord F)
      → World G F
      → (ℕ × ℕ × ℕ)
      → World G F
      → Type 0
  Parts at hotspots burnt_areas w counts w' =
      (rows : List (NewEvent G F)) × (u : Upserted G F) × (all_rows (effis_to_row lib)
          (hotspots ++ burnt_areas)
        ≡ some rows)
      × (upsert_batch lib.province at.event_ids at.transaction_at rows w.events ≡ some u)
      × (effis_after lib at burnt_areas w u ≡ (counts, w'))

  effis_batch-Parts :
      (at : Readings) (hotspots burnt_areas : List (EffisRecord F)) (w : World G F)
      {counts : ℕ × ℕ × ℕ} {w' : World G F}
      → effis_batch lib at hotspots burnt_areas w ≡ some (counts, w')
      → Parts at hotspots burnt_areas w counts w'
  unfolding effis_batch
  effis_batch-Parts at hotspots burnt_areas w h =
      let (rows, a, k) = chain_parts (all_rows (effis_to_row lib) (hotspots ++ burnt_areas)) _ h in
      let (u, b, e) =
        chain_parts (upsert_batch lib.province at.event_ids at.transaction_at rows w.events) _ k in
      (rows, u, a, b, some_inj e)

  -- The table after a batch.
  closed_table :
      (at : Readings) (burnt_areas : List (EffisRecord F)) (w : World G F) (u : Upserted G F)
      → (effis_after lib at burnt_areas w u).1.events
        ≡ (close_vanished effis "burnt_area_ids"
            (served burnt_areas)
            at.transaction_at
            w.states
            u.table).1
  unfolding effis_after finish_sync
  closed_table at burnt_areas w u = refl

  IsOpen-merged :
      (at : Readings) (o : Option (NewEvent G F)) (old : Option (HazardEvent G F))
      → opens o ≡ true
      → IsOpen (elim o [
        | none ↦ old
        | some r ↦ some (merged lib.province at.event_ids at.transaction_at r old)
      ])
  unfolding IsOpen
  IsOpen-merged at none old h = absurd (true_ne_false (sym h))
  IsOpen-merged at (some r) old h =
      let m = merged lib.province at.event_ids at.transaction_at r old in
      let same = merged-unchanged lib.province at.event_ids at.transaction_at r old in
      same_time-none r.ends_at m.ends_at (ground (arith, same)) h

  -- The row of a key whose last row in the batch has no end has no end after the upsert.
  IsOpen-upsert :
      (at : Readings) (k : Key) (rows : List (NewEvent G F)) (t : EventTable G F) {u : Upserted G F}
      → upsert_batch lib.province at.event_ids at.transaction_at rows t ≡ some u
      → opens (last_with k rows) ≡ true
      → IsOpen (event_at k u.table)
  IsOpen-upsert at k rows t h o =
      subst IsOpen (sym (event_at-upserted lib.province at.event_ids at.transaction_at k rows t h))
        (IsOpen-merged at (last_with k rows) (event_at k t) o)

  -- After a batch that serves a burnt area, its event is there and open.
  pub effis_batch-IsOpen :
      (at : Readings) (hotspots burnt_areas : List (EffisRecord F)) (w : World G F) (id : String)
      {counts : ℕ × ℕ × ℕ} {w' : World G F}
      → NoHotspot burnt_areas
      → any (str_eq id) (served burnt_areas) ≡ true
      → effis_batch lib at hotspots burnt_areas w ≡ some (counts, w')
      → IsOpen (event_at (key_of effis id) w'.events)
  unfolding close_vanished
  effis_batch-IsOpen at hotspots burnt_areas w id n i h =
      let (rows, u, a, b, e) = effis_batch-Parts at hotspots burnt_areas w h in
      let k = key_of effis id in
      let previous = previous_ids "burnt_area_ids" (state_of "effis" w.states) in
      let out = any-vanished id previous (served burnt_areas) in
      subst (λ v. IsOpen (event_at k v))
        (sym (closed_table at burnt_areas w u) ∙ ap (λ r. r.1.events) e)
        (subst IsOpen
          (sym (
            event_at-close_events_unlisted effis (vanished previous (served burnt_areas))
              at.transaction_at at.transaction_at k u.table (ground (arith, out, i))))
          (IsOpen-upsert at k rows w.events b (opens-batch lib id hotspots burnt_areas n i a)))

  states_after :
      (at : Readings) (burnt_areas : List (EffisRecord F)) (w : World G F) (u : Upserted G F)
      → (effis_after lib at burnt_areas w u).1.states
        ≡ record_success [] "effis"
            (some (ids_cursor "burnt_area_ids" (served burnt_areas)))
            at.clock
            w.states
  unfolding effis_after finish_sync
  states_after at burnt_areas w u = refl

  -- What the next batch reads as the ids of the last one.
  any-previous :
      (at : Readings) (hotspots burnt_areas : List (EffisRecord F)) (w : World G F) (id : String)
      {counts : ℕ × ℕ × ℕ} {w' : World G F}
      → effis_batch lib at hotspots burnt_areas w ≡ some (counts, w')
      → any (str_eq id) (previous_ids "burnt_area_ids" (state_of "effis" w'.states))
        ≡ any (str_eq id) (served burnt_areas)
  any-previous at hotspots burnt_areas w id h =
      let (rows, u, a, b, e) = effis_batch-Parts at hotspots burnt_areas w h in
      ap (λ s. any (str_eq id) (previous_ids "burnt_area_ids" (state_of "effis" s)))
        (sym (ap (λ r. r.1.states) e) ∙ states_after at burnt_areas w u)
      ∙ any-previous_ids id "burnt_area_ids" "effis" (served burnt_areas) [] at.clock w.states

  -- A burnt area that one batch serves and the next one of the source does not has ended by the
  -- time of the latter, whatever else has changed in between.
  pub effis_batch-EndsBy :
      (at next : Readings) (hotspots hotspots' burnt_areas burnt_areas' : List (EffisRecord F))
      (w w₂ : World G F) (id : String) {counts counts' : ℕ × ℕ × ℕ} {w₁ w₃ : World G F}
      → effis_batch lib at hotspots burnt_areas w ≡ some (counts, w₁)
      → state_of "effis" w₂.states ≡ state_of "effis" w₁.states
      → effis_batch lib next hotspots' burnt_areas' w₂ ≡ some (counts', w₃)
      → any (str_eq id) (served burnt_areas) ≡ true
      → any (str_eq id) (served burnt_areas') ≡ false
      → EndsBy next.transaction_at (event_at (key_of effis id) w₃.events)
  unfolding close_vanished
  effis_batch-EndsBy at next hotspots hotspots' burnt_areas burnt_areas' w w₂ id h s h' i j =
      let (rows, u, a, b, e) = effis_batch-Parts next hotspots' burnt_areas' w₂ h' in
      let previous = previous_ids "burnt_area_ids" (state_of "effis" w₂.states) in
      let known =
        ap (λ s. any (str_eq id) (previous_ids "burnt_area_ids" s)) s
        ∙ any-previous at hotspots burnt_areas w id h
        ∙ i in
      let out = any-vanished id previous (served burnt_areas') in
      subst (λ v. EndsBy next.transaction_at (event_at (key_of effis id) v))
        (sym (closed_table next burnt_areas' w₂ u) ∙ ap (λ r. r.1.events) e)
        (EndsBy-close_events_listed effis (vanished previous (served burnt_areas'))
          next.transaction_at next.transaction_at id u.table (ground (arith, out, known, j)))
