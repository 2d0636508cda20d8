-- ===== src/Sync/Ign/Again.antt =====
-- The feed serves its window again in full: what is already known changes nothing.
use geo_hazard.Base.{ℕ, ◌≡◌, refl, sym, ap, subst, ◌∙◌, some, some_inj, List, [], map}
use geo_hazard.Hazards.Upsert.{no_writes, deduplicate}
use geo_hazard.Hazards.Upsert.Batch.{upsert_rows, upsert_batch_rows}
use geo_hazard.Hazards.Upsert.Again.{upsert_batch_twice}
use geo_hazard.Sources.{record_success}
use geo_hazard.Sync.{Libraries, Readings, World, finish_sync}
use geo_hazard.Sync.Ign.{IgnRecord, ign_to_row, ign_cursor, ign_after, ign_batch}

module _ {G F : Type 0} (lib : Libraries G F) where
  -- The world in which only the state of the source says that a run has taken place.
  abbrev pub polled : Readings → List (IgnRecord F) → World G F → World G F
  polled at records w = record w {
    states = record_success [] "ign" (ign_cursor lib records) at.clock w.states;
  }

  unchanged_after :
      (at : Readings) (records : List (IgnRecord F)) (w : World G F)
      → ign_after lib at records w (no_writes w.events) ≡ ((0, 0), polled at records w)
  unfolding ign_after finish_sync
  unchanged_after at records w = refl

  ends_again :
      (at next : Readings) (records : List (IgnRecord F)) (w : World G F)
      → (counts : ℕ × ℕ) × (w₁ : World G F) × (ign_batch lib at records w ≡ some (counts, w₁))
        × (ign_batch lib next records w₁ ≡ some ((0, 0), polled next records w₁))
  unfolding ign_batch ign_after finish_sync
  ends_again at next records w =
      let rows = map (ign_to_row lib) records in
      let first = upsert_batch_rows lib.province at.event_ids at.transaction_at rows w.events in
      let again =
        upsert_batch_twice lib.province at.event_ids next.event_ids at.transaction_at
          next.transaction_at rows w.events first in
      let u =
        upsert_rows lib.province at.event_ids at.transaction_at (deduplicate rows)
          (no_writes w.events) in
      (
        (ign_after lib at records w u).0,
        (ign_after lib at records w u).1,
        rw (ign_batch, first) refl,
        rw (ign_batch, again)
            (ap some (unchanged_after next records (ign_after lib at records w u).1)),
      )

  -- Where a batch of IGN ended, the same batch on the world that it left ends too, at whatever
  -- time: it inserts and updates nothing, leaves the events as they are and publishes nothing.
  pub ign_batch_twice :
      (at next : Readings) (records : List (IgnRecord F)) (w : World G F) {counts : ℕ × ℕ}
      {w₁ : World G F}
      → ign_batch lib at records w ≡ some (counts, w₁)
      → ign_batch lib next records w₁ ≡ some ((0, 0), polled next records w₁)
  ign_batch_twice at next records w h =
      let (counts, w₁, first, again) = ends_again at next records w in
      subst (λ v. ign_batch lib next records v ≡ some ((0, 0), polled next records v))
        (ap (λ r. r.1) (some_inj (sym first ∙ h))) again
