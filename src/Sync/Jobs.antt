-- ===== src/Sync/Jobs.antt =====
-- The jobs app/core/jobs/handlers/aemet_sync.py, effis_sync.py and ign_sync.py, which are one text
-- but for their source: the transaction of a sync, and what becomes of an error of the source.
pub mod Failures
use geo_hazard.Base.{String, Option, none, some, List, []}
use geo_hazard.Hazards.Model.{Source, effis, ign, aemet}
use geo_hazard.Sources.{record_failure}
use geo_hazard.Sync.{Libraries, Readings, World, source_name}
use geo_hazard.Sync.Effis.{EffisRecord, effis_batch}
use geo_hazard.Sync.Ign.{IgnRecord, ign_batch}
use geo_hazard.Sync.Aemet.{AemetWarning, aemet_batch}

-- What a client gives or raises: an error of the source is transient, or the contract is broken.
pub data Answer (R : Type 0) : Type 0 where
  answered : R → Answer R
  transient_error : String → Answer R
  protocol_error : String → Answer R

pub data JobEnd : Type 0 where
  returned raised : JobEnd

-- Both layers, of which the second is not asked for where the first one fails.
abbrev pub both : {A B : Type 0} → Answer A → Answer B → Answer (A × B)
both (transient_error e) b = transient_error e
both (protocol_error e) b = protocol_error e
both (answered a) (transient_error e) = transient_error e
both (answered a) (protocol_error e) = protocol_error e
both (answered a) (answered b) = answered (a, b)

module _ {G F : Type 0} where
  -- The transaction of the bookkeeping, after that of the sync has been rolled back.
  unfoldable pub bookkeep : Source → Readings → String → World G F → World G F
  bookkeep source at error w = record w {
    states = record_failure [] (source_name source) error at.clock w.states;
  }

  -- The commit, or the end without one where the use case raises anything else.
  abbrev committed : {N : Type 0} → World G F → Option (N × World G F) → JobEnd × World G F
  committed w none = (raised, w)
  committed w (some (counts, w')) = (returned, w')

  -- A job over the `execute` of its use case.
  unfoldable pub sync_job :
      {R N : Type 0}
      → Source
      → (R → World G F → Option (N × World G F))
      → Readings
      → Answer R
      → World G F
      → JobEnd × World G F
  sync_job source execute at (answered r) w = committed w (execute r w)
  sync_job source execute at (transient_error error) w = (returned, bookkeep source at error w)
  sync_job source execute at (protocol_error error) w = (raised, bookkeep source at error w)

module _ {G F : Type 0} (lib : Libraries G F) where
  unfoldable pub aemet_sync :
      Readings → Answer (List (AemetWarning F)) → World G F → JobEnd × World G F
  aemet_sync at = sync_job aemet (aemet_batch lib at) at

  unfoldable pub ign_sync : Readings → Answer (List (IgnRecord F)) → World G F → JobEnd × World G F
  ign_sync at = sync_job ign (ign_batch lib at) at

  unfoldable pub effis_sync :
      Readings
      → Answer (List (EffisRecord F))
      → Answer (List (EffisRecord F))
      → World G F
      → JobEnd × World G F
  effis_sync at hotspots burnt_areas =
      sync_job effis (λ r. effis_batch lib at r.0 r.1) at (both hotspots burnt_areas)
