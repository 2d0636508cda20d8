-- ===== src/Clients/Jobs.antt =====
-- The jobs of app/core/jobs/handlers with the HTTP clients that app/core/aemet/registry.py,
-- app/core/effis/registry.py and app/core/ign/registry.py build from the settings.
pub mod Down
use geo_hazard.Base.{ℕ, String, List, [], ◌∷◌}
use geo_hazard.Hazards.Model.{Source, aemet, effis, ign}
use geo_hazard.Sync.{Libraries, Readings, World}
use geo_hazard.Sync.Jobs.{
  Answer, answered, transient_error, protocol_error, JobEnd, returned, raised, aemet_sync, ign_sync,
  effis_sync, both,
}
use geo_hazard.Parsers.Effis.{EffisLibraries}
use geo_hazard.Parsers.Ign.{IgnLibraries}
use geo_hazard.Parsers.Aemet.{CapLibraries}
use geo_hazard.Clients.{Network, Fetched, fetched, transient, protocol, failed}
use geo_hazard.Clients.Effis.{fetch_hotspots, fetch_burnt_areas}
use geo_hazard.Clients.Ign.{fetch_earthquakes}
use geo_hazard.Clients.Aemet.{AemetLibraries}
use geo_hazard.Clients.Archive.{TarLibraries, fetch_warnings}

-- The settings that the clients are built from.
pub record ClientSettings : Type 0 where
  pub user_agent : String
  pub max_response_bytes : ℕ
  pub effis_bbox : String
  pub aemet_api_key : String

module _ {G F R : Type 0} where
  -- A job on what its client gives. Any exception but an error of the source ends it.
  abbrev pub with_client :
      (Answer R → World G F → JobEnd × World G F) → Fetched R → World G F → JobEnd × World G F
  with_client job (fetched r) w = job (answered r) w
  with_client job (transient e) w = job (transient_error e) w
  with_client job (protocol e) w = job (protocol_error e) w
  with_client job failed w = (raised, w)

module _ {G F H B : Type 0} where
  -- The burnt areas are asked for once the hotspots have come.
  abbrev pub with_hotspots :
      Fetched B
      → (Answer H → Answer B → World G F → JobEnd × World G F)
      → Answer H
      → World G F
      → JobEnd × World G F
  with_hotspots burnt_areas job (answered h) w = with_client (job (answered h)) burnt_areas w
  with_hotspots burnt_areas job (transient_error e) w =
      job (transient_error e) (transient_error e) w
  with_hotspots burnt_areas job (protocol_error e) w = job (protocol_error e) (protocol_error e) w

module _ {G F : Type 0} (lib : Libraries G F) (x : ClientSettings) (net : Network) where
  pub ign_job : IgnLibraries F → Readings → World G F → JobEnd × World G F
  unfolding ign_sync
  ign_job parser at =
      with_client (ign_sync lib at) (fetch_earthquakes parser x.user_agent x.max_response_bytes net)

  pub effis_job : EffisLibraries F → Readings → World G F → JobEnd × World G F
  unfolding effis_sync
  effis_job parser at =
      with_client
        (with_hotspots (fetch_burnt_areas parser x.user_agent x.effis_bbox x.max_response_bytes net)
          (effis_sync lib at))
        (fetch_hotspots parser x.user_agent x.effis_bbox x.max_response_bytes net)

  pub aemet_job :
      AemetLibraries F → TarLibraries → CapLibraries → Readings → World G F → JobEnd × World G F
  unfolding aemet_sync
  aemet_job api tar cap at =
      with_client (aemet_sync lib at)
        (fetch_warnings cap tar api x.aemet_api_key x.max_response_bytes net)

-- The libraries of the parsers.
pub record ParserLibraries (F : Type 0) : Type 0 where
  pub ign_lib : IgnLibraries F
  pub effis_lib : EffisLibraries F
  pub aemet_lib : AemetLibraries F
  pub tar : TarLibraries
  pub cap : CapLibraries

-- The job of a source.
unfoldable pub source_job :
    {G F : Type 0}
    → Libraries G F
    → ParserLibraries F
    → ClientSettings
    → Network
    → Source
    → Readings
    → World G F
    → JobEnd × World G F
unfolding ign_job effis_job aemet_job
source_job lib p x net ign = ign_job lib x net p.ign_lib
source_job lib p x net effis = effis_job lib x net p.effis_lib
source_job lib p x net aemet = aemet_job lib x net p.aemet_lib p.tar p.cap
