-- ===== src/Clients/Jobs/Down.antt =====
-- The jobs while a source is down.
use geo_hazard.Base.{
  ℕ, ◌≤◌, String, ◌≡◌, refl, ap, ◌∙◌, Bool, true, false, not, ◌&&◌, Option, none, some, List, [],
  ◌∷◌, leb, ◌==◌, ltb, if◌then◌else◌, le→leb, ◌&◌, chars,
}
use geo_hazard.Base.Results.{Result, error, ok}
use geo_hazard.Hazards.Model.{Source, aemet, effis, ign}
use geo_hazard.Sync.{Libraries, Readings, World}
use geo_hazard.Sync.Jobs.{
  Answer, transient_error, JobEnd, returned, bookkeep, sync_job, aemet_sync, effis_sync, ign_sync,
}
use geo_hazard.Parsers.Effis.{parse_hotspots}
use geo_hazard.Parsers.{Parse}
use geo_hazard.Parsers.Ign.{IgnLibraries}
use geo_hazard.Parsers.Aemet.{CapLibraries}
use geo_hazard.Clients.{
  Request, Opened, opened, unreachable, invalid_url, Network, Raised, http_error, too_large,
  other_error, read_chunks, with_status, read_response, get_capped, Fetched, transient,
}
use geo_hazard.Clients.Effis.{
  features_request, hotspots_layer, read_features, get_features, fetch_hotspots, fetch_burnt_areas,
  parse_with,
}
use geo_hazard.Clients.Ign.{feed_request, read_feed, fetch_earthquakes}
use geo_hazard.Clients.Aemet.{
  AemetLibraries, envelope_request, max_envelope_bytes, after_envelope, fetch_archive, Fetch,
}
use geo_hazard.Clients.Archive.{TarLibraries, parse_fetched, fetch_warnings}
use geo_hazard.Clients.Jobs.{
  ClientSettings, ParserLibraries, source_job, ign_job, effis_job, aemet_job, with_client,
  with_hotspots,
}

-- A source that is not reached, or that answers with an error of its server.
abbrev pub IsDown : Opened → Type 0
IsDown (opened r) = 500 ≤ r.status_code
IsDown (unreachable e) = Unit
IsDown invalid_url = ⊥

abbrev IsTransient : Result Raised (ℕ × String) → Type 0
IsTransient (error (http_error e)) = Unit
IsTransient (error (too_large e)) = Unit
IsTransient (error other_error) = ⊥
IsTransient (ok (status_code, body)) = 500 ≤ status_code

IsTransient-if :
    (b : Bool) (x y : Result Raised (ℕ × String))
    → IsTransient x
    → IsTransient y
    → IsTransient (if b then x else y)
IsTransient-if true x y p q = p
IsTransient-if false x y p q = q

abbrev IsExpected : Result Raised String → Type 0
IsExpected (error other_error) = ⊥
IsExpected _ = Unit

IsExpected-if :
    (b : Bool) (x y : Result Raised String)
    → IsExpected x
    → IsExpected y
    → IsExpected (if b then x else y)
IsExpected-if true x y p q = p
IsExpected-if false x y p q = q

read_chunks-IsExpected :
    (max_bytes : ℕ) (broken : Option String) (body : String) (chunks : List String)
    → IsExpected (read_chunks max_bytes broken body chunks)
unfolding read_chunks
read_chunks-IsExpected max_bytes none body [] = tt
read_chunks-IsExpected max_bytes (some e) body [] = tt
read_chunks-IsExpected max_bytes none body (chunk ∷ chunks) =
    IsExpected-if (ltb max_bytes (chars (body & chunk))) _ _ tt
      (read_chunks-IsExpected max_bytes none (body & chunk) chunks)
read_chunks-IsExpected max_bytes (some e) body (chunk ∷ chunks) =
    IsExpected-if (ltb max_bytes (chars (body & chunk))) _ _ tt
      (read_chunks-IsExpected max_bytes (some e) (body & chunk) chunks)

with_status-IsTransient :
    (status_code : ℕ) (r : Result Raised String)
    → 500 ≤ status_code
    → IsExpected r
    → IsTransient (with_status status_code r)
with_status-IsTransient status_code (ok body) le h = le
with_status-IsTransient status_code (error (http_error e)) le h = tt
with_status-IsTransient status_code (error (too_large e)) le h = tt
with_status-IsTransient status_code (error other_error) le h = absurd h

read_response-IsTransient :
    (max_bytes : ℕ) (read_error_body : Bool) (answer : Opened)
    → IsDown answer
    → IsTransient (read_response max_bytes read_error_body answer)
read_response-IsTransient max_bytes read_error_body (unreachable e) h = tt
read_response-IsTransient max_bytes read_error_body invalid_url h = absurd h
read_response-IsTransient max_bytes read_error_body (opened r) h =
    IsTransient-if (not (r.status_code == 200) && not read_error_body) _ _ h (
      with_status-IsTransient r.status_code (read_chunks max_bytes r.broken "" r.chunks) h
        (read_chunks-IsExpected max_bytes r.broken "" r.chunks))

get_capped-IsTransient :
    (net : Network) (request : Request) (max_bytes : ℕ) (read_error_body : Bool)
    → IsDown (net request)
    → IsTransient (get_capped net request max_bytes read_error_body)
unfolding get_capped
get_capped-IsTransient net request max_bytes read_error_body h =
    read_response-IsTransient max_bytes read_error_body (net request) h

-- The branch of a status of 500 or more.
server_error :
    {A : Type 0} (status_code : ℕ) (x y : A)
    → 500 ≤ status_code
    → (if leb 500 status_code then x else y) ≡ x
server_error status_code x y le = ap (λ b. if b then x else y) (le→leb 500 status_code le)

abbrev IsTransientFetch : {R : Type 0} → Fetched R → Type 0
IsTransientFetch r = (e : String) × (r ≡ transient e)

read_feed-IsTransient :
    {F : Type 0} (lib : IgnLibraries F) (r : Result Raised (ℕ × String))
    → IsTransient r
    → IsTransientFetch (read_feed lib r)
read_feed-IsTransient lib (error (http_error e)) h = (_, refl)
read_feed-IsTransient lib (error (too_large e)) h = (_, refl)
read_feed-IsTransient lib (error other_error) h = absurd h
read_feed-IsTransient lib (ok (status_code, body)) h = (_, server_error status_code _ _ h)

read_features-IsTransient :
    (typename : String) (r : Result Raised (ℕ × String))
    → IsTransient r
    → IsTransientFetch (read_features typename r)
read_features-IsTransient typename (error (http_error e)) h = (_, refl)
read_features-IsTransient typename (error (too_large e)) h = (_, refl)
read_features-IsTransient typename (error other_error) h = absurd h
read_features-IsTransient typename (ok (status_code, body)) h = (_, server_error status_code _ _ h)

after_envelope-IsTransient :
    {F : Type 0} (lib : AemetLibraries F) (max_bytes : ℕ) (net : Network)
    (r : Result Raised (ℕ × String))
    → IsTransient r
    → IsTransientFetch (after_envelope lib max_bytes net r).1
after_envelope-IsTransient lib max_bytes net (error (http_error e)) h = (_, refl)
after_envelope-IsTransient lib max_bytes net (error (too_large e)) h = (_, refl)
after_envelope-IsTransient lib max_bytes net (error other_error) h = absurd h
after_envelope-IsTransient lib max_bytes net (ok (status_code, body)) h =
    (_, ap (λ (p : Fetch). p.1) (server_error status_code _ _ h))

-- What the job of a source does while it is down.
abbrev pub IsSkipped : {G F : Type 0} → Source → Readings → World G F → JobEnd × World G F → Type 0
IsSkipped source at w end = (e : String) × (end ≡ (returned, bookkeep source at e w))

module _ {G F R : Type 0} (source : Source) (at : Readings) (w : World G F) where
  with_client-IsSkipped :
      (job : Answer R → World G F → JobEnd × World G F) (r : Fetched R)
      → ((e : String) → job (transient_error e) w ≡ (returned, bookkeep source at e w))
      → IsTransientFetch r
      → IsSkipped source at w (with_client job r w)
  with_client-IsSkipped job r k (e, h) = (e, ap (λ r. with_client job r w) h ∙ k e)

module _ {F : Type 0} where
  fetch_warnings-IsTransient :
      (cap : CapLibraries) (tar : TarLibraries) (lib : AemetLibraries F) (f : Fetch)
      → IsTransientFetch f.1
      → IsTransientFetch (parse_fetched {F = F} cap tar f.1)
  fetch_warnings-IsTransient cap tar lib f (e, h) = (e, ap (parse_fetched cap tar) h)

parse_with-IsTransient :
    {R : Type 0} (parse : String → Parse R) (r : Fetched String)
    → IsTransientFetch r
    → IsTransientFetch (parse_with parse r)
parse_with-IsTransient parse r (e, h) = (e, ap (parse_with parse) h)

-- The first request of a job.
abbrev pub first_request : ClientSettings → Source → Request
first_request x ign = feed_request x.user_agent
first_request x effis = features_request x.user_agent x.effis_bbox hotspots_layer
first_request x aemet = envelope_request x.aemet_api_key

-- Where the network does not get through with the first request of a job, or the server of the
-- source answers it with a status of 500 or more, whatever the body, the job returns, and all it
-- leaves behind is the failure in the state of the source: the events and the outbox are what
-- they were.
pub source_job-IsDown :
    {G F : Type 0} (lib : Libraries G F) (p : ParserLibraries F) (x : ClientSettings)
    (net : Network) (source : Source) (at : Readings) (w : World G F)
    → IsDown (net (first_request x source))
    → IsSkipped source at w (source_job lib p x net source at w)
unfolding source_job ign_job effis_job aemet_job ign_sync effis_sync aemet_sync sync_job
    fetch_earthquakes fetch_hotspots get_features fetch_warnings fetch_archive
source_job-IsDown lib p x net ign at w h =
    with_client-IsSkipped ign at w (ign_sync lib at) _ (λ e. refl)
      (read_feed-IsTransient p.ign_lib _
        (get_capped-IsTransient net (feed_request x.user_agent) x.max_response_bytes false h))
source_job-IsDown lib p x net effis at w h =
    with_client-IsSkipped effis at w
      (with_hotspots
        (fetch_burnt_areas p.effis_lib x.user_agent x.effis_bbox x.max_response_bytes net)
        (effis_sync lib at))
      _ (λ e. refl)
      (parse_with-IsTransient (parse_hotspots p.effis_lib) _ (
        read_features-IsTransient hotspots_layer _ (
          get_capped-IsTransient net (features_request x.user_agent x.effis_bbox hotspots_layer)
            x.max_response_bytes false h)))
source_job-IsDown lib p x net aemet at w h =
    with_client-IsSkipped aemet at w (aemet_sync lib at) _ (λ e. refl)
      (fetch_warnings-IsTransient p.cap p.tar p.aemet_lib
        (after_envelope p.aemet_lib x.max_response_bytes net
          (get_capped net (envelope_request x.aemet_api_key) max_envelope_bytes true))
        (after_envelope-IsTransient p.aemet_lib x.max_response_bytes net _ (
          get_capped-IsTransient net (envelope_request x.aemet_api_key) max_envelope_bytes true h)))
