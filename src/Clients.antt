-- ===== src/Clients.antt =====
-- `get_capped` of app/core/http.py. What httpx gives for a request is an argument. A `bytes` value
-- is a text whose characters are its bytes.
mod Tests
pub mod Capped
pub mod Effis
pub mod Ign
pub mod Aemet
pub mod Archive
pub mod Jobs
use geo_hazard.Base.{
  ℕ, String, Bool, not, ◌&&◌, Option, none, some, List, [], ◌∷◌, ltb, ◌==◌, ◌&◌, chars, decimal,
  if◌then◌else◌,
}
use geo_hazard.Base.Dict.{Dict}
use geo_hazard.Base.Results.{Result, error, ok}
use geo_hazard.Parsers.{Parse, parsed, protocol_error, crashed}

pub record Request : Type 0 where
  pub url : String
  pub params : Dict String
  pub headers : Dict String

-- A response: its chunks, and the HTTPError that breaks the stream off after them, if one does.
pub record Response : Type 0 where
  pub status_code : ℕ
  pub chunks : List String
  pub broken : Option String

pub data Opened : Type 0 where
  opened : Response → Opened
  -- an httpx.HTTPError
  unreachable : String → Opened
  -- what httpx raises on a URL is no HTTPError
  invalid_url : Opened

abbrev pub Network : Type 0
Network = Request → Opened

-- What `get_capped` raises.
pub data Raised : Type 0 where
  http_error : String → Raised
  too_large : String → Raised
  other_error : Raised

-- What a client gives or raises.
pub data Fetched (R : Type 0) : Type 0 where
  fetched : R → Fetched R
  transient : String → Fetched R
  protocol : String → Fetched R
  failed : Fetched R

abbrev pub of_parse : {R : Type 0} → Parse R → Fetched R
of_parse (parsed r) = fetched r
of_parse (protocol_error e) = protocol e
of_parse crashed = failed

pub too_large_text : ℕ → String
too_large_text max_bytes = "response body exceeded " & decimal max_bytes & " bytes"

-- The loop over the chunks, with the body so far.
unfoldable pub read_chunks : ℕ → Option String → String → List String → Result Raised String
unfolding too_large_text
read_chunks max_bytes none body [] = ok body
read_chunks max_bytes (some e) body [] = error (http_error e)
read_chunks max_bytes broken body (chunk ∷ chunks) =
    let rest = read_chunks max_bytes broken (body & chunk) chunks in
    if ltb max_bytes (chars (body & chunk))
    then error (too_large (too_large_text max_bytes))
    else rest

abbrev with_status : ℕ → Result Raised String → Result Raised (ℕ × String)
with_status status_code (error e) = error e
with_status status_code (ok body) = ok (status_code, body)

abbrev read_response : ℕ → Bool → Opened → Result Raised (ℕ × String)
read_response max_bytes read_error_body (unreachable e) = error (http_error e)
read_response max_bytes read_error_body invalid_url = error other_error
read_response max_bytes read_error_body (opened r) =
    if not (r.status_code == 200) && not read_error_body
    then ok (r.status_code, "")
    else with_status r.status_code (read_chunks max_bytes r.broken "" r.chunks)

pub get_capped : Network → Request → ℕ → Bool → Result Raised (ℕ × String)
get_capped net request max_bytes read_error_body =
    read_response max_bytes read_error_body (net request)
