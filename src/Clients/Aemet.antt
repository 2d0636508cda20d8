-- ===== src/Clients/Aemet.antt =====
-- app/core/aemet/drivers/http.py: the two requests, and the archive that the second one gives. The
-- requests are kept beside the result, in their order.
pub mod Hosts
use geo_hazard.Base.{
  ℕ, ◌*◌, String, Bool, true, false, not, ◌&&◌, ◌||◌, Option, none, some, List, [], ◌∷◌, leb, ◌==◌,
  str_eq, ◌&◌, decimal, if◌then◌else◌,
}
use geo_hazard.Base.Dict.{lookup}
use geo_hazard.Base.Json.{
  Json, null, bool, number, text, array, object, Items, nil, Fields, end, fields_of,
}
use geo_hazard.Base.Floats.{Floats}
use geo_hazard.Base.Results.{Result, error, ok}
use geo_hazard.Clients.{
  Request, Network, Raised, http_error, too_large, other_error, Fetched, fetched, transient,
  protocol, failed, get_capped,
}

-- urlparse(url).scheme and .hostname
pub record Location : Type 0 where
  pub scheme : String
  pub hostname : Option String

-- What the client calls: floats, `json.loads` on the text that the bytes stand for in ISO-8859-15,
-- `repr`, and `urlparse`, `none` where they raise a ValueError.
pub record AemetLibraries (F : Type 0) : Type 0 where
  pub floats : Floats F
  pub loads : String → Option (Json F)
  pub repr : Json F → String
  pub urlparse : String → Option Location

abbrev pub last_bulletin_url : String
last_bulletin_url = "https://opendata.aemet.es/opendata/api/avisos_cap/ultimoelaborado/area/esp"

abbrev pub max_envelope_bytes : ℕ
max_envelope_bytes = 65536

abbrev pub envelope_request : String → Request
envelope_request api_key = record {
  url = last_bulletin_url;
  params = [];
  headers = ("api_key", api_key) ∷ [];
}

abbrev pub datos_request : String → Request
datos_request datos_url = record { url = datos_url; params = []; headers = [] }

abbrev pub is_host : String → Option String → Bool
is_host name none = false
is_host name (some host) = str_eq host name

-- Only AEMET itself is followed, by https.
abbrev pub is_aemet : Location → Bool
is_aemet l = str_eq l.scheme "https" && is_host "opendata.aemet.es" l.hostname

-- The requests that were made, and what came of them.
abbrev pub Fetch : Type 0
Fetch = List Request × Fetched String

module _ {F : Type 0} (lib : AemetLibraries F) where
  abbrev pub is_zero : F → Bool
  is_zero x = lib.floats.le x (lib.floats.tenths 0) && lib.floats.le (lib.floats.tenths 0) x

  -- bool(value)
  abbrev pub is_truthy : Json F → Bool
  is_truthy null = false
  is_truthy (bool b) = b
  is_truthy (number x) = not (is_zero x)
  is_truthy (text s) = not (str_eq s "")
  is_truthy (array nil) = false
  is_truthy (object end) = false
  is_truthy _ = true

  abbrev pub or_null : Option (Json F) → Json F
  or_null none = null
  or_null (some v) = v

  -- value == n, for an int above 1
  abbrev pub is_number : ℕ → Json F → Bool
  is_number n (number x) =
      lib.floats.le x (lib.floats.tenths (n * 10)) && lib.floats.le (lib.floats.tenths (n * 10)) x
  is_number n _ = false

  abbrev description : Option (Json F) → String
  description none = "'sin descripcion'"
  description (some v) = lib.repr v

  -- The second request.
  abbrev read_datos : Result Raised (ℕ × String) → Fetched String
  read_datos (error (http_error e)) = transient ("AEMET OpenData unreachable: " & e)
  read_datos (error (too_large e)) = transient ("AEMET datos URL response too large: " & e)
  read_datos (error other_error) = failed
  read_datos (ok (status_code, body)) =
      if not (status_code == 200)
      then transient ("AEMET datos URL returned " & decimal status_code)
      else fetched body

  abbrev outside : String → Fetched String
  outside datos_url =
      protocol ("AEMET datos URL outside opendata.aemet.es: " & lib.repr (text datos_url))

  unfoldable pub fetch_datos : ℕ → Network → String → Option Location → Fetch
  unfolding get_capped
  fetch_datos max_bytes net datos_url none = ([], failed)
  fetch_datos max_bytes net datos_url (some location) =
      if not (is_aemet location) then ([], outside datos_url) else (
        datos_request datos_url ∷ [],
        read_datos (get_capped net (datos_request datos_url) max_bytes false),
      )

  -- `urlparse` raises an AttributeError on a true value that is not a text.
  abbrev pub follow : ℕ → Network → Json F → Fetch
  follow max_bytes net (text datos_url) =
      fetch_datos max_bytes net datos_url (lib.urlparse datos_url)
  follow max_bytes net _ = ([], failed)

  abbrev rejected : Json F → Option (Json F) → Fetched String
  rejected estado descripcion =
      protocol ("AEMET envelope estado=" & lib.repr estado & ": " & description descripcion)

  -- The state that AEMET writes into the envelope; what is not an object has no `get`.
  abbrev pub read_envelope : ℕ → Network → Json F → Fetch
  read_envelope max_bytes net (object fields) =
      let estado = or_null (lookup "estado" (fields_of fields)) in
      let datos_url = or_null (lookup "datos" (fields_of fields)) in
      if is_number 429 estado
      then ([], transient "AEMET API quota exhausted")
      else if not (is_number 200 estado) || not (is_truthy datos_url)
      then ([], rejected estado (lookup "descripcion" (fields_of fields)))
      else follow max_bytes net datos_url
  read_envelope max_bytes net _ = ([], failed)

  abbrev pub parse_envelope : ℕ → Network → Option (Json F) → Fetch
  parse_envelope max_bytes net none = ([], protocol "AEMET envelope is not JSON")
  parse_envelope max_bytes net (some envelope) = read_envelope max_bytes net envelope

  abbrev pub after_envelope : ℕ → Network → Result Raised (ℕ × String) → Fetch
  after_envelope max_bytes net (error (http_error e)) =
      ([], transient ("AEMET OpenData unreachable: " & e))
  after_envelope max_bytes net (error (too_large e)) =
      ([], transient ("AEMET envelope too large: " & e))
  after_envelope max_bytes net (error other_error) = ([], failed)
  after_envelope max_bytes net (ok (status_code, raw)) =
      if leb 500 status_code
      then ([], transient ("AEMET API returned " & decimal status_code))
      else parse_envelope max_bytes net (lib.loads raw)

  abbrev after_request : Request → Fetch → Fetch
  after_request request (requests, result) = (request ∷ requests, result)

  -- `_fetch_archive`, with the handler of HTTPError around it
  unfoldable pub fetch_archive : String → ℕ → Network → Fetch
  unfolding get_capped fetch_datos
  fetch_archive api_key max_bytes net =
      let request = envelope_request api_key in
      after_request request
        (after_envelope max_bytes net (get_capped net request max_envelope_bytes true))
