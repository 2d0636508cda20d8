-- ===== src/Clients/Aemet/Hosts.antt =====
-- Where the client of app/core/aemet/drivers/http.py sends its requests and its key.
use geo_hazard.Base.{
  ℕ, ◌≤◌, String, ◌≡◌, refl, sym, ap, Bool, true, false, not, Option, none, some, [], length, All,
  str_eq, eq_iff, and_parts, true_ne_false, All-map, arith, if◌then◌else◌, inl, inr, ◌⊎◌, leb, ◌||◌,
}
use geo_hazard.Base.Json.{Json, null, bool, number, text, array, object, fields_of}
use geo_hazard.Base.Dict.{lookup}
use geo_hazard.Base.Results.{Result, error, ok}
use geo_hazard.Clients.{Request, Network, Raised, http_error, too_large, other_error, get_capped}
use geo_hazard.Clients.Aemet.{
  Location, AemetLibraries, envelope_request, max_envelope_bytes, is_aemet, Fetch, fetch_datos,
  follow, read_envelope, parse_envelope, after_envelope, fetch_archive, is_number, is_truthy,
  or_null, is_host,
}

is_host-eq : (name : String) (o : Option String) → is_host name o ≡ true → o ≡ some name
is_host-eq name none h = absurd (true_ne_false (sym h))
is_host-eq name (some host) h = ap some ((eq_iff host name).0 h)

is_aemet-parts :
    (l : Location)
    → is_aemet l ≡ true
    → (l.scheme ≡ "https") × (l.hostname ≡ some "opendata.aemet.es")
is_aemet-parts l h =
    let parts = and_parts (str_eq l.scheme "https") _ h in
    ((eq_iff l.scheme "https").0 parts.0, is_host-eq "opendata.aemet.es" l.hostname parts.1)

module _ {F : Type 0} (lib : AemetLibraries F) where
  -- A request without headers to AEMET by https.
  abbrev pub IsFollowed : Request → Type 0
  IsFollowed request =
      (location : Location) × (lib.urlparse request.url ≡ some location)
      × (location.scheme ≡ "https")
      × (location.hostname ≡ some "opendata.aemet.es")
      × (request.headers ≡ [])

  -- The request for the envelope, which carries the key, or one without headers to AEMET by https.
  abbrev pub IsSafe : String → Request → Type 0
  IsSafe api_key request = (request ≡ envelope_request api_key) ⊎ IsFollowed request

  abbrev Followed : Fetch → Type 0
  Followed f = All IsFollowed f.0 × (length f.0 ≤ 1)

  either : (b : Bool) (x y : Fetch) → Followed x → Followed y → Followed (if b then x else y)
  either true x y p q = p
  either false x y p q = q

  guarded :
      (b : Bool) (x y : Fetch)
      → Followed x
      → (b ≡ true → Followed y)
      → Followed (if not b then x else y)
  guarded true x y p q = q refl
  guarded false x y p q = p

  fetch_datos-Followed :
      (max_bytes : ℕ) (net : Network) (datos_url : String) (o : Option Location)
      → lib.urlparse datos_url ≡ o
      → Followed (fetch_datos lib max_bytes net datos_url o)
  unfolding fetch_datos
  fetch_datos-Followed max_bytes net datos_url none e = (tt, omega arith)
  fetch_datos-Followed max_bytes net datos_url (some location) e =
      guarded (is_aemet location) _ _ (tt, omega arith)
        λ h.
          let parts = is_aemet-parts location h in
          (((location, e, parts.0, parts.1, refl), tt), omega arith)

  follow-Followed :
      (max_bytes : ℕ) (net : Network) (v : Json F) → Followed (follow lib max_bytes net v)
  follow-Followed max_bytes net (text s) =
      fetch_datos-Followed max_bytes net s (lib.urlparse s) refl
  follow-Followed max_bytes net null = (tt, omega arith)
  follow-Followed max_bytes net (bool b) = (tt, omega arith)
  follow-Followed max_bytes net (number x) = (tt, omega arith)
  follow-Followed max_bytes net (array vs) = (tt, omega arith)
  follow-Followed max_bytes net (object fs) = (tt, omega arith)

  envelope-Followed :
      (max_bytes : ℕ) (net : Network) (v : Json F) → Followed (read_envelope lib max_bytes net v)
  envelope-Followed max_bytes net (object fields) =
      let estado = or_null lib (lookup "estado" (fields_of fields)) in
      let datos_url = or_null lib (lookup "datos" (fields_of fields)) in
      either (is_number lib 429 estado) _ _ (tt, omega arith)
        (either (not (is_number lib 200 estado) || not (is_truthy lib datos_url)) _ _
          (tt, omega arith) (follow-Followed max_bytes net datos_url))
  envelope-Followed max_bytes net null = (tt, omega arith)
  envelope-Followed max_bytes net (bool b) = (tt, omega arith)
  envelope-Followed max_bytes net (number x) = (tt, omega arith)
  envelope-Followed max_bytes net (array vs) = (tt, omega arith)
  envelope-Followed max_bytes net (text s) = (tt, omega arith)

  parsed-Followed :
      (max_bytes : ℕ) (net : Network) (o : Option (Json F))
      → Followed (parse_envelope lib max_bytes net o)
  parsed-Followed max_bytes net none = (tt, omega arith)
  parsed-Followed max_bytes net (some v) = envelope-Followed max_bytes net v

  after-Followed :
      (max_bytes : ℕ) (net : Network) (r : Result Raised (ℕ × String))
      → Followed (after_envelope lib max_bytes net r)
  after-Followed max_bytes net (error (http_error e)) = (tt, omega arith)
  after-Followed max_bytes net (error (too_large e)) = (tt, omega arith)
  after-Followed max_bytes net (error other_error) = (tt, omega arith)
  after-Followed max_bytes net (ok (status_code, raw)) =
      either (leb 500 status_code) _ _ (tt, omega arith)
        (parsed-Followed max_bytes net (lib.loads raw))

  -- Whatever the envelope says, the client makes two requests at most. The key of the API goes out
  -- with the request for the envelope alone, and a second request, without headers, only to the
  -- host of AEMET by https.
  pub fetch_archive-IsSafe :
      (api_key : String) (max_bytes : ℕ) (net : Network)
      → All (IsSafe api_key) (fetch_archive lib api_key max_bytes net).0
        × (length (fetch_archive lib api_key max_bytes net).0 ≤ 2)
  unfolding fetch_archive
  fetch_archive-IsSafe api_key max_bytes net =
      let request = envelope_request api_key in
      let rest = after-Followed max_bytes net (get_capped net request max_envelope_bytes true) in
      (
        (inl refl, All-map IsFollowed (IsSafe api_key) _ (λ r followed. inr followed) rest.0),
        omega (arith, rest.1),
      )
