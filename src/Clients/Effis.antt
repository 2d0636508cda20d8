-- ===== src/Clients/Effis.antt =====
-- app/core/effis/drivers/http.py.
use geo_hazard.Base.{
  ℕ, String, false, not, List, [], ◌∷◌, leb, ◌==◌, ◌&◌, decimal, contains, first_chars,
  if◌then◌else◌,
}
use geo_hazard.Base.Results.{Result, error, ok}
use geo_hazard.Sync.Effis.{EffisRecord}
use geo_hazard.Parsers.Effis.{EffisLibraries, parse_hotspots, parse_burnt_areas}
use geo_hazard.Parsers.{Parse}
use geo_hazard.Clients.{
  Request, Network, Raised, http_error, too_large, other_error, Fetched, fetched, transient,
  protocol, failed, of_parse, get_capped,
}

abbrev pub base_url : String
base_url = "https://maps.effis.emergency.copernicus.eu/gwis"

abbrev pub hotspots_layer : String
hotspots_layer = "all.hs.week.points"

abbrev pub burnt_areas_layer : String
burnt_areas_layer = "nrt.ba.poly.week"

abbrev pub features_request : String → String → String → Request
features_request user_agent bbox typename = record {
  url = base_url;
  params =
      ("service", "WFS")
      ∷ ("version", "1.0.0")
      ∷ ("request", "GetFeature")
      ∷ ("typename", typename)
      ∷ ("outputFormat", "geojson")
      ∷ ("bbox", bbox)
      ∷ [];
  headers = ("User-Agent", user_agent) ∷ [];
}

-- A body that the WFS serves with the status 200.
abbrev pub checked_body : String → String → Fetched String
checked_body typename body =
    if contains (first_chars 512 body) "ServiceExceptionReport"
    then if contains body "InvalidParameterValue"
      then protocol ("EFFIS WFS rejected the request for " & typename)
      else transient ("EFFIS WFS layer backend error on " & typename)
    else fetched body

abbrev pub read_features : String → Result Raised (ℕ × String) → Fetched String
read_features typename (error (http_error e)) = transient ("EFFIS WFS unreachable: " & e)
read_features typename (error (too_large e)) = transient ("EFFIS WFS response too large: " & e)
read_features typename (error other_error) = failed
read_features typename (ok (status_code, body)) =
    if leb 500 status_code
    then transient ("EFFIS WFS returned " & decimal status_code)
    else if not (status_code == 200)
    then protocol ("EFFIS WFS returned " & decimal status_code)
    else checked_body typename body

-- `_get_features`
unfoldable pub get_features : String → String → ℕ → Network → String → Fetched String
unfolding get_capped
get_features user_agent bbox max_bytes net typename =
    read_features typename
      (get_capped net (features_request user_agent bbox typename) max_bytes false)

abbrev pub parse_with : {R : Type 0} → (String → Parse R) → Fetched String → Fetched R
parse_with parse (fetched body) = of_parse (parse body)
parse_with parse (transient e) = transient e
parse_with parse (protocol e) = protocol e
parse_with parse failed = failed

module _ {F : Type 0} (lib : EffisLibraries F) where
  unfoldable pub fetch_hotspots : String → String → ℕ → Network → Fetched (List (EffisRecord F))
  unfolding get_features
  fetch_hotspots user_agent bbox max_bytes net =
      parse_with (parse_hotspots lib) (get_features user_agent bbox max_bytes net hotspots_layer)

  pub fetch_burnt_areas : String → String → ℕ → Network → Fetched (List (EffisRecord F))
  unfolding get_features
  fetch_burnt_areas user_agent bbox max_bytes net =
      parse_with (parse_burnt_areas lib)
        (get_features user_agent bbox max_bytes net burnt_areas_layer)
