-- ===== src/Clients/Ign.antt =====
-- app/core/ign/drivers/http.py.
use geo_hazard.Base.{ℕ, String, false, not, List, [], ◌∷◌, leb, ◌==◌, ◌&◌, decimal, if◌then◌else◌}
use geo_hazard.Base.Results.{Result, error, ok}
use geo_hazard.Sync.Ign.{IgnRecord}
use geo_hazard.Parsers.Ign.{IgnLibraries, parse_georss}
use geo_hazard.Clients.{
  Request, Network, Raised, http_error, too_large, other_error, Fetched, transient, protocol,
  failed, of_parse, get_capped,
}

abbrev pub feed_url : String
feed_url = "https://www.ign.es/ign/RssTools/sismologia.xml"

abbrev pub feed_request : String → Request
feed_request user_agent = record {
  url = feed_url;
  params = [];
  headers = ("User-Agent", user_agent) ∷ [];
}

module _ {F : Type 0} (lib : IgnLibraries F) where
  abbrev pub read_feed : Result Raised (ℕ × String) → Fetched (List (IgnRecord F))
  read_feed (error (http_error e)) = transient ("IGN feed unreachable: " & e)
  read_feed (error (too_large e)) = transient ("IGN feed response too large: " & e)
  read_feed (error other_error) = failed
  read_feed (ok (status_code, body)) =
      if leb 500 status_code
      then transient ("IGN feed returned " & decimal status_code)
      else if not (status_code == 200)
      then protocol ("IGN feed returned " & decimal status_code)
      else of_parse (parse_georss lib body)

  unfoldable pub fetch_earthquakes : String → ℕ → Network → Fetched (List (IgnRecord F))
  unfolding get_capped
  fetch_earthquakes user_agent max_bytes net =
      read_feed (get_capped net (feed_request user_agent) max_bytes false)
