-- ===== src/Clients/Tests.antt =====
-- The theorems on the clients at a body in two chunks, a redirected envelope, a tar with two files
-- and sources that are down.
use geo_hazard.Base.{
  ℕ, ◌+◌, ◌≤◌, ◌≡◌, refl, true, false, none, some, [], ◌∷◌, ltb, leb, arith, length, All,
  starts_with, if◌then◌else◌,
}
use geo_hazard.Base.Dict.{lookup}
use geo_hazard.Base.Json.{Json, object, field, end, number, text}
use geo_hazard.Base.Floats.{Floats}
use geo_hazard.Base.Results.{ok}
use geo_hazard.Sync.{Libraries, Readings, World}
use geo_hazard.Parsers.Effis.{EffisLibraries}
use geo_hazard.Parsers.Ign.{IgnLibraries}
use geo_hazard.Parsers.Aemet.{CapLibraries}
use geo_hazard.Clients.{
  Request, Response, opened, unreachable, Network, fetched, read_chunks, get_capped,
}
use geo_hazard.Clients.Capped.{whole_response, get_capped-whole}
use geo_hazard.Clients.Aemet.{
  AemetLibraries, envelope_request, datos_request, fetch_datos, fetch_archive,
}
use geo_hazard.Clients.Aemet.Hosts.{IsSafe, fetch_archive-IsSafe}
use geo_hazard.Clients.Archive.{
  Member, no_file, complete, TarLibraries, with_reading, with_member, walk_members, at_end,
  parse_archive, max_tar_members,
}
use geo_hazard.Clients.Archive.Whole.{IsSmall, warnings_of, parse_archive-whole}
use geo_hazard.Clients.Jobs.{ClientSettings, ParserLibraries, source_job}
use geo_hazard.Clients.Jobs.Down.{IsSkipped, source_job-IsDown}
use geo_hazard.Hazards.Model.{aemet}

-- Tenths as natural numbers.
abbrev floats : Floats ℕ
floats = record {
  tenths = λ n. n;
  minus = λ a. 0;
  le = leb;
  lt = ltb;
  is_finite = λ a. true;
  read = λ s. none;
}

-- Every request is answered by a body of two chunks.
abbrev two_chunks : Response
two_chunks = record { status_code = 200; chunks = "abc" ∷ "de" ∷ []; broken = none }

abbrev net : Network
net request = opened two_chunks

abbrev request : Request
request = datos_request "https://opendata.aemet.es/x"

get_capped-whole_example : get_capped net request 4 false ≡ whole_response 4 false two_chunks
get_capped-whole_example = get_capped-whole net request 4 false two_chunks refl refl

five_bytes : get_capped net request 5 false ≡ ok (200, "abcde")
unfolding get_capped read_chunks
five_bytes = refl

-- An envelope that names a host of someone else.
abbrev envelope : Json ℕ
envelope = object (field "estado" (number 2000) (field "datos" (text "https://127.0.0.1/") end))

abbrev aemet_lib : AemetLibraries ℕ
aemet_lib = record {
  floats = floats;
  loads = λ s. some envelope;
  repr = λ v. "?";
  urlparse = λ s. some (record { scheme = "https"; hostname = some "127.0.0.1" });
}

redirected : (fetch_archive aemet_lib "key" 100 net).0 ≡ envelope_request "key" ∷ []
unfolding fetch_archive fetch_datos get_capped read_chunks lookup
redirected = refl

fetch_archive-IsSafe_example :
    All (IsSafe aemet_lib "key") (fetch_archive aemet_lib "key" 100 net).0
    × (length (fetch_archive aemet_lib "key" 100 net).0 ≤ 2)
fetch_archive-IsSafe_example = fetch_archive-IsSafe aemet_lib "key" 100 net

abbrev cap : CapLibraries
cap = record { fromstring = λ s. none; fromisoformat = λ s. none }

abbrev directory : Member
directory = record { name = "a"; is_file = false; size = 0; reading = no_file }

abbrev link : Member
link = record { name = "b"; is_file = true; size = 9; reading = no_file }

abbrev tar : TarLibraries
tar = record { members = λ s. (directory ∷ link ∷ [], complete); repr = λ s. s }

archive_run : parse_archive {F = ℕ} cap tar "tar" ≡ fetched []
unfolding parse_archive walk_members with_member with_reading at_end
archive_run = refl

parse_archive-whole_example :
    ([] ≡ warnings_of {F = ℕ} cap (directory ∷ link ∷ []))
    × (2 ≤ max_tar_members)
    × All IsSmall (directory ∷ link ∷ [])
    × (complete ≡ complete)
parse_archive-whole_example = parse_archive-whole cap tar "tar" archive_run

abbrev lib : Libraries ℕ ℕ
lib = record {
  floats = floats;
  shape = λ g. none;
  is_empty = λ g. false;
  point = λ x y. x + y;
  polygon = λ ps. length ps;
  is_valid = λ g. true;
  make_valid = λ g. g;
  dumps = λ v. "json";
  sha256 = λ s. s;
  isoformat = λ n. "2026";
  province = λ g. none;
}

abbrev at : Readings
at = record { transaction_at = 7; clock = 7; event_ids = λ k. 1; outbox_id = 1; max_retries = 3 }

abbrev empty : World ℕ ℕ
empty = record { events = []; states = []; outbox = [] }

abbrev settings : ClientSettings
settings = record {
  user_agent = "geo-hazard";
  max_response_bytes = 100;
  effis_bbox = "-19,27,5,44";
  aemet_api_key = "key";
}

abbrev ign_lib : IgnLibraries ℕ
ign_lib = record {
  floats = floats;
  fromstring = λ s. none;
  evid = λ s. s;
  search = λ s. none;
  madrid = λ s. none;
}

abbrev effis_lib : EffisLibraries ℕ
effis_lib = record { floats = floats; loads = λ s. none; show = λ v. "?"; moment = λ s. none }

-- The server of AEMET fails, and the others are not reached.
abbrev down : Network
down r =
    if starts_with r.url "https://opendata"
    then opened (record { status_code = 503; chunks = "sorry" ∷ []; broken = none })
    else unreachable "ConnectTimeout"

abbrev parsers : ParserLibraries ℕ
parsers = record {
  ign_lib = ign_lib;
  effis_lib = effis_lib;
  aemet_lib = aemet_lib;
  tar = tar;
  cap = cap;
}

source_job-IsDown_example :
    IsSkipped aemet at empty (source_job lib parsers settings down aemet at empty)
unfolding starts_with
source_job-IsDown_example = source_job-IsDown lib parsers settings down aemet at empty (omega arith)
