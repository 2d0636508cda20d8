-- ===== src/Clients/Archive.antt =====
-- `_parse_archive` of app/core/aemet/drivers/http.py. What the tar library reads is an argument.
pub mod Whole
use geo_hazard.Base.{
  ℕ, zero, suc, String, Bool, true, false, not, Option, none, some, List, [], ◌∷◌, ltb, ◌==◌, ◌&◌,
  decimal, if◌then◌else◌,
}
use geo_hazard.Sync.Aemet.{AemetWarning}
use geo_hazard.Parsers.{Parse, parsed, protocol_error, crashed}
use geo_hazard.Parsers.Aemet.{CapLibraries, parse_cap}
use geo_hazard.Clients.{Network, Fetched, fetched, transient, protocol, failed}
use geo_hazard.Clients.Aemet.{AemetLibraries, fetch_archive}

-- What `extractfile` and the reading of its file give.
pub data Reading : Type 0 where
  no_file : Reading
  contents : String → Reading
  tar_error : String → Reading
  other_error : Reading

pub record Member : Type 0 where
  pub name : String
  pub is_file : Bool
  pub size : ℕ
  pub reading : Reading

-- How the iteration over the members ends.
pub data Ending : Type 0 where
  complete : Ending
  broken_tar : String → Ending
  broken_stream : Ending

pub record TarLibraries : Type 0 where
  -- the members, and how their iteration ends; a TarError of `open` comes before any member
  pub members : String → List Member × Ending
  pub repr : String → String

abbrev pub max_tar_members : ℕ
max_tar_members = 10000

abbrev pub max_tar_member_bytes : ℕ
max_tar_member_bytes = 10485760

-- What the loop over the members gives: the warnings with the number of skipped files, or what it
-- raised.
pub data Walked (F : Type 0) : Type 0 where
  walked : List (AemetWarning F) → ℕ → Walked F
  -- the text of an AemetProtocolError, or `none` for any other exception
  stopped : Option String → Walked F

module _ {F : Type 0} where
  abbrev not_a_tar : String → Walked F
  not_a_tar e = stopped (some ("AEMET datos URL did not return a tar: " & e))

  abbrev pub with_warning : AemetWarning F → Walked F → Walked F
  with_warning warning (walked warnings skipped) = walked (warning ∷ warnings) skipped
  with_warning warning (stopped e) = stopped e

  abbrev pub with_skipped : Walked F → Walked F
  with_skipped (walked warnings skipped) = walked warnings (suc skipped)
  with_skipped (stopped e) = stopped e

  abbrev pub with_parse : Parse (AemetWarning F) → Walked F → Walked F
  with_parse (parsed warning) rest = with_warning warning rest
  with_parse (protocol_error e) rest = with_skipped rest
  with_parse crashed rest = stopped none

  unfoldable pub at_end : Ending → Walked F
  at_end complete = walked [] 0
  at_end (broken_tar e) = not_a_tar e
  at_end broken_stream = stopped none

  abbrev pub checked_warnings : Walked F → Fetched (List (AemetWarning F))
  checked_warnings (stopped none) = failed
  checked_warnings (stopped (some e)) = protocol e
  checked_warnings (walked [] zero) = fetched []
  checked_warnings (walked [] (suc skipped)) =
      protocol "every CAP file in the AEMET tar failed to parse"
  checked_warnings (walked (warning ∷ warnings) skipped) = fetched (warning ∷ warnings)

module _ {F : Type 0} (cap : CapLibraries) (tar : TarLibraries) where
  unfoldable pub with_reading : Reading → Walked F → Walked F
  with_reading no_file rest = rest
  with_reading (contents payload) rest = with_parse (parse_cap cap payload) rest
  with_reading (tar_error e) rest = not_a_tar e
  with_reading other_error rest = stopped none

  abbrev too_many : Walked F
  too_many = stopped (some ("AEMET tar has too many members (> " & decimal max_tar_members & ")"))

  abbrev too_large_member : Member → Walked F
  too_large_member m =
      stopped
        (some ("AEMET tar member " & tar.repr m.name & " too large (" & decimal m.size & " bytes)"))

  -- One member; its size is read before its content.
  unfoldable pub with_member : Member → Walked F → Walked F
  with_member m rest =
      if not m.is_file
      then rest
      else if ltb max_tar_member_bytes m.size
      then too_large_member m
      else with_reading m.reading rest

  -- The loop, with the number of members that it may still see.
  unfoldable pub walk_members : ℕ → List Member → Ending → Walked F
  walk_members left [] ending = at_end ending
  walk_members zero (m ∷ ms) ending = too_many
  walk_members (suc left) (m ∷ ms) ending = with_member m (walk_members left ms ending)

  unfoldable pub parse_archive : String → Fetched (List (AemetWarning F))
  parse_archive data' =
      let archive = tar.members data' in
      checked_warnings (walk_members max_tar_members archive.0 archive.1)

  abbrev pub parse_fetched : Fetched String → Fetched (List (AemetWarning F))
  parse_fetched (fetched archive) = parse_archive archive
  parse_fetched (transient e) = transient e
  parse_fetched (protocol e) = protocol e
  parse_fetched failed = failed

  unfoldable pub fetch_warnings :
      AemetLibraries F → String → ℕ → Network → Fetched (List (AemetWarning F))
  fetch_warnings lib api_key max_bytes net =
      parse_fetched (fetch_archive lib api_key max_bytes net).1
