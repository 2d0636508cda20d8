-- ===== src/Parsers.antt =====
-- The parsers of the three sources (app/core/effis, app/core/ign, app/core/aemet). What they raise
-- is a value: the error of the source, or an exception that no handler expects.
pub mod Feeds
pub mod Xml
pub mod Effis
pub mod Ign
pub mod Aemet
mod Tests
use geo_hazard.Base.{String, Bool, ◌&&◌, Option, none, some, List, [], ◌∷◌, if◌then◌else◌}

pub data Parse (A : Type 0) : Type 0 where
  parsed : A → Parse A
  -- the ProtocolError of the source
  protocol_error : String → Parse A
  -- any other exception
  crashed : Parse A

-- What becomes of one entry of a feed.
pub data Entry (A : Type 0) : Type 0 where
  accepted : A → Entry A
  skipped : Entry A
  aborted : Entry A

module _ {A : Type 0} where
  abbrev pub is_empty : List A → Bool
  is_empty [] = Bool.true
  is_empty (x ∷ xs) = Bool.false

  abbrev pub with_entry : Entry A → Option (List A) → Option (List A)
  with_entry aborted rest = none
  with_entry skipped rest = rest
  with_entry (accepted a) none = none
  with_entry (accepted a) (some as') = some (a ∷ as')

module _ {V A : Type 0} where
  -- The loop over the entries; `none` where one of them raises.
  unfoldable pub entries : (V → Entry A) → List V → Option (List A)
  entries read [] = some []
  entries read (v ∷ vs) = with_entry (read v) (entries read vs)

  -- A feed of which no entry can be read is an error.
  abbrev pub checked : String → List V → Option (List A) → Parse (List A)
  checked error vs none = crashed
  checked error vs (some []) = if is_empty vs then parsed [] else protocol_error error
  checked error vs (some (a ∷ as')) = parsed (a ∷ as')

  unfoldable pub parse_entries : String → (V → Entry A) → List V → Parse (List A)
  parse_entries error read vs = checked error vs (entries read vs)
