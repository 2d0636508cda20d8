-- ===== src/Hazards/Queries/Pagination/Unexpected.antt =====
-- Which cursors make the decoder raise what the API does not expect.
use geo_hazard.Base.{ℕ, String, ◌≡◌, Bool, true, false, some}
use geo_hazard.Base.Json.{Json, null, bool, number, text, array, object, nil, cons}
use geo_hazard.Hazards.Queries.Pagination.{
  CursorLibraries, Decoded, decoded, invalid_cursor, unexpected,
}

module _ {F : Type 0} where
  -- A value that `uuid.UUID` takes for a text: it is neither a text nor None.
  abbrev pub IsNoText : Json F → Type 0
  IsNoText null = ⊥
  IsNoText (text s) = ⊥
  IsNoText (bool b) = Unit
  IsNoText (number x) = Unit
  IsNoText (array vs) = Unit
  IsNoText (object fs) = Unit

abbrev is_unexpected : Decoded → Bool
is_unexpected (decoded c) = false
is_unexpected invalid_cursor = false
is_unexpected unexpected = true

module _ {F : Type 0} (lib : CursorLibraries F) where
  -- The JSON of the cursor is a list of a time and of what is neither a text nor null.
  abbrev pub IsUnreadable : String → Type 0
  IsUnreadable cursor =
      (raw s : String) × (at : ℕ) × (v : Json F) × (lib.b64decode cursor ≡ some raw)
      × (lib.loads raw ≡ some (array (cons (text s) (cons v nil))))
      × (lib.fromisoformat s ≡ some at)
      × IsNoText v
