-- ===== src/Hazards/Queries/Pagination.antt =====
-- app/hazards/services/pagination.py. Base64, JSON, ISO times and UUIDs are arguments.
pub mod Unexpected
use geo_hazard.Base.{
  ℕ, String, ◌≡◌, ap, ◌∙◌, Option, none, some, chars, first_chars, last_chars, ◌==◌, if◌then◌else◌,
}
use geo_hazard.Base.Json.{Json, null, bool, number, text, array, object, nil, cons, end, field}
use geo_hazard.Hazards.Pages.{Cursor}

-- What the cursor calls, `none` where it raises a ValueError.
pub record CursorLibraries (F : Type 0) : Type 0 where
  pub b64encode : String → String
  pub b64decode : String → Option String
  pub dumps : Json F → String
  pub loads : String → Option (Json F)
  pub isoformat : ℕ → String
  pub fromisoformat : String → Option ℕ
  pub uuid_text : ℕ → String
  pub uuid : String → Option ℕ

-- [s, t]
abbrev pub pair_of : {F : Type 0} → String → String → Json F
pair_of s t = array (cons (text s) (cons (text t) nil))

-- The readers read back what the writers write.
pub record IsCodec {F : Type 0} (lib : CursorLibraries F) : Type 0 where
  pub b64 : (s : String) → lib.b64decode (lib.b64encode s) ≡ some s
  pub json : (s t : String) → lib.loads (lib.dumps (pair_of s t)) ≡ some (pair_of s t)
  pub time : (t : ℕ) → lib.fromisoformat (lib.isoformat t) ≡ some t
  pub id : (n : ℕ) → lib.uuid (lib.uuid_text n) ≡ some n

pub data Decoded : Type 0 where
  decoded : Cursor → Decoded
  -- a ValueError
  invalid_cursor : Decoded
  -- any other exception
  unexpected : Decoded

module _ {F : Type 0} (lib : CursorLibraries F) where
  unfoldable pub encode_cursor : Cursor → String
  encode_cursor (starts_at, event_id) =
      lib.b64encode (lib.dumps (pair_of (lib.isoformat starts_at) (lib.uuid_text event_id)))

  -- The two values that an iterable of two unpacks into.
  abbrev pub unpack : Json F → Option (Json F × Json F)
  unpack (array (cons a (cons b nil))) = some (a, b)
  unpack (object (field j v (field k w end))) = some (text j, text k)
  unpack (text s) =
      if chars s == 2 then some (text (first_chars 1 s), text (last_chars 1 s)) else none
  unpack _ = none

  abbrev pub with_time : Option ℕ → Option ℕ → Decoded
  with_time (some starts_at) (some event_id) = decoded (starts_at, event_id)
  with_time (some starts_at) none = invalid_cursor
  with_time none _ = invalid_cursor

  -- uuid.UUID of a value: None raises a TypeError, any other that is not a text an AttributeError.
  abbrev pub with_id : Option ℕ → Json F → Decoded
  with_id none v = invalid_cursor
  with_id (some starts_at) (text s) = with_time (some starts_at) (lib.uuid s)
  with_id (some starts_at) null = invalid_cursor
  with_id (some starts_at) (bool b) = unexpected
  with_id (some starts_at) (number x) = unexpected
  with_id (some starts_at) (array vs) = unexpected
  with_id (some starts_at) (object fs) = unexpected

  -- `datetime.fromisoformat` of what is not a text raises a TypeError.
  abbrev pub parts_of : Option (Json F × Json F) → Decoded
  parts_of none = invalid_cursor
  parts_of (some (text s, id)) = with_id (lib.fromisoformat s) id
  parts_of (some (_, id)) = invalid_cursor

  abbrev pub loaded : Option (Json F) → Decoded
  loaded none = invalid_cursor
  loaded (some v) = parts_of (unpack v)

  abbrev pub read_raw : Option String → Decoded
  read_raw none = invalid_cursor
  read_raw (some raw) = loaded (lib.loads raw)

  unfoldable pub decode_cursor : String → Decoded
  decode_cursor cursor = read_raw (lib.b64decode cursor)

module _ {F : Type 0} (lib : CursorLibraries F) where
  decode_cursor-loaded :
      (cursor raw : String) (v : Json F)
      → lib.b64decode cursor ≡ some raw
      → lib.loads raw ≡ some v
      → decode_cursor lib cursor ≡ parts_of lib (unpack lib v)
  unfolding decode_cursor
  decode_cursor-loaded cursor raw v b j = ap (read_raw lib) b ∙ ap (loaded lib) j

  -- A cursor that was encoded is decoded to what it was, where the libraries read back what they
  -- write.
  pub decode_cursor-encode_cursor :
      IsCodec lib → (c : Cursor) → decode_cursor lib (encode_cursor lib c) ≡ decoded c
  unfolding encode_cursor
  decode_cursor-encode_cursor l (starts_at, event_id) =
      decode_cursor-loaded _ _ _ (l.b64 _)
        (l.json (lib.isoformat starts_at) (lib.uuid_text event_id))
      ∙ ap (λ t. with_id lib t (text (lib.uuid_text event_id))) (l.time starts_at)
      ∙ ap (with_time lib (some starts_at)) (l.id event_id)
