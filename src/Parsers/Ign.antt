-- ===== src/Parsers/Ign.antt =====
-- app/core/ign/parser.py, from an XML element on.
pub mod Malformed
use Prim.Native.String.{String}
use geo_hazard.Base.{
  ℕ, Bool, not, ◌&&◌, Option, none, some, List, [], ◌∷◌, str_eq, ◌&◌, or_default, if◌then◌else◌,
}
use geo_hazard.Base.Json.{Json, text}
use geo_hazard.Base.Floats.{Floats}
use geo_hazard.Sync.Ign.{IgnRecord}
use geo_hazard.Parsers.{Parse, protocol_error, Entry, accepted, skipped, aborted, parse_entries}
use geo_hazard.Parsers.Xml.{Element, findall, findtext, findall_in, or_none}

-- The groups of `_DESCRIPTION_RE`.
pub record Description : Type 0 where
  pub magnitude : String
  pub region : String
  pub moment : String

-- What the parser calls: floats, the XML library, the query of a URL, the regular expression, and
-- `strptime` at the time of Madrid, `none` where they raise or find nothing.
pub record IgnLibraries (F : Type 0) : Type 0 where
  pub floats : Floats F
  pub fromstring : String → Option Element
  pub evid : String → String
  pub search : String → Option Description
  pub madrid : String → Option ℕ

abbrev pub geo_ns : String
geo_ns = "{http://www.w3.org/2003/01/geo/wgs84_pos#}"

module _ {F : Type 0} (lib : IgnLibraries F) where
  abbrev is_within : ℕ → F → Bool
  is_within limit x =
      lib.floats.le (lib.floats.minus (lib.floats.tenths limit)) x
      && lib.floats.le x (lib.floats.tenths limit)

  abbrev is_place : F → F → Bool
  is_place latitude longitude =
      lib.floats.is_finite latitude
      && lib.floats.is_finite longitude
      && (is_within 900 latitude && is_within 1800 longitude)

  -- An exception of `float` or `strptime` leaves the loop.
  abbrev or_abort : {A : Type 0} → Option A → (A → Entry (IgnRecord F)) → Entry (IgnRecord F)
  or_abort none k = aborted
  or_abort (some a) k = k a

  abbrev or_skip : {A : Type 0} → Option A → (A → Entry (IgnRecord F)) → Entry (IgnRecord F)
  or_skip none k = skipped
  or_skip (some a) k = k a

  abbrev pub guid_of : Element → String
  guid_of item =
      or_default (or_none (findtext "guid" item)) (or_default (or_none (findtext "link" item)) "")

  abbrev place_of : String → String → (F → F → Entry (IgnRecord F)) → Entry (IgnRecord F)
  place_of lat_text lon_text k = or_abort (lib.floats.read lat_text) λ latitude.
      or_abort (lib.floats.read lon_text)
        λ longitude. if is_place latitude longitude then k latitude longitude else skipped

  abbrev record_of : String → Description → F → F → Entry (IgnRecord F)
  record_of evid d latitude longitude = or_abort (lib.madrid d.moment) λ occurred_at.
      or_abort (lib.floats.read d.magnitude) λ magnitude. accepted (record {
        external_id = evid;
        magnitude = magnitude;
        region = d.region;
        latitude = latitude;
        longitude = longitude;
        occurred_at = occurred_at;
        attrs = ("raw_local_moment", text d.moment) ∷ [];
      })

  -- `_parse_item`
  unfoldable pub parse_item : Element → Entry (IgnRecord F)
  parse_item item = or_skip (or_none (some (lib.evid (guid_of item)))) λ evid.
      or_skip (or_none (findtext (geo_ns & "lat") item)) λ lat_text.
        or_skip (or_none (findtext (geo_ns & "long") item)) λ lon_text.
          or_skip (lib.search (or_default (findtext "description" item) ""))
            λ d. place_of lat_text lon_text (record_of evid d)

  abbrev pub parse_root : Option Element → Parse (List (IgnRecord F))
  parse_root none = protocol_error "unparseable GeoRSS feed"
  parse_root (some root) =
      parse_entries "none of the feed items were parseable" parse_item
        (findall_in "item" (findall "channel" root))

  unfoldable pub parse_georss : String → Parse (List (IgnRecord F))
  parse_georss payload = parse_root (lib.fromstring payload)
