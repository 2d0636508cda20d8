-- ===== src/Parsers/Ign/Malformed.antt =====
-- One malformed item of a feed of the IGN.
use Prim.Native.String.{String}
use geo_hazard.Base.{◌≡◌, refl, ap, ◌∙◌, none, some, List, ◌∷◌, ◌++◌, ◌&◌, or_default}
use geo_hazard.Parsers.{crashed, aborted, parse_entries}
use geo_hazard.Parsers.Feeds.{parse_entries-aborted}
use geo_hazard.Parsers.Xml.{Element, findall, findtext, findall_in, or_none}
use geo_hazard.Parsers.Ign.{
  IgnLibraries, Description, geo_ns, guid_of, parse_item, parse_root, parse_georss,
}

module _ {F : Type 0} (lib : IgnLibraries F) where
  -- An item that has all of its parts, with these texts for its place.
  abbrev pub HasParts : Element → String → String → Type 0
  HasParts item lat_text lon_text =
      (evid : String) × (d : Description) × (or_none (some (lib.evid (guid_of lib item)))
        ≡ some evid)
      × (or_none (findtext (geo_ns & "lat") item) ≡ some lat_text)
      × (or_none (findtext (geo_ns & "long") item) ≡ some lon_text)
      × (lib.search (or_default (findtext "description" item) "") ≡ some d)

  parse_item-aborted :
      (item : Element) (lat_text lon_text : String)
      → HasParts item lat_text lon_text
      → lib.floats.read lat_text ≡ none
      → parse_item lib item ≡ aborted
  unfolding parse_item
  parse_item-aborted item lat_text lon_text h n =
      let (evid, d, a, b, c, e) = h in rw a (rw b (rw c (rw e (rw n refl))))

  -- A single item whose latitude is no number, among any others, makes the parser of the feed
  -- raise an exception that is not its own error.
  pub parse_georss-crashed :
      (payload : String) (root : Element) (us : List Element) (item : Element) (vs : List Element)
      (lat_text lon_text : String)
      → lib.fromstring payload ≡ some root
      → findall_in "item" (findall "channel" root) ≡ us ++ item ∷ vs
      → HasParts item lat_text lon_text
      → lib.floats.read lat_text ≡ none
      → parse_georss lib payload ≡ crashed
  unfolding parse_georss
  parse_georss-crashed payload root us item vs lat_text lon_text x y h n =
      ap (parse_root lib) x
      ∙ ap (parse_entries "none of the feed items were parseable" (parse_item lib)) y
      ∙ parse_entries-aborted (parse_item lib) "none of the feed items were parseable" us item vs
          (parse_item-aborted item lat_text lon_text h n)
