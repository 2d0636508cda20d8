-- ===== src/Parsers/Aemet.antt =====
-- app/core/aemet/parser.py, from an XML element on.
use Prim.Native.String.{String}
use geo_hazard.Base.{
  ℕ, Bool, Option, none, some, List, [], ◌∷◌, ◌++◌, ◌&◌, or_default, lower, starts_with, words,
  split,
}
use geo_hazard.Base.Query.{first_where}
use geo_hazard.Base.Dict.{Dict, lookup, insert}
use geo_hazard.Base.Json.{text}
use geo_hazard.Hazards.Model.{Attrs}
use geo_hazard.Sync.Aemet.{AemetWarning}
use geo_hazard.Parsers.{Parse, parsed, protocol_error}
use geo_hazard.Parsers.Xml.{Element, find, findall, findtext, or_none}

-- What the parser calls: the XML library and `datetime.fromisoformat`, `none` where they raise.
pub record CapLibraries : Type 0 where
  pub fromstring : String → Option Element
  pub fromisoformat : String → Option ℕ

abbrev cap : String → String
cap name = "{urn:oasis:names:tc:emergency:cap:1.2}" & name

abbrev cap_text : String → Element → Option String
cap_text name e = findtext (cap name) e

-- The identifier of a triple "sender,identifier,sent".
abbrev triple_of : List String → List String
triple_of (sender ∷ identifier ∷ sent ∷ rest) = identifier ∷ []
triple_of _ = []

unfoldable pub references_of : List String → List String
references_of [] = []
references_of (chunk ∷ chunks) = triple_of (split b',' chunk) ++ references_of chunks

abbrev is_spanish : Element → Bool
is_spanish info = starts_with (lower (or_default (cap_text "language" info) "")) "es"

abbrev first_spanish : List Element → Option Element
first_spanish infos = first_where is_spanish infos

abbrev first_of : List Element → Option Element
first_of [] = none
first_of (e ∷ es) = some e

-- `_spanish_info`
unfoldable pub spanish_info : Element → Option Element
spanish_info root =
    let infos = findall (cap "info") root in
    elim (first_spanish infos) [ none ↦ first_of infos | some info ↦ some info ]

abbrev named : Option String → Option String → Dict String → Dict String
named (some name) (some value) d = insert name value d
named _ _ d = d

values_of : List Element → Dict String → Dict String
values_of [] d = d
values_of (e ∷ es) d =
    values_of es (named (or_none (cap_text "valueName" e)) (or_none (cap_text "value" e)) d)

-- `_named_values`
unfoldable pub named_values : String → Element → Dict String
unfolding values_of
named_values name parent = values_of (findall (cap name) parent) []

abbrev in_area : {A : Type 0} → Option Element → (Element → Option A) → Option A
in_area none k = none
in_area (some area) k = k area

-- attrs without the keys of None
module _ {F : Type 0} where
  abbrev with_text : String → Option String → Attrs F → Attrs F
  with_text key none d = d
  with_text key (some s) d = (key, text s) ∷ d

  abbrev attrs_of : Element → Dict String → Attrs F
  attrs_of info parameters = with_text "headline" (cap_text "headline" info) (
      with_text "description" (cap_text "description" info) (
        with_text "cap_severity" (cap_text "severity" info) (
          with_text "probability" (lookup "AEMET-Meteoalerta probabilidad" parameters)
            (with_text "parameter" (lookup "AEMET-Meteoalerta parametro" parameters) []))))

  -- A message without a content.
  abbrev bare : String → String → ℕ → List String → AemetWarning F
  bare identifier msg_type sent references = record {
    external_id = identifier;
    msg_type = msg_type;
    sent = sent;
    references = references;
    event = none;
    phenomenon = none;
    level = none;
    onset = none;
    expires = none;
    polygon = none;
    zone = none;
    area_desc = none;
    attrs = [];
  }

  abbrev filled : AemetWarning F → Element → Option ℕ → Option ℕ → AemetWarning F
  filled base info onset expires =
      let parameters = named_values "parameter" info in
      let area = find (cap "area") info in
      record base {
        event = cap_text "event" info;
        phenomenon = lookup "AEMET-Meteoalerta fenomeno" (named_values "eventCode" info);
        level = lookup "AEMET-Meteoalerta nivel" parameters;
        onset = onset;
        expires = expires;
        polygon = in_area area (cap_text "polygon");
        zone = in_area area (λ a. lookup "AEMET-Meteoalerta zona" (named_values "geocode" a));
        area_desc = in_area area (cap_text "areaDesc");
        attrs = attrs_of info parameters;
      }

module _ {F : Type 0} (lib : CapLibraries) where
  abbrev bad_timestamp : Parse (AemetWarning F)
  bad_timestamp = protocol_error "unparseable CAP timestamp"

  -- `_parse_moment(text) if text else None`
  abbrev moment_then : Option String → (Option ℕ → Parse (AemetWarning F)) → Parse (AemetWarning F)
  moment_then none k = k none
  moment_then (some s) k = elim (lib.fromisoformat s) [
    | none ↦ bad_timestamp
    | some at ↦ k (some at)
  ]

  abbrev with_info : AemetWarning F → Option Element → Parse (AemetWarning F)
  with_info base none = parsed base
  with_info base (some info) = moment_then (or_none (cap_text "onset" info)) λ onset.
      moment_then (or_none (cap_text "expires" info))
        λ expires. parsed (filled base info onset expires)

  abbrev message_of :
      Element → Option String → Option String → Option String → Parse (AemetWarning F)
  message_of root (some identifier) (some msg_type) (some sent_text) =
      elim (lib.fromisoformat sent_text) [
        | none ↦ bad_timestamp
        | some sent ↦
            with_info
              (bare identifier msg_type sent
                (references_of (words (or_default (cap_text "references" root) ""))))
              (spanish_info root)
      ]
  message_of root _ _ _ = protocol_error "CAP alert missing identifier/msgType/sent"

  abbrev parse_root : Option Element → Parse (AemetWarning F)
  parse_root none = protocol_error "unparseable CAP XML"
  parse_root (some root) =
      message_of root (or_none (cap_text "identifier" root)) (or_none (cap_text "msgType" root))
        (or_none (cap_text "sent" root))

  pub parse_cap : String → Parse (AemetWarning F)
  parse_cap payload = parse_root (lib.fromstring payload)
