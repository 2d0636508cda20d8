-- ===== src/Notifications/Messages.antt =====
-- app/notifications/services/messages.py, but for the JSON text of the envelope of a webhook. `str`
-- of a JSON value, local time and the formats of floats are arguments. The items are features in the
-- form of Notifications/Texts: what the code raises on others is not modelled.
pub mod Renders
mod Tests
use mathlib.Core.Option
use geo_hazard.Base.{
  ℕ, ◌+◌, ◌-◌, max, String, Bool, true, false, not, ◌&&◌, Option, none, some, List, [], ◌∷◌, ◌++◌,
  map, take, length, any, leb, ltb, ◌==◌, str_eq, ◌&◌, decimal, join, one_of, strip_end,
  text_before, or_default, if◌then◌else◌,
}
use geo_hazard.Base.Query.{select_where, order_by}
use geo_hazard.Base.Dict.{Dict, lookup}
use geo_hazard.Base.Json.{Json, null, bool, number, text}
use geo_hazard.Base.Floats.{Floats}
use geo_hazard.Hazards.Model.{HazardType, wildfire, earthquake, weather_warning, Attrs}
use geo_hazard.Hazards.Attribution.{SourceAttribution, attributions_for, distinct}
use geo_hazard.Channels.{NtfyMessage}
use geo_hazard.Notifications.Model.{PendingDelivery, ClaimedSubscription, Reason, opened, escalated}
use geo_hazard.Notifications.Texts.{
  Zone, Moment, notice, dict_of, text_of, zone_for, when, phenomenon_name, degraded_note, and_more,
}

pub record MessageLibraries (F : Type 0) : Type 0 where
  pub floats : Floats F
  pub show : Json F → String
  pub local : String → Zone → Moment
  -- f"{x:.1f}" and f"{x:.0f}"
  pub one_decimal : F → String
  pub no_decimals : F → String

abbrev pub source_by_hazard : HazardType → String
source_by_hazard weather_warning = "aemet"
source_by_hazard earthquake = "ign"
source_by_hazard wildfire = "effis"

-- `_NTFY_PRIORITY[severity]`, `none` where it raises
abbrev pub ntfy_priority : ℕ → Option ℕ
ntfy_priority severity = if leb 1 severity && leb severity 4 then some (severity + 1) else none

abbrev pub ntfy_tags : Dict String
ntfy_tags =
    ("weather_warning", "warning")
    ∷ ("earthquake", "globe_with_meridians")
    ∷ ("wildfire", "fire")
    ∷ []

abbrev pub max_zones_in_line : ℕ
max_zones_in_line = 3

-- The degraded sources that the hazard types depend on.
unfoldable pub relevant_degraded : List HazardType → List String → List String
relevant_degraded hazard_types degraded =
    order_by text_before (select_where (λ s. one_of (map source_by_hazard hazard_types) s) degraded)

abbrev pub is_escalated : Reason → Bool
is_escalated opened = false
is_escalated escalated = true

-- The zones that are named, without repetition.
unfoldable pub add_zones : {F : Type 0} → List (Attrs F) → List String → List String
add_zones [] zones = zones
add_zones (item ∷ items) zones =
    elim (text_of
      (lookup "area_desc" (dict_of (lookup "attrs" (dict_of (lookup "properties" item)))))) [
        | none ↦ add_zones items zones
        | some name ↦
            add_zones items (if any (str_eq name) zones then zones else zones ++ name ∷ [])
      ]

module _ {F : Type 0} (lib : MessageLibraries F) where
  abbrev pub props : Attrs F → Attrs F
  props feature = dict_of (lookup "properties" feature)

  -- `_number`
  abbrev pub number_of : Option (Json F) → Option F
  number_of (some (number x)) = some x
  number_of (some (bool true)) = some (lib.floats.tenths 10)
  number_of (some (bool false)) = some (lib.floats.tenths 0)
  number_of (some (text s)) = lib.floats.read s
  number_of _ = none

  abbrev pub when_of : Option (Json F) → Zone → String
  when_of v zone = when lib.local (text_of v) zone

  abbrev pub warning_headline : Bool → Attrs F → String
  warning_headline is_more attrs =
      let level = or_default (text_of (lookup "level" attrs)) "?" in
      let phenomenon = phenomenon_name (text_of (lookup "phenomenon" attrs)) in
      if is_more
      then "Sube a " & level & " el aviso por " & phenomenon
      else "Aviso " & level & " por " & phenomenon

  -- The zones of a line: three at most, and how many more there are.
  abbrev pub where_of : List String → ℕ → String
  where_of zones item_count =
      let shown = take max_zones_in_line zones in
      let hidden = max item_count (length zones) - length shown in
      let named = join ", " shown in
      (if str_eq named "" then "zona sin nombre" else named)
      & (if ltb 0 hidden then " " & and_more hidden else "")

  abbrev pub quake_size : Option F → String
  quake_size none = "magnitud ?"
  quake_size (some magnitude) = "magnitud " & lib.one_decimal magnitude

  abbrev pub extent_of : Option F → String
  extent_of none = "extension desconocida"
  extent_of (some area_ha) = lib.no_decimals area_ha & " ha"

  abbrev pub first_item : List (Attrs F) → Attrs F
  first_item [] = []
  first_item (item ∷ items) = item

  abbrev pub describe_warning :
      PendingDelivery (Attrs F) → Attrs F → Attrs F → Zone → String × String
  describe_warning d properties attrs zone =
      let headline = warning_headline (is_escalated d.reason) attrs in
      (
        headline,
        headline
            & ": "
            & where_of (add_zones d.items []) d.item_count
            & ", de "
            & when_of (lookup "starts_at" properties) zone
            & " a "
            & when_of (lookup "ends_at" properties) zone
            & ".",
      )

  abbrev pub describe_quake : PendingDelivery (Attrs F) → Attrs F → Attrs F → Zone → String × String
  describe_quake d properties attrs zone =
      let size = quake_size (number_of (lookup "magnitude" attrs)) in
      let headline =
        if is_escalated d.reason
        then "Revisado al alza: terremoto de " & size
        else "Terremoto de " & size in
      (
        headline,
        headline
            & " en "
            & or_default (text_of (lookup "region" attrs)) "region desconocida"
            & ", "
            & when_of (lookup "starts_at" properties) zone
            & ".",
      )

  abbrev pub describe_fire : PendingDelivery (Attrs F) → Attrs F → Attrs F → Zone → String × String
  describe_fire d properties attrs zone =
      let extent = extent_of (number_of (lookup "area_ha" attrs)) in
      let headline =
        if is_escalated d.reason then "Crece el incendio: " & extent else "Incendio de " & extent in
      (headline, headline & ", detectado " & when_of (lookup "starts_at" properties) zone & ".")

  -- The headline and the line of a delivery.
  unfoldable pub describe : PendingDelivery (Attrs F) → String × String
  describe d =
      let first = first_item d.items in
      let properties = props first in
      let attrs = dict_of (lookup "attrs" properties) in
      let zone = zone_for lib.floats first in
      let hazard = or_default (text_of (lookup "hazard_type" properties)) "" in
      if str_eq hazard "weather_warning"
      then describe_warning d properties attrs zone
      else if str_eq hazard "earthquake"
      then describe_quake d properties attrs zone
      else describe_fire d properties attrs zone

  abbrev pub all_items : List (PendingDelivery (Attrs F)) → List (Attrs F)
  all_items [] = []
  all_items (d ∷ ds) = d.items ++ all_items ds

  -- The texts at a key of the properties of the items, each once, in order.
  abbrev pub values_at : String → List (Attrs F) → List String
  values_at key [] = []
  values_at key (item ∷ items) = elim (text_of (lookup key (props item))) [
    | none ↦ values_at key items
    | some s ↦ s ∷ values_at key items
  ]

  -- `_sources`
  unfoldable pub sources_of : List (PendingDelivery (Attrs F)) → List String
  sources_of ds = order_by text_before (distinct (values_at "source" (all_items ds)))

  abbrev pub tags_in : List String → List String
  tags_in [] = []
  tags_in (hazard ∷ hazards) = elim (lookup hazard ntfy_tags) [
    | none ↦ tags_in hazards
    | some tag ↦ tag ∷ tags_in hazards
  ]

  unfoldable pub tags_of : List (PendingDelivery (Attrs F)) → List String
  tags_of ds = order_by text_before (tags_in (distinct (values_at "hazard_type" (all_items ds))))

  -- The lines of the first deliveries, and one more for the rest.
  unfoldable pub lines_of : ℕ → List (PendingDelivery (Attrs F)) → List String
  lines_of max_items ds =
      let shown = take max_items ds in
      map (λ d. (describe d).1) shown
      ++ (if ltb (length shown) (length ds)
          then ("Y " & decimal (length ds - length shown) & " mas avisos.") ∷ []
          else [])

  abbrev pub title_of : String → List (PendingDelivery (Attrs F)) → String
  title_of label (d ∷ []) = (describe d).0 & " - " & label
  title_of label ds = decimal (length ds) & " avisos en " & label

  abbrev pub id_text : Option (Json F) → String
  id_text none = "None"
  id_text (some v) = lib.show v

  -- A link to the event, where there is one delivery of one event.
  abbrev pub click_of : String → List (PendingDelivery (Attrs F)) → Option String
  click_of base_url (d ∷ []) =
      if d.item_count == 1 && not (length d.items == 0)
      then some (strip_end b'/' base_url & "/e/" & id_text (lookup "id" (first_item d.items)))
      else none
  click_of base_url ds = none

  abbrev pub filled : List String → List String
  filled lines = select_where (λ line. not (str_eq line "")) lines

  abbrev pub note_of : List String → List String
  note_of [] = []
  note_of (s ∷ ss) = degraded_note (s ∷ ss) ∷ []

  unfoldable pub footer_of : ClaimedSubscription (Attrs F) → List String → List String
  footer_of s degraded =
      notice
      ∷ join " | "
          (map (λ (a : SourceAttribution). a.text) (attributions_for (sources_of s.deliveries)))
      ∷ note_of (relevant_degraded s.hazard_types degraded)

  -- max(d.severity for d in deliveries), which raises without one
  unfoldable pub max_severity : List (PendingDelivery (Attrs F)) → Option ℕ
  max_severity [] = none
  max_severity (d ∷ []) = some d.severity
  max_severity (d ∷ e ∷ ds) = Option.map (max d.severity) (max_severity (e ∷ ds))

  abbrev pub message_with :
      ClaimedSubscription (Attrs F) → List String → String → ℕ → ℕ → NtfyMessage
  message_with s degraded base_url max_items priority = record {
    title = title_of s.area_label s.deliveries;
    body =
        join "\n" (lines_of max_items s.deliveries)
        & "\n\n"
        & join "\n" (filled (footer_of s degraded));
    priority = priority;
    tags = tags_of s.deliveries;
    click = click_of base_url s.deliveries;
  }

  abbrev pub priority_of : Option ℕ → Option ℕ
  priority_of none = none
  priority_of (some severity) = ntfy_priority severity

  -- `none` where it raises
  unfoldable pub render_ntfy :
      ClaimedSubscription (Attrs F) → List String → String → ℕ → Option NtfyMessage
  render_ntfy s degraded base_url max_items =
      Option.map (message_with s degraded base_url max_items)
        (priority_of (max_severity s.deliveries))
