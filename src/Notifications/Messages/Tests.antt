-- ===== src/Notifications/Messages/Tests.antt =====
-- The theorem on the messages at a warning of two zones.
use geo_hazard.Base.{
  ℕ, String, ◌≡◌, refl, true, none, [], ◌∷◌, ltb, leb, decimal, join, partition, strip, strip_left,
  strip_right, lower,
}
use geo_hazard.Base.Dict.{lookup}
use geo_hazard.Base.Json.{text, object, field, end}
use geo_hazard.Base.Floats.{Floats}
use geo_hazard.Hazards.Model.{Attrs, weather_warning}
use geo_hazard.Notifications.Model.{PendingDelivery, ClaimedSubscription, opened, ntfy}
use geo_hazard.Notifications.Texts.{zone_for, when, phenomenon_name, and_more}
use geo_hazard.Notifications.Messages.{MessageLibraries, describe, add_zones}

abbrev floats : Floats ℕ
floats = record {
  tenths = λ n. n;
  minus = λ a. 0;
  le = leb;
  lt = ltb;
  is_finite = λ a. true;
  read = λ s. none;
}

abbrev lib : MessageLibraries ℕ
lib = record {
  floats = floats;
  show = λ v. "?";
  local = λ raw zone. record { weekday = 2; day = 4; month = 11; hour_minute = "14:00" };
  one_decimal = decimal;
  no_decimals = decimal;
}

abbrev item : String → Attrs ℕ
item zone =
    (
      "properties",
      object (
          field "hazard_type" (text "weather_warning") (
            field "starts_at" (text "2026-11-04T13:00:00+00:00") (
              field "attrs"
                (object (
                  field "level" (text "naranja")
                    (field "phenomenon" (text "TO;Tormentas") (field "area_desc" (text zone) end))))
                end))),
    )
    ∷ []

abbrev delivery : PendingDelivery (Attrs ℕ)
delivery = record {
  id = 1;
  episode_id = 1;
  reason = opened;
  severity = 3;
  items = item "La Siberia" ∷ item "Barros" ∷ item "Barros" ∷ [];
  item_count = 3;
}

describe_run : describe lib delivery ≡ (
  "Aviso naranja por tormentas",
  "Aviso naranja por tormentas: La Siberia, Barros y 1 mas, de mie 4 nov 14:00 a ?.",
)
unfolding describe add_zones zone_for when phenomenon_name and_more lookup decimal join partition
    strip strip_left strip_right lower
describe_run = refl

abbrev claimed : ClaimedSubscription (Attrs ℕ)
claimed = record {
  id = 1;
  channel = ntfy;
  endpoint = "https://ntfy.sh";
  credential = "topic";
  hazard_types = weather_warning ∷ [];
  area_id = 1;
  area_label = "Badajoz";
  previous_retry_at = none;
  deliveries = delivery ∷ [];
}
