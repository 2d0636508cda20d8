-- ===== src/Notifications/Manage/Add.antt =====
-- `SubscriptionAdmin.add` of app/notifications/use_cases/manage.py, with the creation of an area
-- (app/notifications/repos/watch_area.py).
use geo_hazard.Base.{
  ℕ, ◌*◌, String, Bool, not, ◌&&◌, Option, none, List, [], ◌∷◌, ◌++◌, str_eq, ◌&◌, if◌then◌else◌,
}
use geo_hazard.Base.Query.{first_where}
use geo_hazard.Base.Json.{text, number, array, to_items}
use geo_hazard.Base.Floats.{Floats}
use geo_hazard.Base.Results.{Result, error, ok, and_then, or_raise}
use geo_hazard.Hazards.Model.{HazardType}
use geo_hazard.Notifications.Model.{Subscription, Channel, active}
use geo_hazard.Notifications.Areas.{AreaSpec, province, bbox, circle}
use geo_hazard.Notifications.Manage.{
  WatchArea, province_kind, bbox_kind, circle_kind, Province, Registry, Fault, missing_province,
  validation,
}
use geo_hazard.Notifications.Manage.Targets.{
  Fresh, ChannelSpec, Target, wanted_types, target, or_label,
}

pub record Created : Type 0 where
  pub subscription_id : ℕ
  pub area_label : String
  pub channel : Channel
  pub new_credential : Option String

-- The settings that `add` reads.
pub record Settings : Type 0 where
  pub notifications_driver : String
  pub environment : String

-- What PostGIS and the formatting of floats give.
pub record Places (F G : Type 0) : Type 0 where
  pub floats : Floats F
  pub envelope : F → F → F → F → G
  pub disc : F → F → ℕ → G
  pub show : F → String
  pub show_km : ℕ → String

module _ {F G : Type 0} (places : Places F G) where
  abbrev integer : ℕ → F
  integer n = places.floats.tenths (n * 10)

  -- `create_province`, `create_bbox` and `create_circle`, without the insertion.
  unfoldable pub new_area :
      ℕ → AreaSpec F → Option String → List (Province G) → Result Fault (WatchArea F G)
  new_area id (province code) label provinces =
      and_then (or_raise (missing_province code) (first_where (λ p. str_eq p.code code) provinces))
        (λ p. ok (record {
          id = id;
          kind = province_kind;
          params = ("code", text code) ∷ [];
          label = or_label label p.name;
          geom = p.geom;
        }))
  new_area id (bbox a b c d) label provinces = ok (record {
    id = id;
    kind = bbox_kind;
    params = ("bbox", array (to_items (number a ∷ number b ∷ number c ∷ number d ∷ []))) ∷ [];
    label = or_label label (
        "rectangulo "
        & places.show a
        & ","
        & places.show b
        & ","
        & places.show c
        & ","
        & places.show d);
    geom = places.envelope a b c d;
  })
  new_area id (circle lon lat radius_m) label provinces = ok (record {
    id = id;
    kind = circle_kind;
    params =
        ("lon", number lon) ∷ ("lat", number lat) ∷ ("radius_m", number (integer radius_m)) ∷ [];
    label =
        or_label label
          (places.show_km radius_m & " km alrededor de " & places.show lat & "," & places.show lon);
    geom = places.disc lon lat radius_m;
  })

abbrev pub new_subscription : ℕ → ℕ → List HazardType → ℕ → Target → Subscription
new_subscription id area_id types severity_min target = record {
  id = id;
  watch_area_id = area_id;
  hazard_types = types;
  severity_min = severity_min;
  channel = target.channel;
  endpoint = target.endpoint;
  credential = target.credential;
  status = active;
  paused_reason = none;
  consecutive_failures = 0;
  failing_since = none;
  retry_at = none;
  last_sent_at = none;
  last_error = none;
}

abbrev pub is_fake_outside_local : Settings → Bool
is_fake_outside_local s = str_eq s.notifications_driver "fake" && not (str_eq s.environment "local")

module _ {I F G : Type 0} (places : Places F G) where
  abbrev pub inserted : WatchArea F G → Subscription → Registry I F G → Registry I F G
  inserted area s r = record r {
    tables = record r.tables { subscriptions = r.tables.subscriptions ++ s ∷ [] };
    areas = r.areas ++ area ∷ [];
  }

  unfoldable pub add :
      Settings
      → (String → Option String)
      → Fresh
      → AreaSpec F
      → Option String
      → List String
      → ℕ
      → ChannelSpec
      → Registry I F G
      → Result Fault (Created × Registry I F G)
  add settings check fresh spec label names severity_min channel r =
      if not (is_fake_outside_local settings)
      then and_then (wanted_types names) (λ types. and_then (target check fresh channel r) (λ to.
        and_then (new_area places fresh.area_id spec label r.provinces) (λ area.
          let s = new_subscription fresh.subscription_id area.id types severity_min to in
          ok (
            record {
              subscription_id = s.id;
              area_label = area.label;
              channel = to.channel;
              new_credential = to.new_credential;
            },
            inserted area s r,
          ))))
      else error (validation "NOTIFICATIONS_DRIVER=fake outside local")
