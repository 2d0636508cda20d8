-- ===== src/Notifications/Manage/Targets.antt =====
-- What an `add` sends to: the wanted types and the channel, of
-- app/notifications/use_cases/manage.py, with app/notifications/services/credentials.py.
use geo_hazard.Base.{
  ℕ, String, Option, none, some, List, [], ◌∷◌, str_eq, ◌&◌, last_chars, if◌then◌else◌,
}
use geo_hazard.Base.Results.{Result, error, ok, and_then, or_raise}
use geo_hazard.Hazards.Model.{HazardType, wildfire, earthquake, weather_warning}
use geo_hazard.Notifications.Model.{Subscription, Channel, ntfy, webhook}
use geo_hazard.Notifications.Manage.{Registry, Fault, validation, channel_error, get}

abbrev pub default_ntfy_server : String
default_ntfy_server = "https://ntfy.sh"

pub data ChannelKind : Type 0 where
  new_channel : Channel → ChannelKind
  copy : ChannelKind

pub record ChannelSpec : Type 0 where
  pub kind : ChannelKind
  pub endpoint : Option String
  pub copy_from : Option ℕ

-- What the server and the module `secrets` give.
pub record Fresh : Type 0 where
  pub area_id : ℕ
  pub subscription_id : ℕ
  pub token_urlsafe : String
  pub token_hex : String

abbrev pub new_ntfy_topic : Fresh → String
new_ntfy_topic fresh = "geohazard-" & fresh.token_urlsafe

abbrev pub new_webhook_key : Fresh → String
new_webhook_key fresh = fresh.token_hex

pub mask : String → String
mask credential = "..." & last_chars 4 credential

abbrev hazard_type_of : String → Option HazardType
hazard_type_of name =
    if str_eq name "wildfire"
    then some wildfire
    else if str_eq name "earthquake"
    then some earthquake
    else if str_eq name "weather_warning"
    then some weather_warning
    else none

-- The names, where all of them are known.
known_types : List String → Option (List HazardType)
known_types [] = some []
known_types (n ∷ ns) =
    let rest = known_types ns in
    elim (hazard_type_of n) [
      | none ↦ none
      | some t ↦ elim rest [ none ↦ none | some ts ↦ some (t ∷ ts) ]
    ]

abbrev types_fault : Fault
types_fault =
    validation "hazard types must be a non-empty subset of wildfire, earthquake, weather_warning"

pub wanted_types : List String → Result Fault (List HazardType)
unfolding known_types
wanted_types [] = error types_fault
wanted_types (n ∷ ns) = or_raise types_fault (known_types (n ∷ ns))

-- label or default
abbrev pub or_label : Option String → String → String
or_label none default = default
or_label (some label) default = if str_eq label "" then default else label

-- A channel to send to, with the credential if it is new.
pub record Target : Type 0 where
  pub channel : Channel
  pub endpoint : String
  pub credential : String
  pub new_credential : Option String

abbrev target_of : Subscription → Target
target_of s = record {
  channel = s.channel;
  endpoint = s.endpoint;
  credential = s.credential;
  new_credential = none;
}

abbrev new_target : Channel → String → String → Target
new_target channel endpoint credential = record {
  channel = channel;
  endpoint = endpoint;
  credential = credential;
  new_credential = some credential;
}

abbrev new_credential_of : Channel → Fresh → String
new_credential_of ntfy fresh = new_ntfy_topic fresh
new_credential_of webhook fresh = new_webhook_key fresh

module _ {I F G : Type 0} where
  -- The channel of another subscription, or a new one to an endpoint that passes the check, which
  -- gives the text of its error.
  abbrev target_with :
      (String → Option String)
      → Fresh
      → ChannelKind
      → Option String
      → Option ℕ
      → Registry I F G
      → Result Fault Target
  target_with check fresh copy endpoint none r = error (validation "copy needs a subscription id")
  target_with check fresh copy endpoint (some id) r = and_then (get id r) (λ s. ok (target_of s))
  target_with check fresh (new_channel channel) endpoint from r =
      let url = or_label endpoint default_ntfy_server in
      elim (check url) [
        | some e ↦ error (channel_error e)
        | none ↦ ok (new_target channel url (new_credential_of channel fresh))
      ]

  pub target : (String → Option String) → Fresh → ChannelSpec → Registry I F G → Result Fault Target
  target check fresh spec r = target_with check fresh spec.kind spec.endpoint spec.copy_from r
