-- ===== src/Channels.antt =====
-- app/core/channels: the guard of the endpoints, the signature of a webhook, and the sending by ntfy
-- and by webhook. URLs, addresses, the resolver, HMAC and the network are arguments. A `bytes` value
-- is a text whose characters are its bytes.
pub mod Secrets
pub mod Capped
mod Tests
use Prim.Native.Char.{len_utf8}
use Prim.Native.String.{len}
use geo_hazard.Base.{
  ℕ, ◌+◌, ◌-◌, String, Bool, true, false, not, ◌&&◌, ◌||◌, Option, none, some, List, [], ◌∷◌, leb,
  ltb, ◌==◌, str_eq, ◌&◌, decimal, chars, first_chars, strip_end, partition, is_none, or_default,
  if◌then◌else◌,
}
use geo_hazard.Base.Dict.{Dict}
use geo_hazard.Base.Results.{Result, error, ok, and_then}

pub record NtfyMessage : Type 0 where
  pub title : String
  pub body : String
  pub priority : ℕ
  pub tags : List String
  pub click : Option String

-- What `.port` of a URL gives, which raises a ValueError out of its range.
pub data Port : Type 0 where
  no_port : Port
  port : ℕ → Port
  bad_port : Port

-- urlsplit(url); a host is not empty.
pub record Parts : Type 0 where
  pub scheme : String
  pub hostname : Option String
  pub port_of : Port

pub record Address : Type 0 where
  pub is_global : Bool
  pub is_multicast : Bool

-- The addresses of a host, the name of the OSError, or another exception.
pub data Resolved : Type 0 where
  addresses : List String → Resolved
  os_error : String → Resolved
  other_error : Resolved

-- What a POST over httpx ends in.
pub data Posted : Type 0 where
  answered : ℕ → Posted
  timed_out : Posted
  -- the name of the class of an HTTPError
  http_error : String → Posted
  -- any other exception, such as `httpx.InvalidURL`
  raised : Posted

pub record Payload : Type 0 where
  pub topic : String
  pub title : String
  pub message : String
  pub priority : ℕ
  pub tags : List String
  pub click : Option String

-- The content of a request.
pub data Content : Type 0 where
  json_content : Payload → Content
  raw_content : String → Dict String → Content

pub record ChannelLibraries : Type 0 where
  -- `none` where it raises a ValueError
  pub urlsplit : String → Option Parts
  pub resolve : String → ℕ → Resolved
  pub ip_address : String → Address
  pub hexdigest : String → String → String
  pub post : String → Content → Posted

-- A ChannelError with its text, or an exception that no one expects here.
pub data ChannelFault : Type 0 where
  channel_error : String → ChannelFault
  unexpected : ChannelFault

abbrev pub Outcome : Type 0
Outcome = Result ChannelFault (Unit {0})

-- The URLs that were posted to, and the outcome.
abbrev pub Sending : Type 0
Sending = List String × Outcome

abbrev pub fails : String → Outcome
fails e = error (channel_error e)

-- 'https://host'
abbrev pub target_of : Parts → String
target_of parts = parts.scheme & "://" & or_default parts.hostname "?"

abbrev pub describe : Option Parts → String
describe none = "?"
describe (some parts) = target_of parts

abbrev pub is_public : Address → Bool
is_public a = a.is_global && not a.is_multicast

-- response.is_success
abbrev pub is_success : ℕ → Bool
is_success status_code = leb 200 status_code && leb status_code 299

abbrev pub posted_result : String → Posted → Outcome
posted_result target timed_out = fails ("timeout sending to " & target)
posted_result target (http_error name) = fails (name & " sending to " & target)
posted_result target raised = error unexpected
posted_result target (answered status_code) =
    if is_success status_code then ok tt else fails (target & " answered " & decimal status_code)

-- The characters that lie whole within so many bytes of the UTF-8 of a text.
unfoldable pub whole_chars : ℕ → String → String
whole_chars max_bytes String.[] = String.[]
whole_chars max_bytes (String.◌∷◌ c s) =
    let rest = whole_chars (max_bytes - len_utf8 c) s in
    if leb (len_utf8 c) max_bytes then String.◌∷◌ c rest else String.[]

unfoldable pub cap_utf8 : String → ℕ → String
cap_utf8 text max_bytes = if leb (len text) max_bytes then text else whole_chars max_bytes text

abbrev pub ntfy_max_body_bytes : ℕ
ntfy_max_body_bytes = 4096

-- The click is left out where it is empty.
abbrev pub click_of : Option String → Option String
click_of none = none
click_of (some url) = if str_eq url "" then none else some url

abbrev pub payload_of : String → NtfyMessage → Payload
payload_of topic message = record {
  topic = topic;
  title = message.title;
  message = cap_utf8 message.body ntfy_max_body_bytes;
  priority = message.priority;
  tags = message.tags;
  click = click_of message.click;
}

module _ (lib : ChannelLibraries) where
  unfoldable pub all_public : List String → Bool
  all_public [] = true
  all_public (raw ∷ raws) = is_public (lib.ip_address (partition b'%' raw).0) && all_public raws

  abbrev pub check_addresses : String → Resolved → Outcome
  check_addresses target (os_error name) = fails ("cannot resolve " & target & ": " & name)
  check_addresses target other_error = error unexpected
  check_addresses target (addresses []) = fails ("cannot resolve " & target)
  check_addresses target (addresses (raw ∷ raws)) =
      if all_public (raw ∷ raws)
      then ok tt
      else fails (target & " resolves to a non-public address")

  -- parts.port or 443
  abbrev pub resolve_at : String → Port → Resolved
  resolve_at host no_port = lib.resolve host 443
  resolve_at host (port n) = lib.resolve host (if n == 0 then 443 else n)
  resolve_at host bad_port = other_error

  abbrev pub check_parts : Option Parts → Outcome
  check_parts none = error unexpected
  check_parts (some parts) =
      if not (str_eq parts.scheme "https") || is_none parts.hostname
      then fails ("endpoint must be https with a host: " & target_of parts)
      else check_addresses (target_of parts)
          (resolve_at (or_default parts.hostname "") parts.port_of)

  unfoldable pub assert_public_https : String → Outcome
  assert_public_https url = check_parts (lib.urlsplit url)

  unfoldable pub check_endpoint : String → Outcome
  check_endpoint url = assert_public_https url

  abbrev pub post_after : Outcome → String → Content → Sending
  post_after (error e) url content = ([], error e)
  post_after (ok u) url content =
      (url ∷ [], posted_result (describe (lib.urlsplit url)) (lib.post url content))

  -- `_post`: the guard, and then the request.
  unfoldable pub post : String → Content → Sending
  post url content = post_after (assert_public_https url) url content

  unfoldable pub sign : String → String → ℕ → String
  sign key body timestamp =
      "t=" & decimal timestamp & ",v1=" & lib.hexdigest key (decimal timestamp & "." & body)

  unfoldable pub send_ntfy : String → String → NtfyMessage → Sending
  send_ntfy server topic message =
      post (strip_end b'/' server & "/") (json_content (payload_of topic message))

  abbrev pub signed : ℕ → String → String → Content
  signed now key body =
      raw_content body
        (("Content-Type", "application/json") ∷ ("X-Geohazard-Signature", sign key body now) ∷ [])

  unfoldable pub send_webhook : ℕ → String → String → String → Sending
  send_webhook now url key body = post url (signed now key body)
