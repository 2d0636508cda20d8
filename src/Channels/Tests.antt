-- ===== src/Channels/Tests.antt =====
-- The theorems on the channels at a public and a private host, and at a message that is cut.
use geo_hazard.Base.{◌≡◌, refl, true, false, none, some, [], ◌∷◌, All}
use geo_hazard.Channels.{
  Parts, no_port, addresses, answered, ChannelLibraries, fails, post, assert_public_https,
  all_public, send_webhook, whole_chars, NtfyMessage, payload_of, cap_utf8,
}
use geo_hazard.Channels.Secrets.{
  IsPublicEndpoint, send_webhook-IsPublicEndpoint, send_webhook-quiet,
}
use geo_hazard.Channels.Capped.{IsCut, payload_of-IsCut}

abbrev hook : Parts
hook = record { scheme = "https"; hostname = some "hooks.example"; port_of = no_port }

abbrev lib : ChannelLibraries
lib = record {
  urlsplit = λ url. some hook;
  resolve = λ host n. addresses ("93.184.216.34" ∷ []);
  ip_address = λ a. record { is_global = true; is_multicast = false };
  hexdigest = λ key body. key;
  post = λ url content. answered 404;
}

-- The same host, resolved to an address of its own network.
abbrev inside : ChannelLibraries
inside = record lib { ip_address = λ a. record { is_global = false; is_multicast = false } }

no_request :
    send_webhook inside 1 "https://hooks.example/secret" "k" "{}"
    ≡ ([], fails "https://hooks.example resolves to a non-public address")
unfolding send_webhook post assert_public_https all_public
no_request = refl

send_webhook-IsPublicEndpoint_example :
    All (IsPublicEndpoint lib) (send_webhook lib 1 "https://hooks.example/secret" "k" "{}").0
send_webhook-IsPublicEndpoint_example =
    send_webhook-IsPublicEndpoint lib 1 "https://hooks.example/secret" "k" "{}"

send_webhook-quiet_example :
    (send_webhook lib 1 "https://hooks.example/secret" "k" "{}").1
    ≡ (send_webhook lib 2 "https://hooks.example/other" "l" "[]").1
send_webhook-quiet_example =
    send_webhook-quiet lib 1 2 "https://hooks.example/secret" "https://hooks.example/other" "k" "l"
      "{}" "[]" refl refl

-- Two bytes of a letter that has two do not go with the third.
cut_run : cap_utf8 "aññ" 4 ≡ "añ"
unfolding cap_utf8 whole_chars
cut_run = refl

abbrev message : NtfyMessage
message = record { title = "t"; body = "Aviso"; priority = 3; tags = []; click = none }

payload_of-IsCut_example : IsCut 4096 "Aviso" (payload_of "topic" message).message
payload_of-IsCut_example = payload_of-IsCut "topic" message
