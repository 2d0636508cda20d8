-- ===== src/Channels/Secrets.antt =====
-- Where the sender posts to, and what its errors tell.
use geo_hazard.Base.{
  ℕ, String, ◌≡◌, refl, sym, ap, ap₂, ◌∙◌, Bool, true, false, not, ◌||◌, Option, none, some, List,
  [], ◌∷◌, All, str_eq, eq_iff, or_default, is_none, true_ne_false, if◌then◌else◌,
}
use geo_hazard.Base.Results.{error, ok, and_then, error_ne_ok}
use geo_hazard.Channels.{
  Parts, Resolved, addresses, os_error, other_error, ChannelLibraries, Content, Posted, Outcome,
  fails, target_of, all_public, check_addresses, resolve_at, check_parts, assert_public_https,
  describe, posted_result, post_after, post, send_webhook, signed,
}

or_none : (b : Bool) → (b || true) ≡ true
or_none true = refl
or_none false = refl

kept : (b : Bool) → (not b || false) ≡ false → b ≡ true
kept true h = refl
kept false h = absurd (true_ne_false h)

guard_passed :
    (b : Bool) (e : String) (r : Outcome) {u : Unit {0}}
    → (if b then fails e else r) ≡ ok u
    → (b ≡ false) × (r ≡ ok u)
guard_passed true e r h = absurd (error_ne_ok h)
guard_passed false e r h = (refl, h)

public_passed :
    (b : Bool) (e : String) {u : Unit {0}} → (if b then ok tt else fails e) ≡ ok u → b ≡ true
public_passed true e h = refl
public_passed false e h = absurd (error_ne_ok h)

host_passed :
    (scheme : String) (host : Option String)
    → (not (str_eq scheme "https") || is_none host) ≡ false
    → (scheme ≡ "https") × (h : String) × (host ≡ some h)
host_passed scheme none h = absurd (true_ne_false (sym (or_none (not (str_eq scheme "https"))) ∙ h))
host_passed scheme (some host) h = ((eq_iff scheme "https").0 (kept _ h), host, refl)

module _ (lib : ChannelLibraries) where
  -- An https URL whose host resolves to public addresses alone, to one at least.
  abbrev pub IsPublicEndpoint : String → Type 0
  IsPublicEndpoint url =
      (parts : Parts) × (host raw : String) × (raws : List String) × (lib.urlsplit url ≡ some parts)
      × (parts.scheme ≡ "https")
      × (parts.hostname ≡ some host)
      × (resolve_at lib host parts.port_of ≡ addresses (raw ∷ raws))
      × (all_public lib (raw ∷ raws) ≡ true)

  addresses_passed :
      (target : String) (r : Resolved) {u : Unit {0}}
      → check_addresses lib target r ≡ ok u
      → (raw : String) × (raws : List String) × (r ≡ addresses (raw ∷ raws))
        × (all_public lib (raw ∷ raws) ≡ true)
  addresses_passed target (os_error name) h = absurd (error_ne_ok h)
  addresses_passed target other_error h = absurd (error_ne_ok h)
  addresses_passed target (addresses []) h = absurd (error_ne_ok h)
  addresses_passed target (addresses (raw ∷ raws)) h = (raw, raws, refl, public_passed _ _ h)

  endpoint :
      (url : String) (o : Option Parts) {u : Unit {0}}
      → lib.urlsplit url ≡ o
      → check_parts lib o ≡ ok u
      → IsPublicEndpoint url
  endpoint url none e h = absurd (error_ne_ok h)
  endpoint url (some parts) e h =
      let (b, rest) =
        guard_passed (not (str_eq parts.scheme "https") || is_none parts.hostname) _ _ h in
      let (https, host, named) = host_passed parts.scheme parts.hostname b in
      let (raw, raws, found, all) = addresses_passed (target_of parts) _ rest in
      (
        parts,
        host,
        raw,
        raws,
        e,
        https,
        named,
        sym (ap (λ h. resolve_at lib (or_default h "") parts.port_of) named) ∙ found,
        all,
      )

  requests-IsPublicEndpoint :
      (r : Outcome) (url : String) (content : Content)
      → check_parts lib (lib.urlsplit url) ≡ r
      → All IsPublicEndpoint (post_after lib r url content).0
  requests-IsPublicEndpoint (error e) url content h = tt
  requests-IsPublicEndpoint (ok u) url content h = (endpoint url (lib.urlsplit url) refl h, tt)

  -- What comes of a request, by the parts of its URL and the answer.
  abbrev outcome_of : Option Parts → Posted → Outcome
  outcome_of o p = and_then (check_parts lib o) (λ u. posted_result (describe o) p)

  post_after-outcome :
      (r : Outcome) (url : String) (content : Content)
      → (post_after lib r url content).1
        ≡ and_then r (λ u. posted_result (describe (lib.urlsplit url)) (lib.post url content))
  post_after-outcome (error e) url content = refl
  post_after-outcome (ok u) url content = refl

  -- Every URL that a message is posted to is an https URL whose host resolves to public addresses
  -- alone, to one at least.
  pub send_webhook-IsPublicEndpoint :
      (now : ℕ) (url key body : String) → All IsPublicEndpoint (send_webhook lib now url key body).0
  unfolding send_webhook post assert_public_https
  send_webhook-IsPublicEndpoint now url key body =
      requests-IsPublicEndpoint (check_parts lib (lib.urlsplit url)) url _ refl

  -- Where the URLs of two webhooks agree in their scheme, host and port, and their requests end in
  -- the same status, timeout or exception, what comes of them is the same, the texts of their errors
  -- included: the outcome tells nothing else of the paths, the queries, the keys, the bodies and the
  -- times.
  pub send_webhook-quiet :
      (now now' : ℕ) (url url' key key' body body' : String)
      → lib.urlsplit url ≡ lib.urlsplit url'
      → lib.post url (signed lib now key body) ≡ lib.post url' (signed lib now' key' body')
      → (send_webhook lib now url key body).1 ≡ (send_webhook lib now' url' key' body').1
  unfolding send_webhook post assert_public_https
  send_webhook-quiet now now' url url' key key' body body' same alike =
      post_after-outcome (check_parts lib (lib.urlsplit url)) url (signed lib now key body)
      ∙ ap₂ outcome_of same alike
      ∙ sym (
          post_after-outcome (check_parts lib (lib.urlsplit url')) url'
            (signed lib now' key' body'))
