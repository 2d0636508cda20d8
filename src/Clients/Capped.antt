-- ===== src/Clients/Capped.antt =====
-- `get_capped` of app/core/http.py against the whole body of the response.
use text.Mathlib.TextLemmas.{nil-append, append-nil, append_assoc}
use geo_hazard.Base.{
  ℕ, ◌≤◌, String, ◌≡◌, refl, sym, ap, subst, ◌∙◌, Bool, true, false, not, ◌&&◌, ◌||◌, Option, none,
  some, List, [], ◌∷◌, ltb, ◌==◌, ◌&◌, chars, chars-append, arith, if◌then◌else◌, ltb→lt, lt→ltb,
}
use geo_hazard.Base.Results.{Result, error, ok, ok_inj, error_ne_ok}
use geo_hazard.Clients.{
  Request, Response, Opened, opened, unreachable, invalid_url, Network, Raised, too_large,
  read_chunks, too_large_text, with_status, read_response, get_capped,
}

-- b"".join(chunks)
abbrev pub whole : List String → String
whole [] = ""
whole (chunk ∷ chunks) = chunk & whole chunks

abbrev capped : ℕ → String → Result Raised String
capped max_bytes body =
    if ltb max_bytes (chars body) then error (too_large (too_large_text max_bytes)) else ok body

-- The test of a body that only grows.
capped_more :
    (b : Bool) (max_bytes : ℕ) (body more : String) {r : Result Raised String}
    → b ≡ ltb max_bytes (chars body)
    → (chars body ≤ max_bytes → r ≡ capped max_bytes (body & more))
    → (if b then error (too_large (too_large_text max_bytes)) else r)
      ≡ capped max_bytes (body & more)
capped_more true max_bytes body more e k = sym (
    ap (λ t. if t then error (too_large (too_large_text max_bytes)) else ok (body & more))
      (lt→ltb max_bytes (chars (body & more))
        (omega (arith, chars-append body more, ltb→lt max_bytes (chars body) (sym e)))))
capped_more false max_bytes body more e k = k (ground (arith, e))

le→ltb_false : (a b : ℕ) → b ≤ a → ltb a b ≡ false
le→ltb_false a b le = ground arith

capped_fits :
    (max_bytes : ℕ) (body : String) → chars body ≤ max_bytes → capped max_bytes body ≡ ok body
capped_fits max_bytes body le =
    ap (λ t. if t then error (too_large (too_large_text max_bytes)) else ok body)
      (le→ltb_false max_bytes (chars body) le)

read_chunks-whole :
    (max_bytes : ℕ) (body : String) (chunks : List String)
    → chars body ≤ max_bytes
    → read_chunks max_bytes none body chunks ≡ capped max_bytes (body & whole chunks)
unfolding read_chunks
read_chunks-whole max_bytes body [] le =
    sym (capped_fits max_bytes body le) ∙ ap (capped max_bytes) (sym (append-nil body))
read_chunks-whole max_bytes body (chunk ∷ chunks) le =
    capped_more (ltb max_bytes (chars (body & chunk))) max_bytes (body & chunk) (whole chunks) refl
      (λ le'. read_chunks-whole max_bytes (body & chunk) chunks le')
    ∙ ap (capped max_bytes) (append_assoc body chunk (whole chunks))

-- The response as a whole: its body where it is read and no longer than the limit.
abbrev pub whole_response : ℕ → Bool → Response → Result Raised (ℕ × String)
whole_response max_bytes read_error_body r =
    if r.status_code == 200 || read_error_body
    then with_status r.status_code (capped max_bytes (whole r.chunks))
    else ok (r.status_code, "")

unbroken :
    (max_bytes : ℕ) (r : Response)
    → r.broken ≡ none
    → with_status r.status_code (read_chunks max_bytes r.broken "" r.chunks)
      ≡ with_status r.status_code (capped max_bytes (whole r.chunks))
unbroken max_bytes r h = ap (with_status r.status_code) (
    ap (λ broken. read_chunks max_bytes broken "" r.chunks) h
    ∙ read_chunks-whole max_bytes "" r.chunks (omega arith)
    ∙ ap (capped max_bytes) (nil-append (whole r.chunks)))

read_response-whole :
    (b : Bool) (max_bytes : ℕ) (read_error_body : Bool) (r : Response)
    → r.broken ≡ none
    → (if not b && not read_error_body
        then ok (r.status_code, "")
        else with_status r.status_code (read_chunks max_bytes r.broken "" r.chunks))
      ≡ (if b || read_error_body
          then with_status r.status_code (capped max_bytes (whole r.chunks))
          else ok (r.status_code, ""))
unfolding read_chunks
read_response-whole false max_bytes false r h = refl
read_response-whole false max_bytes true r h = unbroken max_bytes r h
read_response-whole true max_bytes false r h = unbroken max_bytes r h
read_response-whole true max_bytes true r h = unbroken max_bytes r h

-- Of a response whose stream does not break off, `get_capped` gives what a client would that first
-- reads the body as a whole: the status alone where the body is not to be read, the error where
-- the body is longer than the limit, and the status and the body where it is not.
pub get_capped-whole :
    (net : Network) (request : Request) (max_bytes : ℕ) (read_error_body : Bool) (r : Response)
    → net request ≡ opened r
    → r.broken ≡ none
    → get_capped net request max_bytes read_error_body ≡ whole_response max_bytes read_error_body r
unfolding get_capped
get_capped-whole net request max_bytes read_error_body r h b =
    ap (read_response max_bytes read_error_body) h
    ∙ read_response-whole (r.status_code == 200) max_bytes read_error_body r b

room :
    (b : Bool) (max_bytes : ℕ) (r : Result Raised String) {read : String}
    → (if b then error (too_large (too_large_text max_bytes)) else r) ≡ ok read
    → (b ≡ false) × (r ≡ ok read)
room true max_bytes r h = absurd (error_ne_ok h)
room false max_bytes r h = (refl, h)

read_chunks-bound :
    (max_bytes : ℕ) (broken : Option String) (body : String) (chunks : List String) {read : String}
    → chars body ≤ max_bytes
    → read_chunks max_bytes broken body chunks ≡ ok read
    → chars read ≤ max_bytes
unfolding read_chunks
read_chunks-bound max_bytes none body [] le h = subst (λ s. chars s ≤ max_bytes) (ok_inj h) le
read_chunks-bound max_bytes (some e) body [] le h = absurd (error_ne_ok h)
read_chunks-bound max_bytes none body (chunk ∷ chunks) le h =
    let parts =
      room (ltb max_bytes (chars (body & chunk))) max_bytes
        (read_chunks max_bytes none (body & chunk) chunks) h in
    read_chunks-bound max_bytes none (body & chunk) chunks (ground (arith, parts.0)) parts.1
read_chunks-bound max_bytes (some e) body (chunk ∷ chunks) le h =
    let parts =
      room (ltb max_bytes (chars (body & chunk))) max_bytes
        (read_chunks max_bytes (some e) (body & chunk) chunks) h in
    read_chunks-bound max_bytes (some e) (body & chunk) chunks (ground (arith, parts.0)) parts.1

response_bound :
    (b : Bool) (status_code max_bytes : ℕ) (r : Result Raised String) {status : ℕ} {body : String}
    → ((read : String) → r ≡ ok read → chars read ≤ max_bytes)
    → (if b then ok (status_code, "") else with_status status_code r) ≡ ok (status, body)
    → chars body ≤ max_bytes
response_bound true status_code max_bytes r k h =
    subst (λ s. chars s ≤ max_bytes) (ap (λ p. p.1) (ok_inj h)) (omega arith)
response_bound false status_code max_bytes (error e) k h = absurd (error_ne_ok h)
response_bound false status_code max_bytes (ok read) k h =
    subst (λ s. chars s ≤ max_bytes) (ap (λ p. p.1) (ok_inj h)) (k read refl)

read_response_bound :
    (max_bytes : ℕ) (read_error_body : Bool) (answer : Opened) {status : ℕ} {body : String}
    → read_response max_bytes read_error_body answer ≡ ok (status, body)
    → chars body ≤ max_bytes
read_response_bound max_bytes read_error_body (unreachable e) h = absurd (error_ne_ok h)
read_response_bound max_bytes read_error_body invalid_url h = absurd (error_ne_ok h)
read_response_bound max_bytes read_error_body (opened r) h =
    response_bound (not (r.status_code == 200) && not read_error_body) r.status_code max_bytes
      (read_chunks max_bytes r.broken "" r.chunks)
      (λ read e. read_chunks-bound max_bytes r.broken "" r.chunks (omega arith) e) h

-- Whatever the other side sends, and wherever it breaks off, a body that `get_capped` gives is no
-- longer than the limit.
pub get_capped-bound :
    (net : Network) (request : Request) (max_bytes : ℕ) (read_error_body : Bool) {status : ℕ}
    {body : String}
    → get_capped net request max_bytes read_error_body ≡ ok (status, body)
    → chars body ≤ max_bytes
unfolding get_capped
get_capped-bound net request max_bytes read_error_body h =
    read_response_bound max_bytes read_error_body (net request) h
