-- ===== src/Channels/Capped.antt =====
-- The length of the message of ntfy, in bytes of UTF-8.
use Prim.Native.Char.{Char, len_utf8}
use Prim.Native.String.{String as Text, len}
use Prim.Native.String.len as len_lemmas
use geo_hazard.Base.{
  ◌⊎◌, ◌<◌, ℕ, ◌+◌, ◌-◌, ◌≤◌, String, ◌≡◌, refl, sym, ap, ◌∙◌, Bool, true, false, leb, leb→le,
  arith, ◌&◌, if◌then◌else◌, Bool-cases, inl, inr,
}
use geo_hazard.Channels.{whole_chars, cap_utf8, NtfyMessage, payload_of, ntfy_max_body_bytes}
use text.Mathlib.TextLemmas.{nil-append, cons-append, append-nil}

-- What is cut off a text stands behind what is kept.
abbrev pub IsFront : String → String → Type 0
IsFront s t = (rest : String) × (t ≡ s & rest)

len_empty : len "" ≡ 0
len_empty = refl

len-cons : (c : Char) (s : String) → len (Text.◌∷◌ c s) ≡ len_utf8 c + len s
len-cons c s = len_lemmas.cons c s

whole_chars-len : (n : ℕ) (s : String) → len (whole_chars n s) ≤ n
unfolding whole_chars
whole_chars-len n Text.[] = omega (arith, len_empty)
whole_chars-len n (Text.◌∷◌ c s) = elim (Bool-cases (leb (len_utf8 c) n)) [
  | inl h ↦ rw h (
      omega (
        arith,
        len-cons c (whole_chars (n - len_utf8 c) s),
        whole_chars-len (n - len_utf8 c) s,
        leb→le (len_utf8 c) n h,
      ))
  | inr h ↦ rw h (omega (arith, len_empty))
]

whole_chars-IsFront : (n : ℕ) (s : String) → IsFront (whole_chars n s) s
unfolding whole_chars
whole_chars-IsFront n Text.[] = (Text.[], sym (nil-append Text.[]))
whole_chars-IsFront n (Text.◌∷◌ c s) = elim (Bool-cases (leb (len_utf8 c) n)) [
  | inl h ↦ rw h (
      let (rest, e) = whole_chars-IsFront (n - len_utf8 c) s in
      (rest, ap (Text.◌∷◌ c) e ∙ sym (cons-append c _ rest)))
  | inr h ↦ rw h (Text.◌∷◌ c s, sym (nil-append (Text.◌∷◌ c s)))
]

-- A text within a length, the front of another, and that text itself where it fits.
abbrev pub IsCut : ℕ → String → String → Type 0
IsCut n s t = (len t ≤ n) × IsFront t s × ((t ≡ s) ⊎ (n < len s))

capped :
    (b : Bool) (n : ℕ) (s : String)
    → leb (len s) n ≡ b
    → IsCut n s (if b then s else whole_chars n s)
capped true n s h = (leb→le (len s) n h, (Text.[], sym (append-nil s)), inl refl)
capped false n s h = (whole_chars-len n s, whole_chars-IsFront n s, inr (ground (arith, h)))

-- The message that is sent to ntfy has 4096 bytes of UTF-8 at most, and is the front of the body: it
-- is cut between two characters, and not at all where the body fits.
pub payload_of-IsCut :
    (topic : String) (m : NtfyMessage)
    → IsCut ntfy_max_body_bytes m.body (payload_of topic m).message
unfolding cap_utf8
payload_of-IsCut topic m =
    capped (leb (len m.body) ntfy_max_body_bytes) ntfy_max_body_bytes m.body refl
