-- ===== src/Parsers/Feeds.antt =====
-- What holds of every entry that is read holds of every record of a feed.
use geo_hazard.Base.{
  String, ◌≡◌, refl, ap, subst, ◌∙◌, ◌++◌, Option, none, some, List, [], ◌∷◌, All, none_ne_some,
  some_inj,
}
use geo_hazard.Parsers.{
  Parse, parsed, protocol_error, crashed, Entry, accepted, skipped, aborted, with_entry, entries,
  checked, parse_entries,
}

module _ {A : Type 0} where
  with_entry-All :
      (P : A → Type 0) (e : Entry A) (o : Option (List A)) {as' : List A}
      → ((a : A) → e ≡ accepted a → P a)
      → ((rest : List A) → o ≡ some rest → All P rest)
      → with_entry e o ≡ some as'
      → All P as'
  with_entry-All P aborted o p q h = absurd (none_ne_some h)
  with_entry-All P skipped o p q h = q _ h
  with_entry-All P (accepted a) none p q h = absurd (none_ne_some h)
  with_entry-All P (accepted a) (some rest) p q h =
      subst (All P) (some_inj h) (p a refl, q rest refl)

pub parsed_inj : {A : Type 0} {a b : A} → ◌≡◌ {A = Parse A} (parsed a) (parsed b) → a ≡ b
parsed_inj h = cc

pub error_ne_parsed :
    {A : Type 0} {e : String} {a : A} → ◌≡◌ {A = Parse A} (protocol_error e) (parsed a) → ⊥
error_ne_parsed h = cc

pub crashed_ne_parsed : {A : Type 0} {a : A} → ◌≡◌ {A = Parse A} crashed (parsed a) → ⊥
crashed_ne_parsed h = cc

checked-All :
    {V A : Type 0} (P : A → Type 0) (error : String) (vs : List V) (o : Option (List A))
    {as' : List A}
    → ((rest : List A) → o ≡ some rest → All P rest)
    → checked error vs o ≡ parsed as'
    → All P as'
checked-All P error vs none q h = absurd (crashed_ne_parsed h)
checked-All P error [] (some []) q h = subst (All P) (parsed_inj h) tt
checked-All P error (v ∷ vs) (some []) q h = absurd (error_ne_parsed h)
checked-All P error vs (some (a ∷ rest)) q h = subst (All P) (parsed_inj h) (q (a ∷ rest) refl)

module _ {V A : Type 0} (P : A → Type 0) (read : V → Entry A)
    (sound : (v : V) (a : A) → read v ≡ accepted a → P a) where
  entries-All : (vs : List V) {as' : List A} → entries read vs ≡ some as' → All P as'
  unfolding entries
  entries-All [] h = subst (All P) (some_inj h) tt
  entries-All (v ∷ vs) h =
      with_entry-All P (read v) (entries read vs) (sound v) (λ rest e. entries-All vs e) h

  pub parse_entries-All :
      (error : String) (vs : List V) {as' : List A}
      → parse_entries error read vs ≡ parsed as'
      → All P as'
  unfolding parse_entries
  parse_entries-All error vs h =
      checked-All P error vs (entries read vs) (λ rest e. entries-All vs e) h

module _ {V A : Type 0} (read : V → Entry A) where
  with_entry-none : (e : Entry A) → with_entry e none ≡ none
  with_entry-none aborted = refl
  with_entry-none skipped = refl
  with_entry-none (accepted a) = refl

  entries-aborted :
      (us : List V) (v : V) (vs : List V) → read v ≡ aborted → entries read (us ++ v ∷ vs) ≡ none
  unfolding entries
  entries-aborted [] v vs h = rw h refl
  entries-aborted (u ∷ us) v vs h =
      ap (with_entry (read u)) (entries-aborted us v vs h) ∙ with_entry-none (read u)

  -- One entry whose reading raises makes the whole feed raise.
  pub parse_entries-aborted :
      (error : String) (us : List V) (v : V) (vs : List V)
      → read v ≡ aborted
      → parse_entries error read (us ++ v ∷ vs) ≡ crashed
  unfolding parse_entries
  parse_entries-aborted error us v vs h =
      ap (checked error (us ++ v ∷ vs)) (entries-aborted us v vs h)
