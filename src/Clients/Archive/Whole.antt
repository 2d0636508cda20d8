-- ===== src/Clients/Archive/Whole.antt =====
-- The archive as a whole: what `_parse_archive` gives is what its files say, and only of an archive
-- within the guards.
use geo_hazard.Base.{
  ℕ, zero, suc, ◌≤◌, String, Option, none, some, ◌≡◌, refl, sym, ap, ◌∙◌, Bool, true, false, not,
  List, [], ◌∷◌, ◌++◌, length, All, ltb, arith, if◌then◌else◌, inl, inr, ◌⊎◌,
}
use geo_hazard.Sync.Aemet.{AemetWarning}
use geo_hazard.Parsers.{Parse, parsed, protocol_error, crashed}
use geo_hazard.Parsers.Aemet.{CapLibraries, parse_cap}
use geo_hazard.Clients.{Fetched, fetched, protocol, failed}
use geo_hazard.Clients.Archive.{
  Reading, no_file, contents, tar_error, other_error, Member, Ending, complete, broken_tar,
  broken_stream, TarLibraries, max_tar_members, max_tar_member_bytes, Walked, walked, stopped,
  with_parse, at_end, checked_warnings, with_reading, with_member, walk_members, parse_archive,
}

abbrev pub IsSmall : Member → Type 0
IsSmall m = (m.is_file ≡ false) ⊎ (m.size ≤ max_tar_member_bytes)

module _ {F : Type 0} where
  abbrev parse_warnings : Parse (AemetWarning F) → List (AemetWarning F)
  parse_warnings (parsed w) = w ∷ []
  parse_warnings _ = []

  stopped_ne_walked :
      {e : Option String} {ws : List (AemetWarning F)} {n : ℕ}
      → ◌≡◌ {A = Walked F} (stopped e) (walked ws n)
      → ⊥
  stopped_ne_walked h = cc

  walked_inj :
      {ws ws' : List (AemetWarning F)} {n k : ℕ}
      → ◌≡◌ {A = Walked F} (walked ws n) (walked ws' k)
      → ws' ≡ ws
  walked_inj h = cc

  -- The loop has gone on to its end, and gave these warnings behind those at hand.
  abbrev Rest : Walked F → List (AemetWarning F) → List (AemetWarning F) → Type 0
  Rest rest here ws =
      (ws' : List (AemetWarning F)) × (k : ℕ) × (rest ≡ walked ws' k) × (ws ≡ here ++ ws')

  protocol_ne_fetched :
      {e : String} {ws : List (AemetWarning F)}
      → ◌≡◌ {A = Fetched (List (AemetWarning F))} (protocol e) (fetched ws)
      → ⊥
  protocol_ne_fetched h = cc

  fetched_inj :
      {ws ws' : List (AemetWarning F)}
      → ◌≡◌ {A = Fetched (List (AemetWarning F))} (fetched ws) (fetched ws')
      → ws ≡ ws'
  fetched_inj h = cc

  failed_ne_fetched :
      {ws : List (AemetWarning F)}
      → ◌≡◌ {A = Fetched (List (AemetWarning F))} failed (fetched ws)
      → ⊥
  failed_ne_fetched h = cc

module _ {F : Type 0} (cap : CapLibraries) where
  abbrev reading_warnings : Reading → List (AemetWarning F)
  reading_warnings (contents payload) = parse_warnings (parse_cap cap payload)
  reading_warnings _ = []

  abbrev member_warnings : Member → List (AemetWarning F)
  member_warnings m = if m.is_file then reading_warnings m.reading else []

  -- The warnings of the files that can be read, in the order of the archive.
  abbrev pub warnings_of : List Member → List (AemetWarning F)
  warnings_of [] = []
  warnings_of (m ∷ ms) = member_warnings m ++ warnings_of ms

  parse_parts :
      (p : Parse (AemetWarning F)) (rest : Walked F) {ws : List (AemetWarning F)} {n : ℕ}
      → with_parse p rest ≡ walked ws n
      → Rest rest (parse_warnings p) ws
  parse_parts (parsed w) (walked ws' k) h = (ws', k, refl, walked_inj h)
  parse_parts (parsed w) (stopped e) h = absurd (stopped_ne_walked h)
  parse_parts (protocol_error e) (walked ws' k) h = (ws', k, refl, walked_inj h)
  parse_parts (protocol_error e) (stopped e') h = absurd (stopped_ne_walked h)
  parse_parts crashed rest h = absurd (stopped_ne_walked h)

module _ {F : Type 0} (cap : CapLibraries) (tar : TarLibraries) where
  reading_parts :
      (r : Reading) (rest : Walked F) {ws : List (AemetWarning F)} {n : ℕ}
      → with_reading cap tar r rest ≡ walked ws n
      → Rest rest (reading_warnings cap r) ws
  unfolding with_reading
  reading_parts no_file (walked ws' k) h = (ws', k, refl, walked_inj h)
  reading_parts no_file (stopped e) h = absurd (stopped_ne_walked h)
  reading_parts (contents payload) rest h = parse_parts cap (parse_cap cap payload) rest h
  reading_parts (tar_error e) rest h = absurd (stopped_ne_walked h)
  reading_parts other_error rest h = absurd (stopped_ne_walked h)

  guard_member :
      (is_file is_large : Bool) (r : Reading) (e : Option String) (rest : Walked F)
      {ws : List (AemetWarning F)} {n : ℕ}
      → (if not is_file then rest else if is_large then stopped e else with_reading cap tar r rest)
        ≡ walked ws n
      → ((is_file ≡ false) ⊎ (is_large ≡ false))
        × Rest rest (if is_file then reading_warnings cap r else []) ws
  guard_member false is_large r e (walked ws' k) h = (inl refl, (ws', k, refl, walked_inj h))
  guard_member false is_large r e (stopped e') h = absurd (stopped_ne_walked h)
  guard_member true true r e rest h = absurd (stopped_ne_walked h)
  guard_member true false r e rest h = (inr refl, reading_parts r rest h)

  member_parts :
      (m : Member) (rest : Walked F) {ws : List (AemetWarning F)} {n : ℕ}
      → with_member cap tar m rest ≡ walked ws n
      → IsSmall m × Rest rest (member_warnings cap m) ws
  unfolding with_member
  member_parts m rest h =
      let parts = guard_member m.is_file (ltb max_tar_member_bytes m.size) m.reading _ rest h in
      (
        elim parts.0 [ inl skipped ↦ inl skipped | inr small ↦ inr (ground (arith, small)) ],
        parts.1,
      )

  -- What holds of the archive where the loop has come to its end.
  abbrev Seen : ℕ → List Member → Ending → List (AemetWarning F) → Type 0
  Seen left ms ending ws =
      (ws ≡ warnings_of cap ms) × (length ms ≤ left) × All IsSmall ms × (ending ≡ complete)

  end_parts :
      (ending : Ending) {ws : List (AemetWarning F)} {n : ℕ}
      → at_end ending ≡ walked ws n
      → ([] ≡ ws) × (ending ≡ complete)
  unfolding at_end
  end_parts complete h = (sym (walked_inj h), refl)
  end_parts (broken_tar e) h = absurd (stopped_ne_walked h)
  end_parts broken_stream h = absurd (stopped_ne_walked h)

  walk_parts :
      (left : ℕ) (ms : List Member) (ending : Ending) {ws : List (AemetWarning F)} {n : ℕ}
      → walk_members cap tar left ms ending ≡ walked ws n
      → Seen left ms ending ws
  unfolding walk_members
  walk_parts left [] ending h =
      let parts = end_parts ending h in (sym parts.0, omega arith, tt, parts.1)
  walk_parts zero (m ∷ ms) ending h = absurd (stopped_ne_walked h)
  walk_parts (suc left) (m ∷ ms) ending h =
      let (small, rest) = member_parts m (walk_members cap tar left ms ending) h in
      let (ws', k, e, whole) = rest in
      let (same, few, all_small, end) = walk_parts left ms ending e in
      (
        whole ∙ ap (λ rest. member_warnings cap m ++ rest) same,
        omega (arith, few),
        (small, all_small),
        end,
      )

  checked_parts :
      (r : Walked F) {ws : List (AemetWarning F)}
      → checked_warnings r ≡ fetched ws
      → (n : ℕ) × (r ≡ walked ws n)
  checked_parts (stopped none) h = absurd (failed_ne_fetched h)
  checked_parts (stopped (some e)) h = absurd (protocol_ne_fetched h)
  checked_parts (walked [] zero) h = (0, ap (λ ws. walked ws 0) (fetched_inj h))
  checked_parts (walked [] (suc k)) h = absurd (protocol_ne_fetched h)
  checked_parts (walked (w ∷ ws) k) h = (k, ap (λ ws'. walked ws' k) (fetched_inj h))

  -- Where `_parse_archive` gives warnings, they are those of the files of the archive that can be
  -- read, all of them and in the order of the archive, which has ten thousand members at most, no
  -- file of more than 10 MiB by its header, and was read to its end.
  pub parse_archive-whole :
      (archive : String) {ws : List (AemetWarning F)}
      → parse_archive cap tar archive ≡ fetched ws
      → (ws ≡ warnings_of cap (tar.members archive).0)
        × (length (tar.members archive).0 ≤ max_tar_members)
        × All IsSmall (tar.members archive).0
        × ((tar.members archive).1 ≡ complete)
  unfolding parse_archive
  parse_archive-whole archive h =
      let archived = tar.members archive in
      let (n, e) = checked_parts (walk_members cap tar max_tar_members archived.0 archived.1) h in
      walk_parts max_tar_members archived.0 archived.1 e
