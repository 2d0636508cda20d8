-- ===== src/Sync/Aemet/Lifecycle.antt =====
-- A warning that a later message supersedes has ended by the sending of that message.
use geo_hazard.Base.{
  ℕ, String, ◌≡◌, refl, sym, ap, subst, ◌∙◌, Bool, true, ◌&&◌, ◌||◌, some, List, [], ◌∷◌, ◌++◌, any,
  arith, ◌==◌, str_eq, chain_parts, some_inj, true_ne_false, if◌then◌else◌, Bool-cases, inl, inr,
}
use geo_hazard.Base.Query.{select_where}
use geo_hazard.Hazards.Model.{aemet, Key, NewEvent, EventTable, event_at}
use geo_hazard.Hazards.Upsert.{Upserted, upsert_batch}
use geo_hazard.Hazards.Close.{close_events}
use geo_hazard.Sources.{state_of}
use geo_hazard.Sync.{
  Libraries, Readings, World, all_rows, previous_ids, vanished, close_vanished, finish_sync,
}
use geo_hazard.Sync.Closing.{EndsBy, key_of, EndsBy-close_events_listed, EndsBy-close_events_kept}
use geo_hazard.Sync.Aemet.{
  AemetWarning, is_ingestible, add_references, supersedes, by_sent, close_groups, close_superseded,
  aemet_to_row, identifiers, aemet_after, aemet_batch,
}

-- The groups list a reference at a time of sending.
abbrev has_reference : ℕ → String → List (ℕ × List String) → Bool
has_reference sent id gs = any (λ g. (g.0 == sent) && any (str_eq id) g.1) gs

any-append : (p : String → Bool) (xs ys : List String) → any p (xs ++ ys) ≡ (any p xs || any p ys)
any-append p [] ys = refl
any-append p (x ∷ xs) ys = ground (arith, any-append p xs ys)

add_references-own :
    (sent : ℕ) (id : String) (ids : List String) (gs : List (ℕ × List String))
    → any (str_eq id) ids ≡ true
    → has_reference sent id (add_references sent ids gs) ≡ true
unfolding add_references
add_references-own sent id ids [] h = ground (arith, h)
add_references-own sent id ids ((s, js) ∷ gs) h =
    ground (arith, h, any-append (str_eq id) js ids, add_references-own sent id ids gs)

add_references-kept :
    (sent s : ℕ) (id : String) (ids : List String) (gs : List (ℕ × List String))
    → has_reference sent id gs ≡ true
    → has_reference sent id (add_references s ids gs) ≡ true
unfolding add_references
add_references-kept sent s id ids [] h = absurd (true_ne_false (sym h))
add_references-kept sent s id ids ((t, js) ∷ gs) h =
    ground (arith, h, any-append (str_eq id) js ids, add_references-kept sent s id ids gs)

-- A message supersedes the id at a time of sending.
module _ {F : Type 0} where
  abbrev pub supersedes_id : ℕ → String → AemetWarning F → Bool
  supersedes_id sent id w = supersedes w && (w.sent == sent) && any (str_eq id) w.references

  by_sent-kept :
      (sent : ℕ) (id : String) (ws : List (AemetWarning F)) (gs : List (ℕ × List String))
      → has_reference sent id gs ≡ true
      → has_reference sent id (by_sent ws gs) ≡ true
  unfolding by_sent
  by_sent-kept sent id [] gs h = h
  by_sent-kept sent id (w ∷ ws) gs h =
      by_sent-kept sent id ws _
        (ground (arith, h, add_references-kept sent w.sent id w.references gs h))

  by_sent-first :
      (sent : ℕ) (id : String) (w : AemetWarning F) (gs : List (ℕ × List String))
      → supersedes_id sent id w ≡ true
      → has_reference sent id (if supersedes w then add_references w.sent w.references gs else gs)
        ≡ true
  by_sent-first sent id w gs h =
      let sup : supersedes w ≡ true = ground (arith, h) in
      let at : w.sent ≡ sent = ground (arith, h) in
      subst
        (λ s.
          has_reference s id (if supersedes w then add_references w.sent w.references gs else gs)
          ≡ true)
        at (rw sup (add_references-own w.sent id w.references gs (ground (arith, h))))

  by_sent-own :
      (sent : ℕ) (id : String) (ws : List (AemetWarning F)) (gs : List (ℕ × List String))
      → any (supersedes_id sent id) ws ≡ true
      → has_reference sent id (by_sent ws gs) ≡ true
  unfolding by_sent
  by_sent-own sent id [] gs h = absurd (true_ne_false (sym h))
  by_sent-own sent id (w ∷ ws) gs h = elim (Bool-cases (supersedes_id sent id w)) [
    | inl x ↦ by_sent-kept sent id ws _ (by_sent-first sent id w gs x)
    | inr x ↦ by_sent-own sent id ws _ (ground (arith, h, x))
  ]

module _ {G F : Type 0} where
  close_groups-kept :
      (b now : ℕ) (k : Key) (gs : List (ℕ × List String)) (t : EventTable G F)
      → EndsBy b (event_at k t)
      → EndsBy b (event_at k (close_groups now gs t).1)
  unfolding close_groups
  close_groups-kept b now k [] t h = h
  close_groups-kept b now k ((sent, ids) ∷ gs) t h =
      close_groups-kept b now k gs _ (EndsBy-close_events_kept aemet ids sent now b k t h)

  close_groups-own :
      (sent now : ℕ) (id : String) (gs : List (ℕ × List String)) (t : EventTable G F)
      → has_reference sent id gs ≡ true
      → EndsBy sent (event_at (key_of aemet id) (close_groups now gs t).1)
  unfolding close_groups
  close_groups-own sent now id [] t h = absurd (true_ne_false (sym h))
  close_groups-own sent now id ((s, ids) ∷ gs) t h =
      elim (Bool-cases ((s == sent) && any (str_eq id) ids)) [
        | inl x ↦ close_groups-kept sent now (key_of aemet id) gs _ (
            subst (λ r. EndsBy r (event_at (key_of aemet id) (close_events aemet ids s now t).1))
              (ground (arith, x))
              (EndsBy-close_events_listed aemet ids s now id t (ground (arith, x))))
        | inr x ↦ close_groups-own sent now id gs _ (ground (arith, h, x))
      ]

module _ {G F : Type 0} (lib : Libraries G F) where
  -- The steps of a batch that went through.
  abbrev Parts : Readings → List (AemetWarning F) → World G F → (ℕ × ℕ × ℕ) → World G F → Type 0
  Parts at warnings w counts w' =
      (rows : List (NewEvent G F)) × (u : Upserted G F) × (upsert_batch lib.province at.event_ids
          at.transaction_at rows w.events
        ≡ some u)
      × (aemet_after lib at warnings w u ≡ (counts, w'))

  aemet_batch-Parts :
      (at : Readings) (warnings : List (AemetWarning F)) (w : World G F) {counts : ℕ × ℕ × ℕ}
      {w' : World G F}
      → aemet_batch lib at warnings w ≡ some (counts, w')
      → Parts at warnings w counts w'
  unfolding aemet_batch
  aemet_batch-Parts at warnings w h =
      let (rows, a, k) =
        chain_parts (all_rows (aemet_to_row lib) (select_where is_ingestible warnings)) _ h in
      let (u, b, e) =
        chain_parts (upsert_batch lib.province at.event_ids at.transaction_at rows w.events) _ k in
      (rows, u, b, some_inj e)

  closed_table :
      (at : Readings) (warnings : List (AemetWarning F)) (w : World G F) (u : Upserted G F)
      → (aemet_after lib at warnings w u).1.events
        ≡ (close_vanished aemet "identifiers"
            (identifiers (select_where is_ingestible warnings))
            at.transaction_at
            w.states
            (close_superseded at.transaction_at warnings u.table).1).1
  unfolding aemet_after finish_sync
  closed_table at warnings w u = refl

  -- After a batch, an event that a message of it supersedes is not there or has ended by the
  -- sending of that message, even where the same batch has inserted it or another one closes it.
  pub aemet_batch-EndsBy :
      (at : Readings) (warnings : List (AemetWarning F)) (w : World G F) (sent : ℕ) (id : String)
      {counts : ℕ × ℕ × ℕ} {w' : World G F}
      → aemet_batch lib at warnings w ≡ some (counts, w')
      → any (supersedes_id sent id) warnings ≡ true
      → EndsBy sent (event_at (key_of aemet id) w'.events)
  unfolding close_superseded close_vanished
  aemet_batch-EndsBy at warnings w sent id h i =
      let (rows, u, b, e) = aemet_batch-Parts at warnings w h in
      let gone =
        vanished (previous_ids "identifiers" (state_of "aemet" w.states))
          (identifiers (select_where is_ingestible warnings)) in
      let ended =
        close_groups-own sent at.transaction_at id (by_sent warnings []) u.table
          (by_sent-own sent id warnings [] i) in
      subst (λ v. EndsBy sent (event_at (key_of aemet id) v))
        (sym (closed_table at warnings w u) ∙ ap (λ r. r.1.events) e)
        (EndsBy-close_events_kept aemet gone at.transaction_at at.transaction_at sent
          (key_of aemet id) _ ended)
