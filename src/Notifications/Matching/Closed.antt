-- ===== src/Notifications/Matching/Closed.antt =====
-- The sync of AEMET and the matching of its batch together: a warning that a message supersedes is
-- not announced.
use geo_hazard.Base.{
  ℕ, ◌≤◌, String, ◌≡◌, refl, sym, ap₂, subst, ◌∙◌, true, false, Option, none, some, List, [], ◌∷◌,
  any, All, In, In-All, str_eq, eq_iff, Bool-cases, inl, inr, arith,
}
use geo_hazard.Base.Query.{first_where}
use geo_hazard.Hazards.Model.{
  aemet, same_source, same_source_iff, same_key, same_key_refl, same_key_sym, row_key, HazardEvent,
  EventTable, event_at,
}
use geo_hazard.Sync.{Libraries, Readings, World}
use geo_hazard.Sync.Closing.{Ended, EndsBy, key_of}
use geo_hazard.Sync.Aemet.{AemetWarning, aemet_batch}
use geo_hazard.Sync.Aemet.Lifecycle.{supersedes_id, aemet_batch-EndsBy}
use geo_hazard.Notifications.Model.{Subscription}
use geo_hazard.Notifications.Manage.{WatchArea}
use geo_hazard.Notifications.Matching.{Geography, is_after, is_matched, matches}
use geo_hazard.Notifications.Matching.Sound.{matches-All}

module _ {G F : Type 0} where
  -- The unique index of the table.
  abbrev pub IsUnique : EventTable G F → Type 0
  IsUnique [] = Unit
  IsUnique (e ∷ t) = All (λ d. same_key (row_key d) (row_key e) ≡ false) t × IsUnique t

  event_at-In :
      (t : EventTable G F) (e : HazardEvent G F)
      → IsUnique t
      → In e t
      → event_at (row_key e) t ≡ some e
  unfolding first_where
  event_at-In [] e u i = absurd i
  event_at-In (x ∷ t) e u (inl h) =
      subst (λ d. event_at (row_key d) (x ∷ t) ≡ some d) (sym h)
        (rw (same_key_refl (row_key x)) refl)
  event_at-In (x ∷ t) e u (inr i) =
      let other = In-All (λ d. same_key (row_key d) (row_key x) ≡ false) e t u.0 i in
      rw (same_key_sym (row_key x) (row_key e), other) (event_at-In t e u.1 i)

  matched-parts :
      (geo : Geography G F) (batch_at quake_max_age : ℕ) (s : Subscription) (area : WatchArea F G)
      (e : HazardEvent G F)
      → is_matched geo aemet batch_at quake_max_age s area e ≡ true
      → (same_source e.source aemet ≡ true) × (is_after batch_at e.ends_at ≡ true)
  matched-parts geo batch_at quake_max_age s area e h = ground (arith, h)

ends :
    {G F : Type 0} (e : HazardEvent G F) (t : EventTable G F) (sent : ℕ) (id : String)
    → EndsBy sent (event_at (key_of aemet id) t)
    → str_eq e.external_id id ≡ true
    → same_source e.source aemet ≡ true
    → IsUnique t
    → In e t
    → Ended sent e.ends_at
unfolding EndsBy
ends e t sent id h same of_aemet u i =
    let key =
      ap₂ (λ s x. event_at (record { source = s; external_id = x }) t)
        (sym ((same_source_iff e.source aemet).0 of_aemet))
        (sym ((eq_iff e.external_id id).0 same)) in
    subst (EndsBy sent) (key ∙ event_at-In t e u i) h

not_after :
    (sent batch_at : ℕ) (o : Option ℕ)
    → sent ≤ batch_at
    → Ended sent o
    → is_after batch_at o ≡ true
    → ⊥
unfolding Ended
not_after sent batch_at none le h k = h
not_after sent batch_at (some end) le h k = ground (arith, le, h, k)

module _ {G F : Type 0} (lib : Libraries G F) (geo : Geography G F) where
  -- After a sync of AEMET with a message that supersedes a warning, the matching of the batch gives
  -- no match for that warning, where the message was sent no later than the batch and the keys of
  -- the table are unique, whatever the subscriptions and their areas.
  pub matches-superseded :
      (at : Readings) (warnings : List (AemetWarning F)) (w : World G F) (sent : ℕ) (id : String)
      (batch_at quake_max_age : ℕ) (subscriptions : List Subscription)
      (areas : List (WatchArea F G)) {counts : ℕ × ℕ × ℕ} {w' : World G F}
      → aemet_batch lib at warnings w ≡ some (counts, w')
      → any (supersedes_id sent id) warnings ≡ true
      → sent ≤ batch_at
      → IsUnique w'.events
      → All
          (λ m. str_eq m.external_id id ≡ false)
          (matches geo aemet batch_at quake_max_age
            (record { subscriptions = subscriptions; areas = areas; events = w'.events }))
  matches-superseded at warnings w sent id batch_at quake_max_age subscriptions areas {counts} {w'}
        h i le u =
      matches-All geo aemet batch_at quake_max_age _ _ λ s area e a b c matched.
        elim (Bool-cases (str_eq e.external_id id)) [
          | inl same ↦
              let (of_aemet, after) = matched-parts geo batch_at quake_max_age s area e matched in
              let ended = aemet_batch-EndsBy lib at warnings w sent id h i in
              absurd (
                not_after sent batch_at e.ends_at le
                  (ends e w'.events sent id ended same of_aemet u c) after)
          | inr other ↦ other
        ]
