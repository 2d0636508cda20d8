-- ===== src/Notifications/Messages/Renders.antt =====
-- The priority and the lines of a message for ntfy.
use mathlib.Core.Option
use geo_hazard.Base.{
  ℕ, ◌+◌, ◌≤◌, max, String, ◌≡◌, refl, ap, ◌∙◌, Bool, true, false, some, List, [], ◌∷◌, map, take,
  length, length-append, length-map, length-take, All, All-map, true_ne_false, ltb, arith,
  if◌then◌else◌,
}
use geo_hazard.Hazards.Model.{Attrs}
use geo_hazard.Channels.{NtfyMessage}
use geo_hazard.Notifications.Model.{PendingDelivery, ClaimedSubscription}
use geo_hazard.Notifications.Messages.{
  MessageLibraries, describe, lines_of, max_severity, priority_of, ntfy_priority, message_with,
  render_ntfy,
}

module _ {F : Type 0} where
  -- The scale of the severities.
  abbrev pub InScale : PendingDelivery (Attrs F) → Type 0
  InScale d = (1 ≤ d.severity) × (d.severity ≤ 4)

  abbrev pub is_empty : List (PendingDelivery (Attrs F)) → Bool
  is_empty [] = true
  is_empty (d ∷ ds) = false

ntfy_priority-some : (n : ℕ) → 1 ≤ n → n ≤ 4 → ntfy_priority n ≡ some (n + 1)
ntfy_priority-some n l h = ground (arith, l, h)

module _ {F : Type 0} (lib : MessageLibraries F) where
  largest_of :
      (d : PendingDelivery (Attrs F)) (ds : List (PendingDelivery (Attrs F)))
      → All InScale (d ∷ ds)
      → (n : ℕ) × (max_severity lib (d ∷ ds) ≡ some n)
        × All (λ e. e.severity ≤ n) (d ∷ ds)
        × (1 ≤ n)
        × (n ≤ 4)
  unfolding max_severity
  largest_of d [] h = (d.severity, refl, (omega arith, tt), h.0.0, h.0.1)
  largest_of d (e ∷ ds) h =
      let (n, same, all, low, high) = largest_of e ds h.1 in
      (
        max d.severity n,
        ap (Option.map (max d.severity)) same,
        (omega arith, All-map _ _ (e ∷ ds) (λ x le. omega (arith, le)) all),
        omega (arith, low),
        omega (arith, h.0.1, high),
      )

  largest_in :
      (ds : List (PendingDelivery (Attrs F)))
      → is_empty ds ≡ false
      → All InScale ds
      → (n : ℕ) × (max_severity lib ds ≡ some n) × All (λ e. e.severity ≤ n) ds × (1 ≤ n) × (n ≤ 4)
  largest_in [] e h = absurd (true_ne_false e)
  largest_in (d ∷ ds) e h = largest_of d ds h

  more_line : (b : Bool) (line : String) → length (if b then line ∷ [] else []) ≤ 1
  more_line true line = omega arith
  more_line false line = omega arith

  lines_of-length :
      (max_items : ℕ) (ds : List (PendingDelivery (Attrs F)))
      → length (lines_of lib max_items ds) ≤ max_items + 1
  unfolding lines_of
  lines_of-length max_items ds =
      let shown = take max_items ds in
      omega (
        arith,
        length-append (map (λ d. (describe lib d).1) shown)
            (if ltb (length shown) (length ds) then _ ∷ [] else []),
        length-map (λ d. (describe lib d).1) shown,
        length-take max_items ds,
        more_line (ltb (length shown) (length ds)) _,
      )

  -- The priority of a message is one more than the largest severity of its deliveries, and its body
  -- has a line for each of the first deliveries and one more for the rest at most.
  abbrev pub IsRendered : ClaimedSubscription (Attrs F) → ℕ → NtfyMessage → Type 0
  IsRendered s max_items m =
      (2 ≤ m.priority)
      × (m.priority ≤ 5)
      × All (λ d. d.severity + 1 ≤ m.priority) s.deliveries
      × (length (lines_of lib max_items s.deliveries) ≤ max_items + 1)

  -- A claimed subscription that has deliveries, all of a severity from 1 to 4, has a message for
  -- ntfy, where the reading of its items does not raise: the priority is from 2 to 5 and above every
  -- severity, and the deliveries have one line more than the limit at most.
  pub render_ntfy-IsRendered :
      (s : ClaimedSubscription (Attrs F)) (degraded : List String) (base_url : String)
      (max_items : ℕ)
      → is_empty s.deliveries ≡ false
      → All InScale s.deliveries
      → (m : NtfyMessage) × (render_ntfy lib s degraded base_url max_items ≡ some m)
        × IsRendered s max_items m
  unfolding render_ntfy
  render_ntfy-IsRendered s degraded base_url max_items e h =
      let (n, same, all, low, high) = largest_in s.deliveries e h in
      (
        message_with lib s degraded base_url max_items (n + 1),
        ap (λ o. Option.map (message_with lib s degraded base_url max_items) (priority_of lib o))
              same
            ∙ ap (Option.map (message_with lib s degraded base_url max_items))
                (ntfy_priority-some n low high),
        (
          omega (arith, low),
          omega (arith, high),
          All-map _ _ s.deliveries (λ d le. omega (arith, le)) all,
          lines_of-length max_items s.deliveries,
        ),
      )
