-- ===== src/Outbox/Entries.antt =====
-- One dispatch, and what `handler_state` holds after it.
use geo_hazard.Base.{
  ℕ, String, ◌≡◌, ◌≢◌, ◌↔◌, refl, sym, ◌∙◌, Bool, true, false, ◌&&◌, Option, none, some, List, [],
  ◌∷◌, arith, All, str_eq, eq_iff, if◌then◌else◌, Bool-cases, inl, inr, All-map₂, ap, ap₂,
  first_chars,
}
use text.Mathlib.TextPositions.{eq_refl}
use geo_hazard.Base.Dict.{Dict, insert, lookup-insert}
use geo_hazard.Outbox.Dispatch.{
  HandlerResult, Handler, dispatch_all, every_success, all_succeeded, result_of, skip,
}
use geo_hazard.Outbox.{HandlerInfo, is_completed, record_results}

is_completed-insert :
    (k j : String) (info : HandlerInfo) (state : Dict HandlerInfo)
    → is_completed (insert k info state) j ≡ (if str_eq k j then info.ok else is_completed state j)
unfolding is_completed
is_completed-insert k j info state = ground (arith, lookup-insert k j info state)

abbrev entry_of : ℕ → Option String → HandlerInfo
entry_of now none = record { ok = true; at = now; error = none }
entry_of now (some e) = record { ok = false; at = now; error = some (first_chars 500 e) }

record_run :
    (now : ℕ) (name : String) (error : Option String) (rs : List HandlerResult)
    (state : Dict HandlerInfo)
    → record_results now (result_of name error ∷ rs) state
      ≡ record_results now rs (insert name (entry_of now error) state)
unfolding record_results
record_run now name none rs state = refl
record_run now name (some e) rs state = refl

success-result_of :
    (name : String) (now : ℕ) (error : Option String)
    → (result_of name error).success ≡ (entry_of now error).ok
success-result_of name now none = refl
success-result_of name now (some e) = refl

module _ {W P : Type 0} (completed : String → Bool) (payload : P) (h : Handler W P)
    (hs : List (Handler W P)) (w : W) where
  dispatch_skip :
      completed h.name ≡ true
      → dispatch_all completed payload (h ∷ hs) w ≡ (
        skip h.name ∷ (dispatch_all completed payload hs w).0,
        (dispatch_all completed payload hs w).1,
      )
  unfolding dispatch_all
  dispatch_skip e = ground arith

  dispatch_run :
      completed h.name ≡ false
      → dispatch_all completed payload (h ∷ hs) w ≡ (
        result_of h.name (h.run payload w).0
            ∷ (dispatch_all completed payload hs (h.run payload w).1).0,
        (dispatch_all completed payload hs (h.run payload w).1).1,
      )
  unfolding dispatch_all
  dispatch_run e = ground arith

module _ {W P : Type 0} where
  abbrev pub DistinctNames : List (Handler W P) → Type 0
  DistinctNames [] = Unit {0}
  DistinctNames (h ∷ hs) = All (λ h'. str_eq h'.name h.name ≡ false) hs × DistinctNames hs

  abbrev pub all_completed : Dict HandlerInfo → List (Handler W P) → Bool
  all_completed state [] = true
  all_completed state (h ∷ hs) = is_completed state h.name && all_completed state hs

true-and : (a b : Bool) → a ≡ true → b ≡ (a && b)
true-and a b e = rw e

module _ {W P : Type 0} (completed : String → Bool) (payload : P) where
  -- What the handlers that are not completed keep is kept.
  pub dispatch_all-keeps {ℓ} :
      (Q : W → Type ℓ) (hs : List (Handler W P)) (w : W)
      → All (λ h. completed h.name ≡ false → (v : W) → Q v → Q (h.run payload v).1) hs
      → Q w
      → Q (dispatch_all completed payload hs w).1
  unfolding dispatch_all
  dispatch_all-keeps Q [] w k q = q
  dispatch_all-keeps Q (h ∷ hs) w k q = elim (Bool-cases (completed h.name)) [
    | inl e ↦ rw (dispatch_skip completed payload h hs w e) (dispatch_all-keeps Q hs w k.1 q)
    | inr e ↦
        rw (dispatch_run completed payload h hs w e)
          (dispatch_all-keeps Q hs (h.run payload w).1 k.1 (k.0 e w q))
  ]

  abbrev pub after : ℕ → List (Handler W P) → W → Dict HandlerInfo → Dict HandlerInfo
  after now hs w state = record_results now (dispatch_all completed payload hs w).0 state

  -- A completed handler's entry is left alone.
  pub after_completed :
      (now : ℕ) (name : String) (hs : List (Handler W P)) (w : W) (state : Dict HandlerInfo)
      → completed name ≡ true
      → is_completed (after now hs w state) name ≡ is_completed state name
  unfolding dispatch_all record_results
  after_completed now name [] w state c = refl
  after_completed now name (h ∷ hs) w state c = elim (Bool-cases (completed h.name)) [
    | inl e ↦ rw (dispatch_skip completed payload h hs w e) (after_completed now name hs w state c)
    | inr e ↦
        rw (dispatch_run completed payload h hs w e, record_run)
          (after_completed now name hs (h.run payload w).1 _ c
            ∙ is_completed-insert h.name name _ state
            ∙ ground (arith, eq_iff h.name name))
  ]

  -- A handler of another name leaves the entry alone too.
  after_other :
      (now : ℕ) (name : String) (hs : List (Handler W P)) (w : W) (state : Dict HandlerInfo)
      → All (λ h. str_eq h.name name ≡ false) hs
      → is_completed (after now hs w state) name ≡ is_completed state name
  unfolding dispatch_all record_results
  after_other now name [] w state k = refl
  after_other now name (h ∷ hs) w state k = elim (Bool-cases (completed h.name)) [
    | inl e ↦ rw (dispatch_skip completed payload h hs w e) (after_other now name hs w state k.1)
    | inr e ↦
        rw (dispatch_run completed payload h hs w e, record_run)
          (after_other now name hs (h.run payload w).1 _ k.1
            ∙ is_completed-insert h.name name _ state
            ∙ ground (arith, k.0))
  ]

  module _ (h : Handler W P) (hs : List (Handler W P)) (w : W) where
    after_skip :
        (now : ℕ) (state : Dict HandlerInfo)
        → completed h.name ≡ true
        → after now (h ∷ hs) w state ≡ after now hs w state
    unfolding record_results
    after_skip now state e = rw (dispatch_skip completed payload h hs w e)

    after_run :
        (now : ℕ) (state : Dict HandlerInfo)
        → completed h.name ≡ false
        → after now (h ∷ hs) w state
          ≡ after now hs
              (h.run payload w).1
              (insert h.name (entry_of now (h.run payload w).0) state)
    after_run now state e =
        rw (dispatch_run completed payload h hs w e) (record_run now h.name _ _ state)

    success_skip :
        completed h.name ≡ true
        → every_success (dispatch_all completed payload (h ∷ hs) w).0
          ≡ every_success (dispatch_all completed payload hs w).0
    unfolding every_success
    success_skip e = rw (dispatch_skip completed payload h hs w e)

    success_run :
        (now : ℕ)
        → completed h.name ≡ false
        → every_success (dispatch_all completed payload (h ∷ hs) w).0 ≡ (
            (entry_of now (h.run payload w).0).ok
            && every_success (dispatch_all completed payload hs (h.run payload w).1).0)
    unfolding every_success
    success_run now e =
        rw (
          dispatch_run completed payload h hs w e,
          success-result_of h.name now (h.run payload w).0,
        )

  keep_entry :
      (now : ℕ) (h : Handler W P) (hs : List (Handler W P)) (info : HandlerInfo)
      (state : Dict HandlerInfo)
      → All (λ h'. str_eq h'.name h.name ≡ false) hs
      → All (λ h. completed h.name ≡ true → is_completed state h.name ≡ true) hs
      → All
          (λ h'. completed h'.name ≡ true → is_completed (insert h.name info state) h'.name ≡ true)
          hs
  keep_entry now h hs info state d k =
      All-map₂ _ _ _ hs
        (λ h' ne c old.
          rw (is_completed-insert h.name h'.name info state)
            (ground (arith, eq_iff h.name h'.name, eq_iff h'.name h.name, c old)))
        d k

  -- A dispatch succeeds exactly when afterwards each of its handlers is recorded as completed.
  every_success-after :
      (now : ℕ) (hs : List (Handler W P)) (w : W) (state : Dict HandlerInfo)
      → DistinctNames hs
      → All (λ h. completed h.name ≡ true → is_completed state h.name ≡ true) hs
      → every_success (dispatch_all completed payload hs w).0
        ≡ all_completed (after now hs w state) hs
  unfolding dispatch_all every_success
  every_success-after now [] w state d k = refl
  every_success-after now (h ∷ hs) w state d k = elim (Bool-cases (completed h.name)) [
    | inl e ↦
        success_skip h hs w e
        ∙ every_success-after now hs w state d.1 k.1
        ∙ true-and _ _ (after_other now h.name hs w state d.0 ∙ k.0 e)
        ∙ sym (ap (λ st. all_completed st (h ∷ hs)) (after_skip h hs w now state e))
    | inr e ↦
        let info = entry_of now (h.run payload w).0 in
        success_run h hs w now e
        ∙ ap₂ (λ a b. a && b)
            (sym (
              after_other now h.name hs (h.run payload w).1 (insert h.name info state) d.0
              ∙ is_completed-insert h.name h.name info state
              ∙ rw (eq_refl h.name)))
            (every_success-after now hs (h.run payload w).1 (insert h.name info state) d.1
              (keep_entry now h hs info state d.0 k.1))
        ∙ sym (ap (λ st. all_completed st (h ∷ hs)) (after_run h hs w now state e))
  ]

  all_succeeded-dispatch_all :
      (h : Handler W P) (hs : List (Handler W P)) (w : W)
      → all_succeeded (dispatch_all completed payload (h ∷ hs) w).0
        ≡ every_success (dispatch_all completed payload (h ∷ hs) w).0
  unfolding all_succeeded
  all_succeeded-dispatch_all h hs w = elim (Bool-cases (completed h.name)) [
    | inl e ↦ rw (dispatch_skip completed payload h hs w e)
    | inr e ↦ rw (dispatch_run completed payload h hs w e)
  ]

  pub succeeded_iff :
      (now : ℕ) (hs : List (Handler W P)) (w : W) (state : Dict HandlerInfo)
      → DistinctNames hs
      → All (λ h. completed h.name ≡ true → is_completed state h.name ≡ true) hs
      → (all_succeeded (dispatch_all completed payload hs w).0 ≡ true)
        ↔ ((hs ≢ []) × (all_completed (after now hs w state) hs ≡ true))
  unfolding all_succeeded dispatch_all
  succeeded_iff now [] w state d k = (λ e. cc, λ p. absurd (p.0 refl))
  succeeded_iff now (h ∷ hs) w state d k =
      let q = all_succeeded-dispatch_all h hs w ∙ every_success-after now (h ∷ hs) w state d k in
      (λ e. (λ x. cc, sym q ∙ e), λ p. q ∙ p.1)
