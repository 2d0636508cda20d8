-- ===== src/Outbox/Batch.antt =====
-- One batch of the outbox: which event a round takes, and which rows it leaves alone.
use geo_hazard.Base.{
  ℕ, zero, suc, ◌≡◌, refl, Bool, true, false, Option, some, List, [], ◌∷◌, arith, All, ◌==◌,
  Option-cases, Bool-cases, ==_iff, subst, sym, inl, inr,
}
use geo_hazard.Base.Query.{select_where, first_where, order_by, limit_one}
use geo_hazard.Base.Query.Rows.{All-select_where, first_where-update_other}
use geo_hazard.Base.Query.Order.{
  IsOrdering, IsOrdered, order_by-All, order_by-All_inv, order_by-IsOrdered,
}
use geo_hazard.Outbox.Dispatch.{Dispatcher}
use geo_hazard.Outbox.{
  OutboxEvent, Readings, batch_size, scheduled_before, is_ready, next_event, handle_event,
  process_next, process_from, process_batch,
}
use geo_hazard.Base.{ap, ◌∙◌, some_inj, none_ne_some}

scheduled_before-IsOrdering : {P : Type 0} → IsOrdering (scheduled_before {P = P})
scheduled_before-IsOrdering = record {
  asym = λ a b h. ground arith;
  ties = λ a b c h k. ground arith;
}

limit_one-All {ℓ κ} :
    {A : Type ℓ} (Q : A → Type κ) (xs : List A) {a : A} → All Q xs → limit_one xs ≡ some a → Q a
limit_one-All Q [] h e = absurd (cc)
limit_one-All Q (x ∷ xs) h e = ground arith

head_first :
    {P : Type 0} (xs : List (OutboxEvent P)) {e : OutboxEvent P}
    → IsOrdered scheduled_before xs
    → limit_one xs ≡ some e
    → All (λ r. scheduled_before r e ≡ false) xs
head_first [] o h = tt
head_first (x ∷ xs) o h =
    subst (λ z. All (λ r. scheduled_before r z ≡ false) (x ∷ xs)) (some_inj h) (ground arith, o.0)

locked_ne : (locked : ℕ → Bool) (a b : ℕ) → locked a ≡ false → locked b ≡ true → (a == b) ≡ false
locked_ne locked a b f t = elim (Bool-cases (a == b)) [
  | inl e ↦ cc (ap locked ((==_iff a b).0 e))
  | inr e ↦ e
]

unlocked :
    {P : Type 0} (locked : ℕ → Bool) (now : ℕ) (e : OutboxEvent P)
    → is_ready locked now e ≡ true
    → locked e.id ≡ false
unlocked locked now e h = ground arith

module _ {P : Type 0} (locked : ℕ → Bool) (now : ℕ) (t : List (OutboxEvent P)) where
  next_event_ready :
      {e : OutboxEvent P} → next_event locked now t ≡ some e → is_ready locked now e ≡ true
  unfolding next_event
  next_event_ready {e} h =
      limit_one-All (λ x. is_ready locked now x ≡ true)
        (order_by scheduled_before (select_where (is_ready locked now) t))
        (order_by-All scheduled_before _ _ (All-select_where (is_ready locked now) t)) h

  -- The event of a round is PENDING, due and not locked by another worker, and no such event is
  -- scheduled earlier.
  pub next_event_earliest :
      {e : OutboxEvent P}
      → next_event locked now t ≡ some e
      → (is_ready locked now e ≡ true)
        × All (λ r. scheduled_before r e ≡ false) (select_where (is_ready locked now) t)
  unfolding next_event
  next_event_earliest {e} h = (
    next_event_ready h,
    order_by-All_inv scheduled_before _ _ (
        head_first (order_by scheduled_before (select_where (is_ready locked now) t))
          (order_by-IsOrdered scheduled_before scheduled_before-IsOrdering _) h),
  )

module _ {W P : Type 0} (d : Dispatcher W P) where
  abbrev pub row : ℕ → List (OutboxEvent P) → Option (OutboxEvent P)
  row id t = first_where (λ r. r.id == id) t

  id-handle_event :
      (at : Readings) (e : OutboxEvent P) (w : W) → (handle_event d at e w).0.id ≡ e.id
  unfolding handle_event
  id-handle_event at e w = ground arith

  process_next_locked :
      (locked : ℕ → Bool) (id now : ℕ) (at : Readings) (t : List (OutboxEvent P)) (w : W)
      (s : List (OutboxEvent P) × W)
      → locked id ≡ true
      → process_next d locked now at (t, w) ≡ some s
      → row id s.0 ≡ row id t
  unfolding process_next
  process_next_locked locked id now at t w s l e = elim (Option-cases (next_event locked now t)) [
    | inl x ↦ absurd (none_ne_some (rw x at e))
    | inr (ev, x) ↦
        ap (λ (z : List (OutboxEvent P) × W). row id z.0) (sym (some_inj (rw x at e)))
        ∙ (first_where-update_other (λ r. r.id == id) (λ r. r.id == (handle_event d at ev w).0.id)
            (λ _. (handle_event d at ev w).0) t
            (λ a same. ground (
              arith,
              id-handle_event at ev w,
              locked_ne locked ev.id id (unlocked locked now ev (next_event_ready locked now t x))
                  l,
            )))
  ]

  process_from_locked :
      (locked : ℕ → ℕ → Bool) (id : ℕ) (at : ℕ → ℕ × Readings) (n : ℕ)
      (s : List (OutboxEvent P) × W)
      → ((i : ℕ) → locked i id ≡ true)
      → row id (process_from d locked at n s).0 ≡ row id s.0
  unfolding process_from
  process_from_locked locked id at zero s l = refl
  process_from_locked locked id at (suc n) (t, w) l =
      elim (Option-cases (process_next d (locked n) (at n).0 (at n).1 (t, w))) [
        | inl x ↦ rw (x, process_from)
        | inr (s', x) ↦
            rw (x, process_from)
              (process_from_locked locked id at n s' l
                ∙ process_next_locked (locked n) id (at n).0 (at n).1 t w s' (l n) x)
      ]

  -- A batch leaves every event that another worker holds locked throughout as it is.
  pub process_batch_locked :
      (locked : ℕ → ℕ → Bool) (id : ℕ) (at : ℕ → ℕ × Readings) (s : List (OutboxEvent P) × W)
      → ((i : ℕ) → locked i id ≡ true)
      → row id (process_batch d locked at s).0 ≡ row id s.0
  unfolding process_batch
  process_batch_locked locked id at s l = process_from_locked locked id at batch_size s l
