-- ===== src/Hazards/Close/Laws.antt =====
-- What a closing does to each row, and that a second one does nothing.
use mathlib.Core.Option
use geo_hazard.Base.{
  ℕ, ◌≤◌, String, ◌≡◌, refl, sym, ap, ap₂, Bool, true, false, ◌&&◌, Option, none, some, List, [],
  ◌∷◌, any, ltb, str_eq, none_or, arith, if◌then◌else◌, Bool-cases, inl, inr,
}
use geo_hazard.Base.Query.{update_where, count_where}
use geo_hazard.Base.Query.Rows.{first_where-update_where, update_where_none}
use geo_hazard.Hazards.Model.{Source, same_source, Key, EventTable, row_key, same_key, event_at}
use geo_hazard.Hazards.Close.{is_open_at, closed_row, close_events}

map_same : {A : Type 0} (f : A → A) (o : Option A) → ((a : A) → f a ≡ a) → o ≡ Option.map f o
map_same f none h = refl
map_same f (some a) h = ap some (sym (h a))

-- What is still open at the later time was open at the earlier one.
open_later :
    (A B : Bool) (ended_at later : ℕ) (o : Option ℕ)
    → ended_at ≤ later
    → (A && B && none_or (ltb ended_at) o) ≡ false
    → (A && B && none_or (ltb later) o) ≡ false
open_later a b ended_at later none h x = x
open_later true true ended_at later (some a) h x = ground (arith, x)
open_later true false ended_at later (some a) h x = refl
open_later false b ended_at later (some a) h x = refl

closed_before :
    (A B : Bool) (ended_at later : ℕ) → ended_at ≤ later → (A && B && ltb later ended_at) ≡ false
closed_before true true ended_at later h = ground arith
closed_before true false ended_at later h = refl
closed_before false b ended_at later h = refl

module _ {G F : Type 0} where
  -- The row of a key after a closing: if it is of the source, among the ids and open, it ends at
  -- the given time, and otherwise it is as before.
  pub event_at-close_events :
      (source : Source) (ids : List String) (ended_at now : ℕ) (k : Key) (t : EventTable G F)
      → event_at k (close_events source ids ended_at now t).1
        ≡ Option.map
            (λ e. if is_open_at source ids ended_at e then closed_row ended_at now e else e)
            (event_at k t)
  unfolding close_events
  event_at-close_events source [] ended_at now k t = map_same _ (event_at k t) (λ e. ground arith)
  event_at-close_events source (x ∷ xs) ended_at now k t =
      first_where-update_where (λ e. same_key (row_key e) k) (is_open_at source (x ∷ xs) ended_at)
        (closed_row ended_at now) t (λ e. refl)

  count_where-closed :
      (source : Source) (ids : List String) (ended_at now later : ℕ) (t : EventTable G F)
      → ended_at ≤ later
      → count_where
          (is_open_at source ids later)
          (update_where (is_open_at source ids ended_at) (closed_row ended_at now) t)
        ≡ 0
  unfolding count_where update_where
  count_where-closed source ids ended_at now later [] h = refl
  count_where-closed source ids ended_at now later (e ∷ t) h =
      elim (Bool-cases (is_open_at source ids ended_at e)) [
        | inl x ↦
            rw
              (
                x,
                closed_before (same_source e.source source) (any (str_eq e.external_id) ids)
                    ended_at later h,
              )
              (omega (arith, count_where-closed source ids ended_at now later t h))
        | inr x ↦
            rw
              (
                x,
                open_later (same_source e.source source) (any (str_eq e.external_id) ids) ended_at
                    later e.ends_at h x,
              )
              (omega (arith, count_where-closed source ids ended_at now later t h))
      ]

  -- After a closing another one of the same ids at the same or a later end writes nothing.
  pub close_events_twice :
      (source : Source) (ids : List String) (ended_at later now now' : ℕ) (t : EventTable G F)
      → ended_at ≤ later
      → close_events source ids later now' (close_events source ids ended_at now t).1
        ≡ (0, (close_events source ids ended_at now t).1)
  unfolding close_events
  close_events_twice source [] ended_at later now now' t h = refl
  close_events_twice source (x ∷ xs) ended_at later now now' t h =
      let zero_open = count_where-closed source (x ∷ xs) ended_at now later t h in
      ap₂ (λ n s. (n, s)) zero_open
        (update_where_none (is_open_at source (x ∷ xs) later) (closed_row later now') _ zero_open)
