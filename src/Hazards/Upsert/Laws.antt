-- ===== src/Hazards/Upsert/Laws.antt =====
-- What the upsert of one row does to every row of the table.
use geo_hazard.Base.{
  ℕ, String, ◌≡◌, refl, subst, ◌∙◌, true, false, Option, none, some, arith, if◌then◌else◌,
  Bool-cases, inl, inr, ==_refl,
}
use text.Mathlib.TextPositions.{eq_refl}
use geo_hazard.Base.Query.Rows.{
  first_where-update_where, first_where-update_other, first_where_found, first_where-snoc,
}
use geo_hazard.Hazards.Model.{
  Key, same_key, same_key_iff, same_key_refl, same_key_other, NewEvent, HazardEvent, new_key,
  row_key, event_at,
}
use geo_hazard.Hazards.Upsert.{
  Upserted, is_changed, same_time, inserted_row, updated_row, conflict, upsert_row,
}

same_time_refl : (a : Option ℕ) → same_time a a ≡ true
same_time_refl none = refl
same_time_refl (some a) = ==_refl a

module _ {G F : Type 0} (province : G → Option String) (new_id : Key → ℕ) (now : ℕ) where
  -- The row of a key after the upsert of a row with that key.
  pub merged : NewEvent G F → Option (HazardEvent G F) → HazardEvent G F
  merged r none = inserted_row province new_id now r
  merged r (some e) = if is_changed r e then updated_row province new_id now r e else e

  -- The row that was written, or was left because nothing differs, has the hash and the end of
  -- the new one: a second upsert of it does nothing.
  pub merged-unchanged :
      (r : NewEvent G F) (o : Option (HazardEvent G F)) → is_changed r (merged r o) ≡ false
  unfolding merged inserted_row updated_row
  merged-unchanged r none = ground (arith, eq_refl r.content_hash, same_time_refl r.ends_at)
  merged-unchanged r (some e) = elim (Bool-cases (is_changed r e)) [
    | inl x ↦ rw x (ground (arith, eq_refl r.content_hash, same_time_refl r.ends_at))
    | inr x ↦ rw x x
  ]

  conflict_self :
      (r : NewEvent G F) (u : Upserted G F) (o : Option (HazardEvent G F))
      → event_at (new_key r) u.table ≡ o
      → event_at (new_key r) (conflict province new_id now r o u).table ≡ some (merged r o)
  unfolding conflict merged inserted_row updated_row
  conflict_self r u none x =
      first_where-snoc (λ e. same_key (row_key e) (new_key r)) u.table
        (inserted_row province new_id now r)
      ∙ rw (x, same_key_refl (new_key r))
  conflict_self r u (some e) x = elim (Bool-cases (is_changed r e)) [
    | inr c ↦ rw c x
    | inl c ↦ rw c (
        first_where-update_where (λ e. same_key (row_key e) (new_key r))
          (λ e. same_key (row_key e) (new_key r)) (updated_row province new_id now r) u.table
          (λ e. refl)
        ∙ rw (x, first_where_found (λ e. same_key (row_key e) (new_key r)) u.table x))
  ]

  conflict_other :
      (r : NewEvent G F) (k : Key) (u : Upserted G F) (o : Option (HazardEvent G F))
      → event_at (new_key r) u.table ≡ o
      → same_key (new_key r) k ≡ false
      → event_at k (conflict province new_id now r o u).table ≡ event_at k u.table
  unfolding conflict inserted_row updated_row
  conflict_other r k u none x n =
      first_where-snoc (λ e. same_key (row_key e) k) u.table (inserted_row province new_id now r)
      ∙ ground (arith, n)
  conflict_other r k u (some e) x n = elim (Bool-cases (is_changed r e)) [
    | inr c ↦ rw c refl
    | inl c ↦ rw c (
        first_where-update_other (λ e. same_key (row_key e) k)
          (λ e. same_key (row_key e) (new_key r)) (updated_row province new_id now r) u.table
          (λ a h. (
            same_key_other (row_key a) (new_key r) k h n,
            same_key_other (row_key a) (new_key r) k h n,
          )))
  ]

  -- After the upsert of one row: its key has the merged row, and every other key what it had.
  pub event_at-upsert_row :
      (r : NewEvent G F) (k : Key) (u : Upserted G F)
      → event_at k (upsert_row province new_id now r u).table ≡ (
          if same_key (new_key r) k
          then some (merged r (event_at k u.table))
          else event_at k u.table)
  unfolding upsert_row
  event_at-upsert_row r k u = elim (Bool-cases (same_key (new_key r) k)) [
    | inl x ↦ rw x (
        subst
          (λ j.
            event_at j (upsert_row province new_id now r u).table
            ≡ some (merged r (event_at j u.table)))
          ((same_key_iff (new_key r) k).0 x) (conflict_self r u _ refl))
    | inr x ↦ rw x (conflict_other r k u _ refl x)
  ]
