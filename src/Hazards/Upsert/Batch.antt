-- ===== src/Hazards/Upsert/Batch.antt =====
-- The upsert of a batch of rows that the columns take: it never raises, its chunks make no
-- difference, it leaves the last row of each key, and a second time it does nothing.
use mathlib.Core.Option
use geo_hazard.Base.{
  All-front, subst, ℕ, String, ◌≡◌, refl, sym, ap, ◌∙◌, Bool, true, false, Option, none, some, List,
  [], ◌∷◌, ◌++◌, arith, All, any, if◌then◌else◌, Bool-cases, inl, inr, All-front, All-map₂,
  some_inj,
}
use geo_hazard.Base.Query.{first_where}
use geo_hazard.Hazards.Model.{Key, same_key, same_key_iff, NewEvent, EventTable, new_key, event_at}
use geo_hazard.Hazards.Upsert.{
  Upserted, deduplicate, chunks, upsert_row, run_statement, run_statements, is_written, no_writes,
  put_rows, upsert_batch,
}
use geo_hazard.Hazards.Upsert.Chunks.{
  has_key, DistinctKeys, deduplicate-DistinctKeys, last_with, first_where-deduplicate, concat,
  chunks_bounds,
}
use geo_hazard.Hazards.Upsert.Laws.{merged, event_at-upsert_row}

module _ {G F : Type 0} where
  -- The keys that a statement has written stay apart from those of the rows to come.
  fresh-after :
      (b : Bool) (r : NewEvent G F) (written : List Key) (rs : List (NewEvent G F))
      → All (λ x. has_key (new_key r) x ≡ false) rs
      → All (λ x. any (same_key (new_key x)) written ≡ false) rs
      → All
          (λ x. any (same_key (new_key x)) (if b then new_key r ∷ written else written) ≡ false)
          rs
  fresh-after true r written rs d h = All-map₂ _ _ _ rs (λ x p q. ground (arith, p, q)) d h
  fresh-after false r written rs d h = h

  DistinctKeys-append :
      (rs qs : List (NewEvent G F)) → DistinctKeys (rs ++ qs) → DistinctKeys rs × DistinctKeys qs
  DistinctKeys-append [] qs d = (tt, d)
  DistinctKeys-append (r ∷ rs) qs d = (
    (All-front _ rs qs d.0, (DistinctKeys-append rs qs d.1).0),
    (DistinctKeys-append rs qs d.1).1,
  )

  first_where-none :
      (p : NewEvent G F → Bool) (rs : List (NewEvent G F))
      → All (λ x. p x ≡ false) rs
      → first_where p rs ≡ none
  unfolding first_where
  first_where-none p [] h = refl
  first_where-none p (r ∷ rs) h = ground (arith, first_where-none p rs)

module _ {G F : Type 0} (province : G → Option String) (new_id : Key → ℕ) (now : ℕ) where
  -- The upsert of the rows of a list, one after the other.
  unfoldable pub upsert_rows : List (NewEvent G F) → Upserted G F → Upserted G F
  upsert_rows [] u = u
  upsert_rows (r ∷ rs) u = upsert_rows rs (upsert_row province new_id now r u)

  upsert_rows-append :
      (rs qs : List (NewEvent G F)) (u : Upserted G F)
      → upsert_rows (rs ++ qs) u ≡ upsert_rows qs (upsert_rows rs u)
  unfolding upsert_rows
  upsert_rows-append [] qs u = refl
  upsert_rows-append (r ∷ rs) qs u = upsert_rows-append rs qs (upsert_row province new_id now r u)

  statement_total :
      (written : List Key) (rs : List (NewEvent G F)) (u : Upserted G F)
      → DistinctKeys rs
      → All (λ r. any (same_key (new_key r)) written ≡ false) rs
      → run_statement province new_id now written rs u ≡ some (upsert_rows rs u)
  unfolding run_statement upsert_rows
  statement_total written [] u d h = refl
  statement_total written (r ∷ rs) u d h = rw (h.0) (
      statement_total (if is_written province new_id now r u then new_key r ∷ written else written)
        rs (upsert_row province new_id now r u) d.1 (fresh-after _ r written rs d.0 h.1))

  All-fresh : (rs : List (NewEvent G F)) → All (λ r. any (same_key (new_key r)) [] ≡ false) rs
  All-fresh [] = tt
  All-fresh (r ∷ rs) = (refl, All-fresh rs)

  statements_total :
      (cs : List (List (NewEvent G F))) (u : Upserted G F)
      → DistinctKeys (concat cs)
      → run_statements province new_id now cs u ≡ some (upsert_rows (concat cs) u)
  unfolding run_statements concat upsert_rows
  statements_total [] u d = refl
  statements_total (c ∷ cs) u d =
      let parts = DistinctKeys-append c (concat cs) d in
      rw (run_statements, statement_total [] c u parts.0 (All-fresh c))
        (statements_total cs (upsert_rows c u) parts.1
          ∙ ap some (sym (upsert_rows-append c (concat cs) u)))

  -- The upsert of a batch of rows that the columns take never raises, and does what the upserts of
  -- its rows without duplicates do one after the other: the statements that the batch is cut into
  -- make no difference.
  pub upsert_batch_rows :
      (rows : List (NewEvent G F)) (t : EventTable G F)
      → upsert_batch province new_id now rows t
        ≡ some (upsert_rows (deduplicate rows) (no_writes t))
  unfolding upsert_batch upsert_rows deduplicate put_rows
  upsert_batch_rows [] t = refl
  upsert_batch_rows (r ∷ rows) t =
      let whole = (chunks_bounds (deduplicate (r ∷ rows))).0 in
      statements_total (chunks (deduplicate (r ∷ rows))) (no_writes t)
        (subst DistinctKeys (sym whole) (deduplicate-DistinctKeys (r ∷ rows)))
      ∙ ap (λ rs. some (upsert_rows rs (no_writes t))) whole

  pub event_at-upsert_rows :
      (k : Key) (rs : List (NewEvent G F)) (u : Upserted G F)
      → DistinctKeys rs
      → event_at k (upsert_rows rs u).table ≡ elim (first_where (has_key k) rs) [
        | none ↦ event_at k u.table
        | some r ↦ some (merged province new_id now r (event_at k u.table))
      ]
  unfolding upsert_rows first_where
  event_at-upsert_rows k [] u d = refl
  event_at-upsert_rows k (r ∷ rs) u d = elim (Bool-cases (has_key k r)) [
    | inl x ↦
        event_at-upsert_rows k rs (upsert_row province new_id now r u) d.1
        ∙ ground (
          arith,
          first_where-none (has_key k) rs (
              subst (λ j. All (λ y. has_key j y ≡ false) rs) ((same_key_iff (new_key r) k).0 x)
                d.0),
          event_at-upsert_row province new_id now r k u,
          x,
        )
    | inr x ↦
        event_at-upsert_rows k rs (upsert_row province new_id now r u) d.1
        ∙ ground (arith, event_at-upsert_row province new_id now r k u, x)
  ]

  -- After the upsert of a batch a key that occurs in it has the row of its last occurrence, merged
  -- with the row that the table had, and every other key has what it had.
  pub event_at-upsert_batch :
      (k : Key) (rows : List (NewEvent G F)) (t : EventTable G F)
      → Option.map (λ u. event_at k u.table) (upsert_batch province new_id now rows t)
        ≡ some (elim (last_with k rows) [
          | none ↦ event_at k t
          | some r ↦ some (merged province new_id now r (event_at k t))
        ])
  event_at-upsert_batch k rows t = rw (upsert_batch_rows rows t) (
      ap some (
        event_at-upsert_rows k (deduplicate rows) (no_writes t) (deduplicate-DistinctKeys rows)
        ∙ rw (first_where-deduplicate k rows) refl))

  -- The row of a key in the table that an upsert has given.
  pub event_at-upserted :
      (k : Key) (rows : List (NewEvent G F)) (t : EventTable G F) {u : Upserted G F}
      → upsert_batch province new_id now rows t ≡ some u
      → event_at k u.table ≡ elim (last_with k rows) [
        | none ↦ event_at k t
        | some r ↦ some (merged province new_id now r (event_at k t))
      ]
  event_at-upserted k rows t h =
      some_inj (ap (Option.map (λ v. event_at k v.table)) (sym h) ∙ event_at-upsert_batch k rows t)
