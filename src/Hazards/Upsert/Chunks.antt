-- ===== src/Hazards/Upsert/Chunks.antt =====
-- The batch without duplicates, and its chunks.
use geo_hazard.Base.{
  ℕ, zero, suc, ◌*◌, ◌/◌, ◌≤◌, ◌<◌, ◌≡◌, refl, ap, subst, ◌∙◌, Bool, false, Option, none, some,
  List, [], ◌∷◌, ◌++◌, arith, All, if◌then◌else◌, Bool-cases, inl, inr, take, drop, length,
  take-append-drop, length-take, length-drop, All-map,
}
use geo_hazard.Base.Query.{first_where}
use geo_hazard.Hazards.Model.{
  Key, same_key, same_key_iff, same_key_sym, same_key_join, NewEvent, new_key,
}
use geo_hazard.Hazards.Upsert.{
  put_row, put_rows, deduplicate, chunks_from, chunks, asyncpg_max_args, columns,
}

module _ {G F : Type 0} where
  abbrev pub has_key : Key → NewEvent G F → Bool
  has_key k r = same_key (new_key r) k

  abbrev pub DistinctKeys : List (NewEvent G F) → Type 0
  DistinctKeys [] = Unit {0}
  DistinctKeys (r ∷ rs) = All (λ x. has_key (new_key r) x ≡ false) rs × DistinctKeys rs

  put_row-All :
      (k : Key) (r : NewEvent G F) (d : List (NewEvent G F))
      → has_key k r ≡ false
      → All (λ x. has_key k x ≡ false) d
      → All (λ x. has_key k x ≡ false) (put_row r d)
  unfolding put_row
  put_row-All k r [] n h = (n, tt)
  put_row-All k r (x ∷ d) n h = ground (arith, put_row-All k r d n h.1)

  put_row-DistinctKeys :
      (r : NewEvent G F) (d : List (NewEvent G F)) → DistinctKeys d → DistinctKeys (put_row r d)
  unfolding put_row
  put_row-DistinctKeys r [] h = (tt, tt)
  put_row-DistinctKeys r (x ∷ d) h = elim (Bool-cases (has_key (new_key r) x)) [
    | inl e ↦ rw e (
      subst (λ z. All (λ y. same_key (new_key y) z ≡ false) d)
          ((same_key_iff (new_key x) (new_key r)).0 e) h.0,
      h.1,
    )
    | inr e ↦ rw e (
      put_row-All (new_key x) r d (same_key_sym (new_key r) (new_key x) ∙ e) h.0,
      put_row-DistinctKeys r d h.1,
    )
  ]

  put_rows-DistinctKeys :
      (rs d : List (NewEvent G F)) → DistinctKeys d → DistinctKeys (put_rows rs d)
  unfolding put_rows
  put_rows-DistinctKeys [] d h = h
  put_rows-DistinctKeys (r ∷ rs) d h =
      put_rows-DistinctKeys rs (put_row r d) (put_row-DistinctKeys r d h)

  pub deduplicate-DistinctKeys : (rows : List (NewEvent G F)) → DistinctKeys (deduplicate rows)
  unfolding deduplicate
  deduplicate-DistinctKeys rows = put_rows-DistinctKeys rows [] tt

  -- The last row of a batch with a key.
  abbrev pub or_else : Option (NewEvent G F) → Option (NewEvent G F) → Option (NewEvent G F)
  or_else (some r) o = some r
  or_else none o = o

  unfoldable pub last_with : Key → List (NewEvent G F) → Option (NewEvent G F)
  last_with k [] = none
  last_with k (r ∷ rs) = or_else (last_with k rs) (if has_key k r then some r else none)

  first_where-put_row :
      (k : Key) (r : NewEvent G F) (d : List (NewEvent G F))
      → first_where (has_key k) (put_row r d)
        ≡ (if has_key k r then some r else first_where (has_key k) d)
  unfolding put_row first_where
  first_where-put_row k r [] = refl
  first_where-put_row k r (x ∷ d) = elim (Bool-cases (same_key (new_key x) (new_key r))) [
    | inl e ↦
        rw e (ground (arith, ap (λ z. same_key z k) ((same_key_iff (new_key x) (new_key r)).0 e)))
    | inr e ↦
        rw e (ground (arith, first_where-put_row k r d, same_key_join (new_key x) (new_key r) k))
  ]

  first_where-put_rows :
      (k : Key) (rs d : List (NewEvent G F))
      → first_where (has_key k) (put_rows rs d)
        ≡ or_else (last_with k rs) (first_where (has_key k) d)
  unfolding put_rows last_with
  first_where-put_rows k [] d = refl
  first_where-put_rows k (r ∷ rs) d =
      ground (arith, first_where-put_rows k rs (put_row r d), first_where-put_row k r d)

  -- Of each key the dictionary keeps the last row of the batch.
  pub first_where-deduplicate :
      (k : Key) (rows : List (NewEvent G F))
      → first_where (has_key k) (deduplicate rows) ≡ last_with k rows
  unfolding deduplicate first_where
  first_where-deduplicate k rows = ground (arith, first_where-put_rows k rows [])

  unfoldable pub concat : List (List (NewEvent G F)) → List (NewEvent G F)
  concat [] = []
  concat (c ∷ cs) = c ++ concat cs

  concat-chunks_from :
      (f n : ℕ) (rows : List (NewEvent G F))
      → 0 < n
      → length rows ≤ f
      → concat (chunks_from f n rows) ≡ rows
  unfolding concat chunks_from
  concat-chunks_from zero n [] h k = refl
  concat-chunks_from zero n (r ∷ rows) h k = absurd (omega arith)
  concat-chunks_from (suc f) n [] h k = refl
  concat-chunks_from (suc f) n (r ∷ rows) h k =
      ap (λ rest. take n (r ∷ rows) ++ rest)
        (concat-chunks_from f n (drop n (r ∷ rows)) h (omega (arith, length-drop n (r ∷ rows))))
      ∙ take-append-drop n (r ∷ rows)

  chunks_from-small :
      (f n : ℕ) (rows : List (NewEvent G F)) → All (λ c. length c ≤ n) (chunks_from f n rows)
  unfolding chunks_from
  chunks_from-small zero n rows = tt
  chunks_from-small (suc f) n [] = tt
  chunks_from-small (suc f) n (r ∷ rows) =
      (omega (arith, length-take n (r ∷ rows)), chunks_from-small f n (drop n (r ∷ rows)))

  -- The chunks are the batch in order, and none has more arguments than the driver takes.
  pub chunks_bounds :
      (rows : List (NewEvent G F))
      → (concat (chunks rows) ≡ rows)
        × All (λ c. length c * columns ≤ asyncpg_max_args) (chunks rows)
  unfolding chunks
  chunks_bounds rows = (
    concat-chunks_from (length rows) (asyncpg_max_args / columns) rows (omega arith) (omega arith),
    All-map _ _ (chunks rows) (λ c h. omega arith)
        (chunks_from-small (length rows) (asyncpg_max_args / columns) rows),
  )
