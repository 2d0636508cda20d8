-- ===== src/Hazards/Upsert.antt =====
-- `HazardEventRepo.upsert_batch` of app/hazards/repos/hazard_event.py.
-- `province` is the trigger that computes `province_code` when the geometry is written, `new_id`
-- the identifier that the server gives to a row that it inserts, `now` the time of the transaction.
pub mod Chunks
pub mod Laws
pub mod Batch
pub mod Again
use geo_hazard.Base.{
  ℕ, zero, suc, ◌+◌, ◌/◌, String, Bool, true, false, not, ◌||◌, Option, none, some, List, [], ◌∷◌,
  ◌++◌, any, take, drop, length, ◌==◌, str_eq, if◌then◌else◌,
}
use geo_hazard.Base.Query.{update_where}
use geo_hazard.Hazards.Model.{
  Key, same_key, NewEvent, HazardEvent, EventTable, new_key, row_key, event_at,
}

-- _ASYNCPG_MAX_ARGS, and the number of columns of a row.
abbrev pub asyncpg_max_args : ℕ
asyncpg_max_args = 32767

abbrev pub columns : ℕ
columns = 9

abbrev pub same_time : Option ℕ → Option ℕ → Bool
same_time none none = true
same_time (some a) (some b) = a == b
same_time _ _ = false

-- The counts of inserted and of updated rows, and the table.
pub record Upserted (G F : Type 0) : Type 0 where
  pub inserted : ℕ
  pub updated : ℕ
  pub table : EventTable G F

module _ {G F : Type 0} where
  -- d[key] = row, in a dictionary as the list of its values.
  unfoldable pub put_row : NewEvent G F → List (NewEvent G F) → List (NewEvent G F)
  put_row r [] = r ∷ []
  put_row r (x ∷ xs) = if same_key (new_key x) (new_key r) then r ∷ xs else x ∷ put_row r xs

  unfoldable pub put_rows : List (NewEvent G F) → List (NewEvent G F) → List (NewEvent G F)
  put_rows [] d = d
  put_rows (r ∷ rs) d = put_rows rs (put_row r d)

  -- The dictionary over the batch, by (source, external_id): the last row of each key.
  unfoldable pub deduplicate : List (NewEvent G F) → List (NewEvent G F)
  unfolding put_rows put_row
  deduplicate rows = put_rows rows []

  -- The WHERE of the upsert: the hash or the end differs.
  abbrev pub is_changed : NewEvent G F → HazardEvent G F → Bool
  is_changed r e = not (str_eq e.content_hash r.content_hash) || not (same_time e.ends_at r.ends_at)

  -- rows[start : start + n] for start in range(0, len(rows), n), with the length as the fuel.
  unfoldable pub chunks_from : ℕ → ℕ → List (NewEvent G F) → List (List (NewEvent G F))
  chunks_from zero n rows = []
  chunks_from (suc f) n [] = []
  chunks_from (suc f) n (r ∷ rows) = take n (r ∷ rows) ∷ chunks_from f n (drop n (r ∷ rows))

  unfoldable pub chunks : List (NewEvent G F) → List (List (NewEvent G F))
  unfolding chunks_from
  chunks rows = chunks_from (length rows) (asyncpg_max_args / columns) rows

  abbrev pub no_writes : EventTable G F → Upserted G F
  no_writes t = record { inserted = 0; updated = 0; table = t }

  module _ (province : G → Option String) (new_id : Key → ℕ) (now : ℕ) where
    unfoldable pub inserted_row : NewEvent G F → HazardEvent G F
    inserted_row r = record {
      id = new_id (new_key r);
      source = r.source;
      hazard_type = r.hazard_type;
      external_id = r.external_id;
      geom = r.geom;
      severity = r.severity;
      starts_at = r.starts_at;
      ends_at = r.ends_at;
      attrs = r.attrs;
      content_hash = r.content_hash;
      province_code = province r.geom;
      created_at = now;
      updated_at = none;
    }

    unfoldable pub updated_row : NewEvent G F → HazardEvent G F → HazardEvent G F
    updated_row r e = record e {
      hazard_type = r.hazard_type;
      geom = r.geom;
      severity = r.severity;
      starts_at = r.starts_at;
      ends_at = r.ends_at;
      attrs = r.attrs;
      content_hash = r.content_hash;
      province_code = province r.geom;
      updated_at = some now;
    }

    -- INSERT … ON CONFLICT (source, external_id) DO UPDATE … WHERE, for one row.
    unfoldable pub conflict : NewEvent G F → Option (HazardEvent G F) → Upserted G F → Upserted G F
    conflict r none u = record u {
      inserted = u.inserted + 1;
      table = u.table ++ inserted_row r ∷ [];
    }
    conflict r (some e) u =
        if is_changed r e
        then record u {
          updated = u.updated + 1;
          table = update_where (λ x. same_key (row_key x) (new_key r)) (updated_row r) u.table;
        }
        else u

    unfoldable pub upsert_row : NewEvent G F → Upserted G F → Upserted G F
    unfolding conflict
    upsert_row r u = conflict r (event_at (new_key r) u.table) u

    -- Whether the statement writes the row of `r`.
    abbrev pub is_written : NewEvent G F → Upserted G F → Bool
    is_written r u = elim (event_at (new_key r) u.table) [ none ↦ true | some e ↦ is_changed r e ]

    -- One statement. It raises when it would write a row for the second time; `written` has the
    -- keys that it wrote.
    unfoldable pub run_statement :
        List Key → List (NewEvent G F) → Upserted G F → Option (Upserted G F)
    run_statement written [] u = some u
    run_statement written (r ∷ rs) u =
        let rest =
          run_statement (if is_written r u then new_key r ∷ written else written) rs
            (upsert_row r u) in
        if any (same_key (new_key r)) written then none else rest

    unfoldable pub run_statements :
        List (List (NewEvent G F)) → Upserted G F → Option (Upserted G F)
    run_statements [] u = some u
    run_statements (chunk ∷ rest) u = elim (run_statement [] chunk u) [
      | none ↦ none
      | some u' ↦ run_statements rest u'
    ]

    unfoldable pub upsert_batch : List (NewEvent G F) → EventTable G F → Option (Upserted G F)
    unfolding run_statements
    upsert_batch [] t = some (no_writes t)
    upsert_batch (r ∷ rows) t = run_statements (chunks (deduplicate (r ∷ rows))) (no_writes t)
