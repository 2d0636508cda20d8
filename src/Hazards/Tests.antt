-- ===== src/Hazards/Tests.antt =====
-- The theorems on the table of hazard events at a batch of three rows, two of them of one key.
use mathlib.Core.Option
use geo_hazard.Base.{Bool, true, false, ℕ, String, ◌≡◌, refl, Option, none, some, List, [], ◌∷◌}
use geo_hazard.Base.Query.{
  select_where, first_where, update_where, count_where, order_by, insert_by,
}
use geo_hazard.Hazards.Model.{ign, earthquake, Key, NewEvent, HazardEvent, event_at}
use geo_hazard.Hazards.Upsert.{
  Upserted, no_writes, deduplicate, chunks, inserted_row, updated_row, upsert_batch, run_statements,
  run_statement, upsert_row, conflict, chunks_from, put_rows, put_row,
}
use geo_hazard.Hazards.Upsert.Chunks.{last_with}
use geo_hazard.Hazards.Upsert.Laws.{merged}
use geo_hazard.Hazards.Upsert.Batch.{event_at-upsert_batch}
use geo_hazard.Hazards.Upsert.Again.{upsert_batch_twice}
use geo_hazard.Hazards.Pages.{Filters, is_listed, list_page}
use geo_hazard.Hazards.Pages.Walk.{walk}
use geo_hazard.Hazards.Close.{closed_row, close_events}

abbrev Point : Type 0
Point = ℕ × ℕ

abbrev province : Point → Option String
province p = some "18"

abbrev new_id : Key → ℕ
new_id k = 7

abbrev quake : NewEvent Point ℕ
quake = record {
  source = ign;
  hazard_type = earthquake;
  external_id = "es2026abc";
  geom = (37, 3);
  severity = 2;
  starts_at = 1000;
  ends_at = some 1000;
  attrs = [];
  content_hash = "first";
}

abbrev revised : NewEvent Point ℕ
revised = record quake { severity = 3; content_hash = "second" }

abbrev other : NewEvent Point ℕ
other = record quake { external_id = "es2026abd" }

abbrev batch : List (NewEvent Point ℕ)
batch = quake ∷ other ∷ revised ∷ []

abbrev key : Key
key = record { source = ign; external_id = "es2026abc" }

abbrev old_row : HazardEvent Point ℕ
old_row = inserted_row province new_id 2000 quake

abbrev written : Upserted Point ℕ
written = record {
  inserted = 1;
  updated = 1;
  table =
      updated_row province new_id 3000 revised old_row
      ∷ inserted_row province new_id 3000 other
      ∷ [];
}

-- One row updated, with its old identifier and creation, and one inserted.
upsert_run : upsert_batch province new_id 3000 batch (old_row ∷ []) ≡ some written
unfolding upsert_batch run_statements run_statement upsert_row conflict chunks chunks_from
    deduplicate put_rows put_row first_where update_where inserted_row updated_row
upsert_run = refl

event_at-upsert_batch_example :
    Option.map (λ u. event_at key u.table) (upsert_batch province new_id 3000 batch (old_row ∷ []))
    ≡ some (elim (last_with key batch) [
      | none ↦ event_at key (old_row ∷ [])
      | some r ↦ some (merged province new_id 3000 r (event_at key (old_row ∷ [])))
    ])
event_at-upsert_batch_example = event_at-upsert_batch province new_id 3000 key batch (old_row ∷ [])

upsert_batch_twice_example :
    upsert_batch province new_id 4000 batch written.table ≡ some (no_writes written.table)
upsert_batch_twice_example =
    upsert_batch_twice province new_id new_id 3000 4000 batch (old_row ∷ []) upsert_run

abbrev open_row : HazardEvent Point ℕ
open_row = record old_row { ends_at = none }

abbrev gone : List String
gone = "es2026abc" ∷ []

close_run :
    close_events ign gone 5000 5000 (open_row ∷ []) ≡ (1, closed_row 5000 5000 open_row ∷ [])
unfolding close_events update_where count_where inserted_row
close_run = refl

abbrev second : HazardEvent Point ℕ
second = record old_row { id = 8; starts_at = 1500 }

abbrev tied : HazardEvent Point ℕ
tied = record old_row { id = 9 }

abbrev no_filters : Filters Point
no_filters = record {
  bbox = none;
  province = some "18";
  hazard_types = [];
  source = some ign;
  severity_min = none;
  starts_after = none;
  starts_before = none;
  active = false;
}

abbrev listed : HazardEvent Point ℕ → Bool
listed e = is_listed (λ (b : Point) g. true) 9000 no_filters e

walk_run : walk 4 listed 2 none (old_row ∷ second ∷ tied ∷ []) ≡ some (second ∷ tied ∷ old_row ∷ [])
unfolding walk list_page order_by insert_by select_where inserted_row
walk_run = refl
