-- ===== src/Sources.antt =====
-- The state of the sync of each source (app/hazards/repos/sync_state.py), and the judgement on its
-- health (app/hazards/services/source_health.py). `C` is the type of the cursor, a JSON value.
pub mod Health
pub mod Status
mod Tests
use geo_hazard.Base.{
  ℕ, ◌+◌, ◌*◌, String, Bool, true, false, not, ◌&&◌, Option, none, some, List, [], ◌∷◌, ◌++◌, ltb,
  str_eq, is_none, or_default, if◌then◌else◌, first_chars, seconds,
}
use geo_hazard.Base.Query.{first_where, update_where}
use mathlib.Core.Option

module _ (C : Type 0) where
  pub record SourceSyncState : Type 0 where
    pub source : String
    pub last_run_at : Option ℕ
    pub last_success_at : Option ℕ
    pub cursor : C
    pub last_error : Option String
    pub consecutive_failures : ℕ

-- The last success is longer ago than `factor` intervals, or there is none.
abbrev pub is_stale_after : ℕ → ℕ → ℕ → Option ℕ → Bool
is_stale_after now factor interval none = true
is_stale_after now factor interval (some at) = ltb (at + seconds (factor * interval)) now

module _ {C : Type 0} where
  abbrev pub is_of : String → SourceSyncState C → Bool
  is_of source s = str_eq s.source source

  abbrev pub state_of : String → List (SourceSyncState C) → Option (SourceSyncState C)
  state_of source t = first_where (is_of source) t

  -- INSERT … ON CONFLICT (source) DO UPDATE, with the row to insert and the update.
  abbrev pub upsert_state :
      SourceSyncState C
      → (SourceSyncState C → SourceSyncState C)
      → List (SourceSyncState C)
      → List (SourceSyncState C)
  upsert_state row change t =
      if is_none (state_of row.source t)
      then t ++ row ∷ []
      else update_where (is_of row.source) change t

  abbrev pub success_row : C → String → Option C → ℕ → SourceSyncState C
  success_row empty source cursor now = record {
    source = source;
    last_run_at = some now;
    last_success_at = some now;
    cursor = or_default cursor empty;
    last_error = none;
    consecutive_failures = 0;
  }

  -- `empty` is the default of the column, {}.
  unfoldable pub record_success :
      C → String → Option C → ℕ → List (SourceSyncState C) → List (SourceSyncState C)
  record_success empty source cursor now = upsert_state (success_row empty source cursor now) (λ s.
      record s {
        last_run_at = some now;
        last_success_at = some now;
        cursor = or_default cursor s.cursor;
        last_error = none;
        consecutive_failures = 0;
      })

  abbrev pub failure_row : C → String → String → ℕ → SourceSyncState C
  failure_row empty source error now = record {
    source = source;
    last_run_at = some now;
    last_success_at = none;
    cursor = empty;
    last_error = some (first_chars 500 error);
    consecutive_failures = 1;
  }

  unfoldable pub record_failure :
      C → String → String → ℕ → List (SourceSyncState C) → List (SourceSyncState C)
  record_failure empty source error now = upsert_state (failure_row empty source error now) (λ s.
      record s {
        last_run_at = some now;
        last_error = some (first_chars 500 error);
        consecutive_failures = s.consecutive_failures + 1;
      })

  abbrev pub failures_of : Option (SourceSyncState C) → ℕ
  failures_of none = 0
  failures_of (some s) = s.consecutive_failures

  abbrev pub last_success : Option (SourceSyncState C) → Option ℕ
  last_success none = none
  last_success (some s) = s.last_success_at

  -- `stale`: a source without an interval is never stale.
  abbrev pub stale : ℕ → ℕ → Option ℕ → Option (SourceSyncState C) → Bool
  stale now factor none s = false
  stale now factor (some interval) s = is_stale_after now factor interval (last_success s)

  -- `healthy`, of one source.
  abbrev pub healthy : ℕ → ℕ → ℕ → Option ℕ → Option (SourceSyncState C) → Bool
  healthy now factor max_failures interval s =
      not (stale now factor interval s) && ltb (failures_of s) max_failures
