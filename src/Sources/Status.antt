-- ===== src/Sources/Status.antt =====
-- `sync_intervals` and `assess_sources` of app/hazards/services/source_health.py. The status of a
-- source is given without seconds_since_success, which is the difference of two of its readings,
-- and without the text of its attribution.
pub mod Reported
use mathlib.Core.Option
use geo_hazard.Base.{
  ℕ, ◌-◌, String, ◌≡◌, refl, sym, ap, subst, ◌∙◌, Bool, true, false, not, ◌&&◌, ◌||◌, Option, none,
  some, List, [], ◌∷◌, map, any, arith, str_eq, eq_iff, text_before, chars, first_chars, last_chars,
  if◌then◌else◌, Bool-cases, inl, inr, true_ne_false, none_ne_some,
}
use geo_hazard.Base.Query.{order_by}
use geo_hazard.Base.Query.Order.{any-order_by}
use geo_hazard.Base.Dict.{Dict, lookup, insert}
use geo_hazard.Sources.{SourceSyncState, failures_of, last_success, stale, healthy}

-- name.removesuffix("_sync"), of a name that ends so
abbrev source_of : String → String
source_of name = first_chars (chars name - 5) name

abbrev is_sync : String → Bool
is_sync name = str_eq (last_chars 5 name) "_sync"

intervals_from : List (String × ℕ) → Dict ℕ → Dict ℕ
intervals_from [] d = d
intervals_from ((name, seconds) ∷ jobs) d =
    intervals_from jobs (if is_sync name then insert (source_of name) seconds d else d)

pub sync_intervals : List (String × ℕ) → Dict ℕ
unfolding intervals_from
sync_intervals jobs = intervals_from jobs []

-- A union of sets of names.
unfoldable pub add_all : List String → List String → List String
add_all [] ns = ns
add_all (x ∷ xs) ns = add_all xs (if any (str_eq x) ns then ns else x ∷ ns)

abbrev pub keys : {A : Type 0} → Dict A → List String
keys [] = []
keys ((k, v) ∷ d) = k ∷ keys d

pub record SourceStatus : Type 0 where
  pub source : String
  pub last_run_at : Option ℕ
  pub last_success_at : Option ℕ
  pub consecutive_failures : ℕ
  pub has_error : Bool
  pub interval_seconds : Option ℕ
  pub is_stale : Bool
  pub is_healthy : Bool

pub data Status : Type 0 where
  ok degraded : Status

abbrev pub all_healthy : List SourceStatus → Bool
all_healthy [] = true
all_healthy (s ∷ ss) = s.is_healthy && all_healthy ss

-- bool(s)
abbrev is_text : Option String → Bool
is_text none = false
is_text (some s) = not (str_eq s "")

module _ {C : Type 0} where
  abbrev states_from :
      List (SourceSyncState C) → Dict (SourceSyncState C) → Dict (SourceSyncState C)
  states_from [] d = d
  states_from (s ∷ ss) d = states_from ss (insert s.source s d)

  -- {st.source: st for st in states}
  unfoldable pub by_source : List (SourceSyncState C) → Dict (SourceSyncState C)
  by_source states = states_from states []

  abbrev last_run : Option (SourceSyncState C) → Option ℕ
  last_run none = none
  last_run (some s) = s.last_run_at

  abbrev has_error_in : Option (SourceSyncState C) → Bool
  has_error_in none = false
  has_error_in (some s) = is_text s.last_error

  abbrev pub status_of : ℕ → ℕ → ℕ → Dict ℕ → Dict (SourceSyncState C) → String → SourceStatus
  status_of now factor max_failures intervals states source =
      let st = lookup source states in
      let interval = lookup source intervals in
      record {
        source = source;
        last_run_at = last_run st;
        last_success_at = last_success st;
        consecutive_failures = failures_of st;
        has_error = has_error_in st;
        interval_seconds = interval;
        is_stale = stale now factor interval st;
        is_healthy = healthy now factor max_failures interval st;
      }

  abbrev pub source_names : Dict ℕ → Dict (SourceSyncState C) → List String
  source_names intervals states =
      order_by text_before (add_all (keys states) (add_all (keys intervals) []))

  unfoldable pub assess_sources :
      List (SourceSyncState C) → Dict ℕ → ℕ → ℕ → ℕ → Status × List SourceStatus
  assess_sources states intervals now factor max_failures =
      let sources =
        map (status_of now factor max_failures intervals (by_source states))
          (source_names intervals (by_source states)) in
      (if all_healthy sources then ok else degraded, sources)
