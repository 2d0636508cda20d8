-- ===== src/Sources/Tests.antt =====
-- The theorems on the health of a source at one that synced a day ago.
use geo_hazard.Base.{ℕ, ◌≡◌, refl, true, none, some, List, [], ◌∷◌}
use geo_hazard.Sources.{SourceSyncState, healthy}
use geo_hazard.Base.Query.{order_by, insert_by}
use geo_hazard.Base.Dict.{Dict, lookup, insert}
use geo_hazard.Sources.Status.{ok, add_all, by_source, assess_sources}
use geo_hazard.Sources.Status.Reported.{assess_sources-healthy}

abbrev states : List (SourceSyncState ℕ)
states =
    record {
      source = "effis";
      last_run_at = some 1000;
      last_success_at = some 1000;
      cursor = 0;
      last_error = none;
      consecutive_failures = 2;
    }
    ∷ []

abbrev intervals : Dict ℕ
intervals = ("effis", 14400) ∷ []

report_run : (assess_sources states intervals 5000 2 3).0 ≡ ok
unfolding assess_sources by_source insert lookup add_all order_by insert_by
report_run = refl

interval_run : lookup "effis" intervals ≡ some 14400
unfolding lookup
interval_run = refl

assess_sources-healthy_example :
    healthy 5000 2 3 (some 14400) (lookup "effis" (by_source states)) ≡ true
assess_sources-healthy_example =
    assess_sources-healthy states intervals 5000 2 3 "effis" report_run interval_run
