-- ===== src/Settings.antt =====
-- The validators of app/core/config.py, in their order. What a float does, NaN included, is an
-- argument.
pub mod Valid
mod Tests
use geo_hazard.Base.{
  ℕ, ◌+◌, ◌*◌, String, Bool, true, false, not, ◌&&◌, ◌||◌, Option, none, some, List, [], ◌∷◌, ltb,
  leb, ◌≤◌, ◌<◌, str_eq, one_of, split, strip, ◌&◌, decimal, if◌then◌else◌, ◌≡◌, arith, and_parts,
  eq_iff, refl, sym, ap, ◌⊎◌, inl, inr,
}
use geo_hazard.Base.Results.{Result, error, ok, and_then, ok_inj, error_ne_ok}
use geo_hazard.Base.Floats.{Floats}
use geo_hazard.Base.Query.{select_where}
use geo_hazard.Notifications.Areas.{is_span, degrees, read_all}

pub record Settings (F : Type 0) : Type 0 where
  pub cors_origins : String
  pub db_user : String
  pub db_password : String
  pub db_host : String
  pub db_port : ℕ
  pub db_name : String
  pub database_url : String
  pub job_lease_seconds : ℕ
  pub job_handler_timeout_seconds : ℕ
  pub effis_driver : String
  pub ign_driver : String
  pub aemet_driver : String
  pub aemet_api_key : String
  pub effis_bbox : String
  pub notifications_driver : String
  pub notifications_http_timeout_seconds : F
  pub notifications_deliver_budget_seconds : F

-- [o.strip() for o in CORS_ORIGINS.split(",") if o.strip()]
unfoldable pub strip_all : List String → List String
strip_all [] = []
strip_all (s ∷ ss) = strip s ∷ strip_all ss

-- The settings, or the text of the ValueError.
abbrev pub Checked : Type 0 → Type 0
Checked F = Result String (Settings F)

abbrev pub is_driver : String → Bool
is_driver value = str_eq value "fake" || str_eq value "http"

module _ {F : Type 0} where
  unfoldable pub cors_origins_of : Settings F → List String
  cors_origins_of x = select_where (λ s. not (str_eq s "")) (strip_all (split b',' x.cors_origins))

  unfoldable pub build_database_url : Settings F → Settings F
  build_database_url x =
      if str_eq x.database_url ""
      then record x {
        database_url =
            "postgresql+asyncpg://"
            & x.db_user
            & ":"
            & x.db_password
            & "@"
            & x.db_host
            & ":"
            & decimal x.db_port
            & "/"
            & x.db_name;
      }
      else x

  unfoldable pub validate_lease_invariant : Settings F → Checked F
  validate_lease_invariant x =
      if ltb x.job_lease_seconds (2 * x.job_handler_timeout_seconds)
      then error "JOB_LEASE_SECONDS must be >= 2 * JOB_HANDLER_TIMEOUT_SECONDS"
      else ok x

  -- The first of the drivers that is neither. The text names its value by `repr`.
  unfoldable pub check_drivers : (String → String) → List (String × String) → Settings F → Checked F
  check_drivers repr [] x = ok x
  check_drivers repr ((name, value) ∷ ds) x =
      let rest = check_drivers repr ds x in
      if is_driver value
      then rest
      else error (name & " must be 'fake' or 'http', got " & repr value)

  abbrev pub drivers_of : Settings F → List (String × String)
  drivers_of x =
      ("EFFIS_DRIVER", x.effis_driver)
      ∷ ("IGN_DRIVER", x.ign_driver)
      ∷ ("AEMET_DRIVER", x.aemet_driver)
      ∷ ("NOTIFICATIONS_DRIVER", x.notifications_driver)
      ∷ []

  abbrev pub check_api_key : Settings F → Checked F
  check_api_key x =
      if str_eq x.aemet_driver "http" && str_eq x.aemet_api_key ""
      then error "AEMET_API_KEY is required when AEMET_DRIVER='http'"
      else ok x

  unfoldable pub validate_drivers : (String → String) → Settings F → Checked F
  validate_drivers repr x = and_then (check_drivers repr (drivers_of x) x) check_api_key

module _ {F : Type 0} (fl : Floats F) (plus : F → F → F) where
  -- The comparison with an int, which does not hold of a NaN.
  unfoldable pub validate_notifications_budget : Settings F → Checked F
  validate_notifications_budget x =
      if fl.le (fl.tenths (x.job_handler_timeout_seconds * 10))
        (plus x.notifications_deliver_budget_seconds x.notifications_http_timeout_seconds)
      then error
          "NOTIFICATIONS_DELIVER_BUDGET_SECONDS + NOTIFICATIONS_HTTP_TIMEOUT_SECONDS must be < JOB_HANDLER_TIMEOUT_SECONDS"
      else ok x

module _ {F : Type 0} (fl : Floats F) (plus : F → F → F) (repr : String → String) where
  -- What is not four numbers, and what is not a box within the ranges.
  abbrev pub check_bbox : Settings F → Option (List F) → Checked F
  check_bbox x (some (min_lon ∷ min_lat ∷ max_lon ∷ max_lat ∷ [])) =
      if is_span fl (fl.minus (degrees fl 180)) (degrees fl 180) min_lon max_lon
        && is_span fl (fl.minus (degrees fl 90)) (degrees fl 90) min_lat max_lat
      then ok x
      else error ("EFFIS_BBOX out of range or inverted: " & repr x.effis_bbox)
  check_bbox x _ =
      error ("EFFIS_BBOX must be 'min_lon,min_lat,max_lon,max_lat', got " & repr x.effis_bbox)

  unfoldable pub validate_effis_bbox : Settings F → Checked F
  validate_effis_bbox x = check_bbox x (read_all fl (split b',' x.effis_bbox))

  -- The validators in their order; the settings are those that the first one has completed.
  unfoldable pub validate : Settings F → Checked F
  validate x = and_then (validate_lease_invariant (build_database_url x)) λ x.
      and_then (validate_notifications_budget fl plus x)
        λ x. and_then (validate_drivers repr x) λ x. validate_effis_bbox x
