-- ===== src/Notifications/Matching.antt =====
-- `MatchingRepo` of app/notifications/repos/matching.py, and
-- app/notifications/event_handlers/match_notifications.py. What PostGIS does is an argument.
pub mod Joined
pub mod Sound
pub mod Closed
use geo_hazard.Base.{
  ℕ, ◌+◌, String, Bool, true, false, not, ◌&&◌, ◌||◌, Option, none, some, List, [], ◌∷◌, ◌++◌, any,
  ltb, leb, ◌==◌, str_eq, is_none, if◌then◌else◌,
}
use geo_hazard.Base.Query.{order_by}
use geo_hazard.Base.Dict.{lookup}
use geo_hazard.Base.Json.{Json, text}
use geo_hazard.Hazards.Model.{
  Source, effis, ign, aemet, same_source, same_type, HazardEvent, EventTable, Attrs,
}
use geo_hazard.Notifications.Model.{Subscription, is_active, Tables}
use geo_hazard.Notifications.Manage.{AreaKind, province_kind, bbox_kind, circle_kind, WatchArea}
use geo_hazard.Notifications.Episodes.Batch.{Match, Making, match_batch}

-- ST_Intersects and ST_AsGeoJSON with six decimals.
pub record Geography (G F : Type 0) : Type 0 where
  pub intersects : G → G → Bool
  pub geojson : G → Json F

-- What the query reads.
pub record Places (F G : Type 0) : Type 0 where
  pub subscriptions : List Subscription
  pub areas : List (WatchArea F G)
  pub events : EventTable G F

module _ {F : Type 0} where
  -- params['key'] = text, which does not hold of NULL
  abbrev pub is_text : String → Option (Json F) → Bool
  is_text s (some (text t)) = str_eq t s
  is_text s _ = false

abbrev pub is_province : AreaKind → Bool
is_province province_kind = true
is_province _ = false

abbrev pub is_after : ℕ → Option ℕ → Bool
is_after at none = false
is_after at (some end) = ltb at end

abbrev pub is_touched : ℕ → Option ℕ → Bool
is_touched at none = false
is_touched at (some updated_at) = updated_at == at

module _ {G F : Type 0} where
  -- `_notifiable`
  abbrev pub is_notifiable : Source → ℕ → ℕ → HazardEvent G F → Bool
  is_notifiable aemet batch_at quake_max_age e = is_after batch_at e.ends_at
  is_notifiable effis batch_at quake_max_age e =
      is_text "burnt_area" (lookup "kind" e.attrs) && is_none e.ends_at
  is_notifiable ign batch_at quake_max_age e = leb batch_at (e.starts_at + quake_max_age)

  abbrev pub in_code : Option String → WatchArea F G → Bool
  in_code none area = false
  in_code (some code) area = is_text code (lookup "code" area.params)

  -- `_area_contains`
  abbrev pub area_contains : Geography G F → HazardEvent G F → WatchArea F G → Bool
  area_contains geo e area =
      geo.intersects area.geom e.geom
      && (not (is_province area.kind) || in_code e.province_code area)

  -- The joins and the conditions of the query.
  abbrev pub is_matched :
      Geography G F → Source → ℕ → ℕ → Subscription → WatchArea F G → HazardEvent G F → Bool
  is_matched geo source batch_at quake_max_age s area e =
      is_active s.status
      && any (same_type e.hazard_type) s.hazard_types
      && leb s.severity_min e.severity
      && area.id == s.watch_area_id
      && same_source e.source source
      && (e.created_at == batch_at || is_touched batch_at e.updated_at)
      && is_notifiable source batch_at quake_max_age e
      && area_contains geo e area

  abbrev pub match_of : Geography G F → Subscription → HazardEvent G F → Match (Json F) F
  match_of geo s e = record {
    subscription_id = s.id;
    event_id = e.id;
    source = e.source;
    hazard_type = e.hazard_type;
    external_id = e.external_id;
    severity = e.severity;
    starts_at = e.starts_at;
    ends_at = e.ends_at;
    attrs = e.attrs;
    geometry = geo.geojson e.geom;
  }

module _ {F : Type 0} where
  -- ORDER BY subscription.id, severity DESC, starts_at
  abbrev pub match_before : Match (Json F) F → Match (Json F) F → Bool
  match_before a b =
      ltb a.subscription_id b.subscription_id
      || a.subscription_id == b.subscription_id
        && (ltb b.severity a.severity || a.severity == b.severity && ltb a.starts_at b.starts_at)

module _ {G F : Type 0} (geo : Geography G F) (source : Source) (batch_at quake_max_age : ℕ) where
  unfoldable pub area_matches :
      Subscription → HazardEvent G F → List (WatchArea F G) → List (Match (Json F) F)
  area_matches s e [] = []
  area_matches s e (area ∷ areas) =
      let rest = area_matches s e areas in
      if is_matched geo source batch_at quake_max_age s area e
      then match_of geo s e ∷ rest
      else rest

  unfoldable pub event_matches :
      Subscription → List (WatchArea F G) → EventTable G F → List (Match (Json F) F)
  event_matches s areas [] = []
  event_matches s areas (e ∷ es) = area_matches s e areas ++ event_matches s areas es

  unfoldable pub subscription_matches :
      List Subscription → List (WatchArea F G) → EventTable G F → List (Match (Json F) F)
  subscription_matches [] areas es = []
  subscription_matches (s ∷ ss) areas es =
      event_matches s areas es ++ subscription_matches ss areas es

  unfoldable pub matches : Places F G → List (Match (Json F) F)
  matches w = order_by match_before (subscription_matches w.subscriptions w.areas w.events)

-- The handler of `hazards.batch_ingested`; a payload without the mark of its batch is passed over.
module _ {G F I : Type 0} (geo : Geography G F) (quake_max_age : ℕ) where
  abbrev pub match_notifications :
      (Making (Json F) F I)
      → (Match (Json F) F → String)
      → (ℕ → ℕ × ℕ)
      → Source
      → Option ℕ
      → List (WatchArea F G)
      → EventTable G F
      → Tables I
      → Option (ℕ × Tables I)
  match_notifications x episode_key ids source none areas events t = some (0, t)
  match_notifications x episode_key ids source (some batch_at) areas events t =
      match_batch (record x { batch_at = batch_at }) episode_key ids
        (matches geo source batch_at quake_max_age
          (record { subscriptions = t.subscriptions; areas = areas; events = events }))
        t
