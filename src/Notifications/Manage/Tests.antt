-- ===== src/Notifications/Manage/Tests.antt =====
-- The theorems on the orders at two subscriptions to one area, of which one has a pending
-- delivery.
use geo_hazard.Base.{ℕ, ◌≡◌, refl, true, none, some, List, [], ◌∷◌, leb, ltb, split}
use geo_hazard.Base.Query.{first_where, update_where, count_where}
use geo_hazard.Base.Floats.{Floats}
use geo_hazard.Base.Results.{ok}
use geo_hazard.Hazards.Model.{earthquake}
use geo_hazard.Notifications.Model.{Subscription, Episode, Delivery, ntfy, active, pending, opened}
use geo_hazard.Notifications.Deliveries.{fail_pending}
use geo_hazard.Notifications.Areas.{circle, area_of, circle_area, read_all}
use geo_hazard.Notifications.Manage.{
  Registry, WatchArea, bbox_kind, Order, pause_order, resume_order, remove_order, get, pause,
  resume, perform, committed,
}
use geo_hazard.Notifications.Manage.Refines.{
  view, perform_all, specified, specified_all, view-perform_all,
}
use geo_hazard.Notifications.Manage.Add.{Places}
use geo_hazard.Notifications.Manage.Intact.{IsIntact, start, next, performed, Reaches-IsIntact}

abbrev home : Subscription
home = record {
  id = 1;
  watch_area_id = 10;
  hazard_types = earthquake ∷ [];
  severity_min = 2;
  channel = ntfy;
  endpoint = "https://ntfy.sh";
  credential = "topic";
  status = active;
  paused_reason = none;
  consecutive_failures = 0;
  failing_since = none;
  retry_at = none;
  last_sent_at = none;
  last_error = none;
}

abbrev shock : Delivery ℕ
shock = record {
  id = 20;
  subscription_id = 1;
  episode_id = 30;
  severity = 3;
  reason = opened;
  items = 7 ∷ [];
  item_count = 1;
  status = pending;
  attempts = 0;
  message_id = none;
  created_at = 400;
  sent_at = none;
}

abbrev episode : Episode
episode = record {
  id = 30;
  subscription_id = 1;
  key = "ign:es2026abc";
  notified_severity = 3;
  expires_at = none;
  opened_at = 400;
  last_matched_at = 400;
  closed_at = none;
}

abbrev area : WatchArea ℕ ℕ
area = record { id = 10; kind = bbox_kind; params = []; label = "casa"; geom = 1 }

abbrev registry : Registry ℕ ℕ ℕ
registry = record {
  tables = record {
    subscriptions = home ∷ record home { id = 2 } ∷ [];
    episodes = episode ∷ [];
    deliveries = shock ∷ [];
  };
  areas = area ∷ [];
  provinces = [];
}

abbrev orders : List Order
orders = pause_order 1 ∷ resume_order 1 ∷ remove_order 2 ∷ remove_order 7 ∷ []

view-perform_all_example :
    view (perform_all orders registry).tables ≡ specified_all orders (view registry.tables)
view-perform_all_example = view-perform_all orders registry (refl, tt)

-- The subscription is active again without its delivery, and the other one is gone.
specified_run :
    (specified_all orders (view registry.tables) 1 ≡ (some active, (0, (1, 1))))
    × (specified_all orders (view registry.tables) 2 ≡ (none, (0, (0, 0))))
unfolding specified_all specified first_where count_where
specified_run = (refl, refl)

abbrev paused_registry : Registry ℕ ℕ ℕ
paused_registry = committed registry (pause 1 registry)

abbrev resumed_registry : Registry ℕ ℕ ℕ
resumed_registry = committed paused_registry (resume 1 paused_registry)

pause_run : pause 1 registry ≡ ok paused_registry
unfolding pause get first_where
pause_run = refl

resume_run : resume 1 paused_registry ≡ ok resumed_registry
unfolding pause resume get first_where update_where fail_pending
resume_run = refl

-- Whole numbers, of which none is negative.
abbrev floats : Floats ℕ
floats = record {
  tenths = λ n. n;
  minus = λ a. 0;
  le = leb;
  lt = ltb;
  is_finite = λ a. true;
  read = λ s. some 40;
}

abbrev places : Places ℕ ℕ
places = record {
  floats = floats;
  envelope = λ a b c d. a;
  disc = λ a b r. a;
  show = λ a. "4.0";
  show_km = λ r. "4";
}

Reaches-IsIntact_example : IsIntact (committed registry (perform (remove_order 2) registry))
Reaches-IsIntact_example =
    Reaches-IsIntact places registry (committed registry (perform (remove_order 2) registry))
      (next registry registry (committed registry (perform (remove_order 2) registry))
        (start registry) (performed (remove_order 2) registry))
      (refl, (refl, tt))

circle_run : area_of floats (λ km. some 4000) none none "4.0,4.0,4.0" ≡ ok (circle 40 40 4000)
unfolding area_of circle_area read_all split
circle_run = refl
