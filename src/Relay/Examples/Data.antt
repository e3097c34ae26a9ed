-- ===== src/Relay/Examples/Data.antt =====
-- The settings, the clock and the events of the examples.
use nas_platform.Common.{false, none, [], ◌∷◌}
use nas_platform.Common.Text.{Text, codes}
use nas_platform.Relay.Clock.{DateTime}
use nas_platform.Relay.Settings.{Config}
use nas_platform.Relay.Budget.{Counter, Budget, Rule, unhealthy, recovery}
use nas_platform.Relay.Event.{Event}

abbrev pub settings : Config
settings = record {
  alert_relay_token = codes "relay";
  alert_relay_port = 8080;
  pushover_api_url = codes "https://api.pushover.net/1/messages.json";
  alert_relay_link_base = none;
  alert_relay_link_problem = none;
  pushover_token = codes "containers";
  pushover_user_key = codes "user";
  alert_state_path = codes "/state/alerts.json";
  container_ceiling = 2;
  oom_container_ceiling = 3;
  global_ceiling = 4;
  pushover_alerts_token = none;
  beszel_link_base = none;
  beszel_link_problem = none;
  pushover_golem_token = none;
}

abbrev pub noon : DateTime
noon = record {
  year = 2026;
  month = 9;
  day = 14;
  hour = 12;
  minute = 0;
  second = 0;
  microsecond = 0;
}

abbrev pub today : Text
today = codes "2026-09-14"

abbrev pub event_of : Rule → Text → Event
event_of rule timestamp = record {
  rule = rule;
  container_id = codes "0123456789ab";
  container = codes "immich";
  host = codes "nas";
  event = codes "health_status";
  health_status = [];
  exit_code = [];
  timestamp = timestamp;
}

abbrev pub went_down : Event
went_down = event_of unhealthy (codes "2026-09-14T11:00:00Z")

abbrev pub came_back : Event
came_back = event_of recovery (codes "2026-09-14T11:30:00Z")

abbrev pub web : Text
web = codes "web"

abbrev pub full_counter : Counter
full_counter = record { identity = web; count = 2; notified = false }

abbrev pub busy : Budget
busy = record { day = today; count = 2; notified = false; containers = (web, full_counter) ∷ [] }
