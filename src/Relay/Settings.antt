-- ===== src/Relay/Settings.antt =====
-- services/dozzle/alert_relay.py: `Config`, the settings that the request path reads. The
-- validation that builds it is in Settings/Validate.antt.
use nas_platform.Common.{ℕ, Option}
use nas_platform.Common.Text.{Text}

pub record Config : Type 0 where
  pub alert_relay_token : Text
  pub alert_relay_port : ℕ
  pub pushover_api_url : Text
  pub alert_relay_link_base : Option Text
  pub alert_relay_link_problem : Option Text
  pub pushover_token : Text
  pub pushover_user_key : Text
  pub alert_state_path : Text
  pub container_ceiling : ℕ
  pub oom_container_ceiling : ℕ
  pub global_ceiling : ℕ
  pub pushover_alerts_token : Option Text
  pub beszel_link_base : Option Text
  pub beszel_link_problem : Option Text
  pub pushover_golem_token : Option Text
