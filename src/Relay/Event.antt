-- ===== src/Relay/Event.antt =====
-- services/dozzle/alert_relay.py: a container event as `validate_envelope` returns it.
use nas_platform.Common.{Bool, true, false}
use nas_platform.Common.Text.{Text}
use nas_platform.Relay.Budget.{Rule, oom, unexpected_exit, unhealthy, recovery}

pub record Event : Type 0 where
  pub rule : Rule
  pub container_id : Text
  pub container : Text
  pub host : Text
  pub event : Text
  pub health_status : Text
  pub exit_code : Text
  pub timestamp : Text

abbrev pub rule_eq : Rule → Rule → Bool
rule_eq oom oom = true
rule_eq unexpected_exit unexpected_exit = true
rule_eq unhealthy unhealthy = true
rule_eq recovery recovery = true
rule_eq _ _ = false
