-- ===== src/Relay/Beszel/Process.antt =====
-- services/dozzle/alert_relay.py: `process_beszel` on the state of one relay.
use nas_platform.Common.{Bool, false, not, Option, none, some, if◌then◌else◌, []}
use nas_platform.Common.Text.{Text, codes}
use nas_platform.Relay.Settings.{Config}
use nas_platform.Relay.Budget.{
  Decision, publish, notice, silent, charged_budget, rolled_budget, raise_floor, charge_budget,
}
use nas_platform.Relay.Envelope.{Alert}
use nas_platform.Relay.Beszel.{
  Kind, status, threshold, unrecognised, classify_beszel, beszel_is_golem,
}
use nas_platform.Relay.Beszel.Render.{render_beszel}
use nas_platform.Relay.Clock.{DateTime}
use nas_platform.Relay.Process.{
  Relay, Stored, Weather, Answer, state_error, Message, alert, ceiling_notice, settle,
}
use nas_platform.Relay.Render.{render_ceiling_notice}

-- A token as `urlencode` writes it.
abbrev token_text : Option Text → Text
token_text none = codes "None"
token_text (some token) = token

-- The application of an alert, and whether a golem alert goes out on Alerts.
abbrev application : Config → Bool → Text × Bool
application config golem = elim config.pushover_golem_token [
  | none ↦ (token_text config.pushover_alerts_token, golem)
  | some token ↦ (if golem then token else token_text config.pushover_alerts_token, false)
]

-- classify_beszel(alert)["system"] or "Beszel"
unfoldable pub system_or : Kind → Text
system_or (status system) = system
system_or (threshold system metric direction) = system
system_or unrecognised = codes "Beszel"

-- The notification that the decision authorises, with its token.
unfoldable pub beszel_message : Config → Alert → DateTime → Decision → Option Message
unfolding beszel_is_golem render_beszel classify_beszel system_or
beszel_message config a now (publish b) =
    let (token, fallback) = application config (beszel_is_golem a) in
    some (alert (render_beszel a config.beszel_link_base now fallback) token)
beszel_message config a now (notice b scope ceiling allowance) =
    let system = system_or (classify_beszel a).kind in
    some (
      ceiling_notice scope (render_ceiling_notice system [] scope ceiling b.day allowance)
        (token_text config.pushover_alerts_token))
beszel_message config a now (silent b) = none

unfoldable pub charge_beszel : Config → Weather → Alert → Stored → Relay → Answer × Relay
unfolding beszel_message
charge_beszel config w a stored r =
    let budget = raise_floor r.floor (rolled_budget stored.budget w.now) in
    let decision = charge_budget budget none none config in
    settle w none stored stored.entries (charged_budget decision)
      (beszel_message config a w.now decision) r

unfoldable pub process_beszel : Config → Weather → Alert → Relay → Answer × Relay
unfolding charge_beszel
process_beszel config w a r =
    if not w.lock_works
    then (state_error, r)
    else elim r.store [ none ↦ (state_error, r) | some stored ↦ charge_beszel config w a stored r ]
