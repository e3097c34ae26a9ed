-- ===== src/Relay/Examples/Healths.antt =====
-- The health transitions of services/dozzle/alert_relay.py on concrete inputs.
use mathlib.Core.List.Perm
use nas_platform.Common.{◌≡◌, ◌↔◌, ◌⊎◌, refl, none, some, [], ◌∷◌}
use nas_platform.Common.Text.{Text}
use nas_platform.Common.Dict.{Dict, lookup, text_keys}
use nas_platform.Relay.Health.{Entry, incoming_entry, health_transition}
use nas_platform.Relay.Health.Converge.{reading, observe_all, observe_all-perm}
use nas_platform.Relay.Health.Publish.{
  Publishes, SickUntil, RenewedBy, recovery-Publishes, unhealthy-Publishes,
}
use nas_platform.Relay.Examples.Data.{web, went_down, came_back}

abbrev nothing : Dict Text Entry
nothing = []

abbrev down : Dict Text Entry
down = (web, incoming_entry went_down web) ∷ []

observe_all-perm_example :
    reading (lookup web (observe_all web nothing (went_down ∷ came_back ∷ [])))
    ≡ reading (lookup web (observe_all web nothing (came_back ∷ went_down ∷ [])))
observe_all-perm_example =
    observe_all-perm web nothing (went_down ∷ came_back ∷ []) (came_back ∷ went_down ∷ [])
      (Perm.swap came_back went_down [])

recovery-Publishes_example :
    Publishes (health_transition came_back web down down)
    ↔ ((x : Entry) × (lookup web down ≡ some x) × SickUntil came_back x)
recovery-Publishes_example = recovery-Publishes came_back web down refl

unhealthy-Publishes_example : Publishes (health_transition went_down web down down) ↔ (
    (lookup web down ≡ none) ⊎ ((x : Entry) × (lookup web down ≡ some x) × RenewedBy went_down x))
unhealthy-Publishes_example = unhealthy-Publishes went_down web down refl
