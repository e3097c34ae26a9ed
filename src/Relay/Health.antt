-- ===== src/Relay/Health.antt =====
-- services/dozzle/alert_relay.py: the health entries and `health_transition`.
pub mod Converge
pub mod Publish
use nas_platform.Common.{
  ℕ, ◌≡◌, Bool, true, false, ◌||◌, Option, none, some, ltb, ◌==◌, if◌then◌else◌,
}
use nas_platform.Common.Text.{Text}
use nas_platform.Common.Dict.{Dict, lookup, insert, text_keys}
use nas_platform.Relay.Clock.{parse_timestamp}
use nas_platform.Relay.Budget.{Rule, oom, unexpected_exit, unhealthy, recovery}
use nas_platform.Relay.Event.{Event}

pub data State : Type 0 where
  sick well : State

-- An entry of the state document, `sick` and `well` for the texts "unhealthy" and "healthy".
pub record Entry : Type 0 where
  pub identity : Text
  pub state : State
  pub timestamp : Text

-- parse_timestamp(…) of a timestamp that was validated; the 0 is for a text that was not.
unfoldable pub order_of : Text → ℕ
order_of timestamp = elim (parse_timestamp timestamp) [ none ↦ 0 | some n ↦ n ]

abbrev pub incoming_state : Rule → State
incoming_state unhealthy = sick
incoming_state _ = well

abbrev pub is_sick : State → Bool
is_sick sick = true
is_sick well = false

abbrev pub incoming_entry : Event → Text → Entry
incoming_entry event identity = record {
  identity = identity;
  state = incoming_state event.rule;
  timestamp = event.timestamp;
}

-- What becomes of an event: dropped unrecorded (`None`), or published or not, with the entries
-- that it leaves.
abbrev pub Transition : Type 0
Transition = Option (Bool × Dict Text Entry)

-- The branch of `health_transition` for an identity that has an entry.
unfoldable pub transition_from : Entry → Event → Text → Dict Text Entry → Transition
transition_from existing event identity proposed =
    let incoming = incoming_entry event identity in
    if ltb (order_of event.timestamp) (order_of existing.timestamp)
    then none
    else if order_of event.timestamp == order_of existing.timestamp
    then (if is_sick existing.state
        then (if is_sick incoming.state
            then some (true, proposed)
            else some (true, insert identity incoming proposed))
        else none)
    else some (is_sick incoming.state || is_sick existing.state, insert identity incoming proposed)

unfoldable pub health_transition : Event → Text → Dict Text Entry → Dict Text Entry → Transition
unfolding transition_from
health_transition event identity entries proposed = elim (lookup identity entries) [
  | none ↦ some (
    is_sick (incoming_state event.rule),
    insert identity (incoming_entry event identity) proposed,
  )
  | some existing ↦ transition_from existing event identity proposed
]
