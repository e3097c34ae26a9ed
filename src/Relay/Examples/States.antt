-- ===== src/Relay/Examples/States.antt =====
-- The bounds of the state in services/dozzle/alert_relay.py on concrete inputs.
use nas_platform.Common.{
  ℕ, zero, suc, ◌≤◌, ◌≡◌, ◌≢◌, ◌⊎◌, refl, true, false, none, some, [], ◌∷◌, length, select,
}
use nas_platform.Common.Text.{Text, text_eq, text_lt, digits_from}
use nas_platform.Common.Dict.{
  Dict, lookup, has, erase, text_keys, HasDistinctKeys, distinct_keys-HasDistinctKeys,
}
use nas_platform.Common.Sort.{first}
use nas_platform.Relay.Health.{Entry, sick, is_sick, incoming_entry}
use nas_platform.Relay.State.{
  max_state_bytes, max_state_entries, max_budget_entries, state_document, state_bytes, is_stale,
  without_stale, cutoff_of, retained, shrink, within_bounds, Bounded, bounded, exceeds, out_of_fuel,
  shrink_loop, ranked_counters, ranked_healthy, bounded_state,
}
use nas_platform.Relay.Budget.{Counter}
use nas_platform.Relay.State.Keep.{sick_entries}
use nas_platform.Relay.State.Bounds.{bounded_state-ends, bounded_state-bounds}
use nas_platform.Relay.State.Shed.{bounded_state-keeps, bounded_state-exceeds}
use nas_platform.Relay.Examples.Data.{noon, web, went_down, busy}

abbrev down : Dict Text Entry
down = (web, incoming_entry went_down web) ∷ []

abbrev stored : Bounded
stored = record { entries = down; budget = busy; document = state_document down busy }

stored_fits : bounded_state down busy noon ≡ bounded stored
unfolding bounded_state retained without_stale is_stale select shrink_loop shrink state_bytes
    state_document digits_from
stored_fits = refl

bounded_state-ends_example : bounded_state down busy noon ≢ out_of_fuel
bounded_state-ends_example = bounded_state-ends down busy noon

bounded_state-bounds_example :
    (length down ≤ max_state_entries)
    × (length busy.containers ≤ max_budget_entries)
    × (length (state_document down busy) ≤ max_state_bytes)
    × (state_document down busy ≡ state_document down busy)
bounded_state-bounds_example = bounded_state-bounds down busy noon stored stored_fits

bounded_state-keeps_example :
    ((k : Text) (x : Entry)
      → lookup k down ≡ some x
      → is_sick x.state ≡ true
      → lookup k down ≡ some x)
    × ((k : Text) (x : Entry)
        → lookup k down ≡ some x
        → (lookup k down ≡ some x) × (is_stale (cutoff_of noon) x ≡ false))
    × ((down ≡ retained down noon) ⊎ (busy.containers ≡ []))
    × ((k : Text) (c : Counter)
        → lookup k busy.containers ≡ some c
        → lookup k busy.containers ≡ some c)
    × (busy.day ≡ busy.day)
    × (busy.count ≡ busy.count)
    × (busy.notified ≡ busy.notified)
unfolding has
bounded_state-keeps_example = bounded_state-keeps down busy noon (refl, tt) stored stored_fits

-- Unhealthy entries of `n` identities.
many : ℕ → Dict Text Entry
many zero = []
many (suc n) = (n ∷ [], record { identity = n ∷ []; state = sick; timestamp = [] }) ∷ many n

abbrev too_many : Dict Text Entry
too_many = many 129

too_many_exceed : bounded_state too_many busy noon ≡ exceeds
unfolding bounded_state retained without_stale is_stale select shrink_loop shrink state_bytes
    state_document digits_from many ranked_counters ranked_healthy erase text_lt first text_eq
too_many_exceed = refl

too_many_distinct : HasDistinctKeys too_many
unfolding many
too_many_distinct = distinct_keys-HasDistinctKeys too_many (unfold has text_eq in refl)

bounded_state-exceeds_example :
    let bare = record busy { containers = [] } in
    within_bounds (sick_entries too_many) bare (state_bytes (sick_entries too_many) bare) ≡ none
bounded_state-exceeds_example =
    bounded_state-exceeds too_many busy noon too_many_distinct too_many_exceed
