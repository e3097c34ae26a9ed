-- ===== src/Relay/Examples/Deliveries.antt =====
-- The repeated deliveries of services/dozzle/alert_relay.py on concrete inputs.
use nas_platform.Common.{ℕ, ◌+◌, ◌*◌, ◌≤◌, ◌<◌, ◌≡◌, ◌↔◌, refl, true, false, some, [], ◌∷◌, arith}
use nas_platform.Common.Text.{text_eq}
use nas_platform.Common.Dict.{lookup, has}
use nas_platform.Relay.Delivered.{
  Delivered, key, key_eq, event_keys, no_deliveries, duplicate_window, forget_old, seen,
}
use nas_platform.Relay.Delivered.Window.{seen_iff}
use nas_platform.Relay.Examples.Data.{went_down, came_back}

abbrev minute : ℕ
minute = 60 * 1000000

abbrev one_delivery : Delivered
one_delivery = record no_deliveries { published = (key went_down, 5 * minute) ∷ [] }

seen_iff_example : ((seen one_delivery went_down (20 * minute)).0 ≡ true) ↔ (
    (at : ℕ) × (lookup (key went_down) one_delivery.published ≡ some at)
    × (at ≤ 20 * minute)
    × (20 * minute < at + duplicate_window))
unfolding has
seen_iff_example = seen_iff one_delivery went_down (20 * minute) (omega arith, tt, tt) (refl, tt)

-- After the window it is forgotten.
forgotten : (seen one_delivery went_down (20 * minute)).0 ≡ false
unfolding seen forget_old has
forgotten = refl

-- A clock that stepped back: behind a delivery inside of the window an older one is still held for
-- a repeat.
held_behind_fresh :
    (seen
      (record no_deliveries {
        published = (key came_back, 30 * minute) ∷ (key went_down, 5 * minute) ∷ [];
      })
      went_down
      (31 * minute)).0
    ≡ true
unfolding seen forget_old has key_eq text_eq
held_behind_fresh = refl
