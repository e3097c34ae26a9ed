-- ===== src/Relay/Budget/Floor.antt =====
-- What `BudgetFloor` of services/dozzle/alert_relay.py adds to a stored budget.
use Prim.Native.Nat.{max}
use nas_platform.Common.{◌≡◌, ◌≢◌, refl, ◌||◌, Option, none, some, [], ◌∷◌, arith}
use nas_platform.Common.Text.{Text, text_eq_iff}
use nas_platform.Common.Dict.{
  Dict, lookup, insert, lookup-insert, lookup-not_has, text_keys, HasDistinctKeys,
}
use nas_platform.Relay.Budget.{Budget, Counter, raise_counter, raise_containers, raise_floor}
use nas_platform.Relay.Budget.Charge.{counter_at}

-- The entry of one identity after the raise, from the floor's and the store's.
abbrev pub raised : Text → Option Counter → Option Counter → Option Counter
raised k none stored = stored
raised k (some entry) stored = some (raise_counter k entry stored)

pub raise_containers-lookup :
    (k : Text) (floor stored : Dict Text Counter)
    → HasDistinctKeys floor
    → lookup k (raise_containers floor stored) ≡ raised k (lookup k floor) (lookup k stored)
unfolding raise_containers lookup
raise_containers-lookup k [] stored h = refl
raise_containers-lookup k ((i, entry) ∷ floor) stored h =
    let new = raise_counter i entry (lookup i stored) in
    ground (
      arith,
      raise_containers-lookup k floor (insert i new stored) h.1,
      lookup-insert i k new stored,
      lookup-not_has i floor h.0,
      text_eq_iff i k,
    )

module _ (floor budget : Budget) where
  -- On the floor's day the raised budget is the elementwise maximum of the two: of the day's count
  -- and notice, and of the count and notice of each identity. On another day it is the stored one.
  pub raise_floor-maximum :
      (k : Text)
      → HasDistinctKeys floor.containers
      → (floor.day ≡ budget.day
          → ((raise_floor (some floor) budget).count ≡ max budget.count floor.count)
            × ((raise_floor (some floor) budget).notified ≡ (budget.notified || floor.notified))
            × ((counter_at (raise_floor (some floor) budget) k).count
                ≡ max (counter_at floor k).count (counter_at budget k).count)
            × ((counter_at (raise_floor (some floor) budget) k).notified
                ≡ ((counter_at floor k).notified || (counter_at budget k).notified)))
        × (floor.day ≢ budget.day → raise_floor (some floor) budget ≡ budget)
  unfolding raise_floor raise_counter
  raise_floor-maximum k h = (
    λ same. ground (
      arith,
      text_eq_iff floor.day budget.day,
      raise_containers-lookup k floor.containers budget.containers h,
    ),
    λ other. ground (arith, text_eq_iff floor.day budget.day),
  )
