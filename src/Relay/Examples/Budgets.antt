-- ===== src/Relay/Examples/Budgets.antt =====
-- The budget of services/dozzle/alert_relay.py on concrete inputs.
use Prim.Native.Nat.{max}
use nas_platform.Common.{
  ℕ, ◌+◌, ◌<◌, ◌≡◌, ◌≢◌, refl, true, false, ◌||◌, Option, none, some, [], ◌∷◌,
}
use nas_platform.Common.Text.{Text}
use nas_platform.Common.Dict.{lookup, has, text_keys}
use nas_platform.Relay.Budget.{
  Budget, oom, everything, notice, charged_budget, ceiling_of, charge_budget, raise_floor,
}
use nas_platform.Relay.Budget.Charge.{counter_at, published, IsPublish, charge_budget-counter}
use nas_platform.Relay.Budget.Floor.{raise_floor-maximum}
use nas_platform.Relay.Examples.Data.{settings, today, web, full_counter, busy}

abbrev three_kills : Option ℕ
three_kills = some 3

abbrev noted_busy : Budget
noted_busy = record busy { containers = (web, record full_counter { notified = true }) ∷ [] }

abbrev spent : Budget
spent = record { day = today; count = 4; notified = false; containers = [] }

spent_day_is_noticed :
    charge_budget spent (some web) (some oom) settings
    ≡ notice (record spent { notified = true }) everything 4 none
unfolding charge_budget
spent_day_is_noticed = refl

charge_budget-counter_example :
    let d = charge_budget busy (some web) (some oom) settings in
    ((counter_at (charged_budget d) web).count ≡ (counter_at busy web).count + published d)
    × (IsPublish d → (counter_at busy web).count < ceiling_of settings (some oom))
    × ((j : Text) → web ≢ j → lookup j (charged_budget d).containers ≡ lookup j busy.containers)
charge_budget-counter_example = charge_budget-counter settings busy web (some oom)

raise_floor-maximum_example :
    (busy.day ≡ spent.day
      → ((raise_floor (some busy) spent).count ≡ max spent.count busy.count)
        × ((raise_floor (some busy) spent).notified ≡ (spent.notified || busy.notified))
        × ((counter_at (raise_floor (some busy) spent) web).count
            ≡ max (counter_at busy web).count (counter_at spent web).count)
        × ((counter_at (raise_floor (some busy) spent) web).notified
            ≡ ((counter_at busy web).notified || (counter_at spent web).notified)))
    × (busy.day ≢ spent.day → raise_floor (some busy) spent ≡ spent)
unfolding has
raise_floor-maximum_example = raise_floor-maximum busy spent web (refl, tt)
