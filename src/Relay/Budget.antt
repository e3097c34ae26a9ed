-- ===== src/Relay/Budget.antt =====
-- services/dozzle/alert_relay.py: the daily alert budget. `rolled_budget` starts a day,
-- `BudgetFloor` keeps what the process has authorised outside of the store, `charge_budget`
-- decides what today's allowance lets an alert be.
pub mod Charge
pub mod Floor
use Prim.Native.Nat.{max}
use nas_platform.Common.{
  ℕ, ◌+◌, Bool, true, false, ◌||◌, Option, none, some, [], ◌∷◌, leb, ltb, if◌then◌else◌,
}
use nas_platform.Common.Text.{Text, text_eq}
use nas_platform.Common.Dict.{Dict, lookup, insert, text_keys}
use nas_platform.Relay.Clock.{DateTime, utc_day}
use nas_platform.Relay.Settings.{Config}

-- An entry of `budget["containers"]`.
pub record Counter : Type 0 where
  pub identity : Text
  pub count : ℕ
  pub notified : Bool

pub record Budget : Type 0 where
  pub day : Text
  pub count : ℕ
  pub notified : Bool
  pub containers : Dict Text Counter

abbrev pub empty_budget : Text → Budget
empty_budget day = record { day = day; count = 0; notified = false; containers = [] }

-- A stored budget of another day, earlier or later, counts for nothing.
unfoldable pub rolled_budget : Option Budget → DateTime → Budget
rolled_budget none now = empty_budget (utc_day now)
rolled_budget (some b) now = if text_eq b.day (utc_day now) then b else empty_budget (utc_day now)

-- One entry of the floor against the stored entry of the same identity.
unfoldable pub raise_counter : Text → Counter → Option Counter → Counter
raise_counter identity entry none = record {
  identity = identity;
  count = entry.count;
  notified = entry.notified;
}
raise_counter identity entry (some stored) = record {
  identity = identity;
  count = max entry.count stored.count;
  notified = entry.notified || stored.notified;
}

-- The loop of `raise_floor` over `floor["containers"]`.
unfoldable pub raise_containers : Dict Text Counter → Dict Text Counter → Dict Text Counter
unfolding raise_counter
raise_containers [] containers = containers
raise_containers ((identity, entry) ∷ rest) containers =
    raise_containers rest
      (insert identity (raise_counter identity entry (lookup identity containers)) containers)

-- BudgetFloor.raise_floor, where `floor` is the field `_budget`
unfoldable pub raise_floor : Option Budget → Budget → Budget
unfolding raise_containers
raise_floor none budget = budget
raise_floor (some floor) budget =
    if text_eq floor.day budget.day
    then record {
      day = budget.day;
      count = max budget.count floor.count;
      notified = budget.notified || floor.notified;
      containers = raise_containers floor.containers budget.containers;
    }
    else budget

-- BudgetFloor.record: the charged budget is the new `_budget`
unfoldable pub record_floor : Option Budget → Budget → Option Budget
record_floor floor budget = some budget

pub data Rule : Type 0 where
  oom unexpected_exit unhealthy recovery : Rule

pub data Scope : Type 0 where
  everything container : Scope

-- What `charge_budget` returns; every decision carries the proposed budget.
pub data Decision : Type 0 where
  publish : Budget → Decision
  notice : Budget → Scope → ℕ → Option ℕ → Decision
  silent : Budget → Decision

-- decision[1]
abbrev pub charged_budget : Decision → Budget
charged_budget (publish b) = b
charged_budget (notice b scope ceiling allowance) = b
charged_budget (silent b) = b

abbrev pub ceiling_of : Config → Option Rule → ℕ
ceiling_of config (some oom) = config.oom_container_ceiling
ceiling_of config _ = config.container_ceiling

abbrev pub counter_of : Text → Option Counter → Counter
counter_of identity none = record { identity = identity; count = 0; notified = false }
counter_of identity (some entry) = entry

-- The part of `charge_budget` behind the global backstop, for an alert that has a container.
unfoldable pub charge_container : Budget → Text → Counter → ℕ → Config → Decision
charge_container budget identity entry ceiling config =
    if leb ceiling entry.count
    then (if entry.notified
        then silent budget
        else notice
            (record budget {
              containers = insert identity (record entry { notified = true }) budget.containers;
            })
            container ceiling
            (if ltb entry.count config.oom_container_ceiling
              then some config.oom_container_ceiling
              else none))
    else publish (record budget {
      count = budget.count + 1;
      containers = insert identity (record entry { count = entry.count + 1 }) budget.containers;
    })

-- `identity` and `rule` are `None` for a Beszel alert.
unfoldable pub charge_budget : Budget → Option Text → Option Rule → Config → Decision
unfolding charge_container
charge_budget budget identity rule config =
    if leb config.global_ceiling budget.count
    then (if budget.notified
        then silent budget
        else notice (record budget { notified = true }) everything config.global_ceiling none)
    else elim identity [
      | none ↦ publish (record budget { count = budget.count + 1 })
      | some identity ↦
          charge_container budget identity (counter_of identity (lookup identity budget.containers))
            (ceiling_of config rule) config
    ]
