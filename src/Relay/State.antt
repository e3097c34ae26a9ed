-- ===== src/Relay/State.antt =====
-- services/dozzle/alert_relay.py: the state document, its size, and `bounded_state`.
pub mod Loop
pub mod Bounds
pub mod Keep
pub mod Shed
use nas_platform.Common.{
  ℕ, zero, suc, ◌+◌, ◌-◌, ◌*◌, Bool, true, false, ◌&&◌, ◌||◌, not, Option, none, some, List, [],
  ◌∷◌, ◌++◌, map, ltb, leb, ◌==◌, if◌then◌else◌, length, select,
}
use nas_platform.Common.Text.{Text, codes, text_lt}
use nas_platform.Common.Dict.{Dict, erase, text_keys}
use nas_platform.Common.Sort.{sorted, first}
use nas_platform.Common.Json.{json_text, json_number, json_bool, json_array, json_object}
use nas_platform.Relay.Clock.{DateTime, datetime_nanoseconds}
use nas_platform.Relay.Budget.{Budget, Counter}
use nas_platform.Relay.Health.{State, sick, well, Entry, is_sick, order_of}

abbrev pub max_state_bytes : ℕ
max_state_bytes = 64 * 1024

abbrev pub max_state_entries : ℕ
max_state_entries = 128

abbrev pub max_budget_entries : ℕ
max_budget_entries = 128

abbrev pub state_version : ℕ
state_version = 3

-- HEALTHY_RETENTION, 30 days in nanoseconds
abbrev pub healthy_retention : ℕ
healthy_retention = 30 * 86400 * 1000000000

-- [entries[identity] for identity in sorted(entries)]
unfoldable pub in_order : {V : Type 0} → Dict Text V → List V
unfolding sorted
in_order d = map (λ p. p.1) (sorted (λ p q. text_lt p.0 q.0) d)

abbrev state_text : State → Text
state_text sick = codes "unhealthy"
state_text well = codes "healthy"

unfoldable pub entry_document : Entry → Text
unfolding json_object json_text
entry_document e = json_object (
    (codes "identity", json_text e.identity)
    ∷ (codes "state", json_text (state_text e.state))
    ∷ (codes "timestamp", json_text e.timestamp)
    ∷ [])

unfoldable pub counter_document : Counter → Text
unfolding json_object json_text json_number json_bool
counter_document c = json_object (
    (codes "identity", json_text c.identity)
    ∷ (codes "count", json_number c.count)
    ∷ (codes "notified", json_bool c.notified)
    ∷ [])

unfoldable pub budget_document : Budget → Text
unfolding json_object json_text json_number json_bool json_array counter_document in_order
budget_document b = json_object (
    (codes "day", json_text b.day)
    ∷ (codes "count", json_number b.count)
    ∷ (codes "notified", json_bool b.notified)
    ∷ (codes "containers", json_array (map counter_document (in_order b.containers)))
    ∷ [])

unfoldable pub state_document : Dict Text Entry → Budget → Text
unfolding json_object json_number json_array entry_document budget_document in_order
state_document entries budget =
    json_object (
      (codes "version", json_number state_version)
      ∷ (codes "entries", json_array (map entry_document (in_order entries)))
      ∷ (codes "budget", budget_document budget)
      ∷ [])
    ++ codes "\n"

-- state_bytes: `none` for an oversized document. The text is ASCII, so its bytes are its
-- characters.
unfoldable pub state_bytes : Dict Text Entry → Budget → Option Text
state_bytes entries budget =
    let document = state_document entries budget in
    if ltb max_state_bytes (length document) then none else some document

-- A healthy entry that is older than the retention.
unfoldable pub is_stale : ℕ → Entry → Bool
unfolding order_of
is_stale cutoff e = not (is_sick e.state) && ltb (order_of e.timestamp) cutoff

unfoldable pub without_stale : ℕ → Dict Text Entry → Dict Text Entry
unfolding is_stale select
without_stale cutoff entries = select (λ p. not (is_stale cutoff p.1)) entries

-- Tuples (number, identity) in Python's order.
unfoldable pub ranked_lt : ℕ × Text → ℕ × Text → Bool
ranked_lt p q = if ltb p.0 q.0 then true else p.0 == q.0 && text_lt p.1 q.1

unfoldable pub ranked_counters : Dict Text Counter → List (ℕ × Text)
ranked_counters [] = []
ranked_counters ((k, c) ∷ rest) = (c.count, k) ∷ ranked_counters rest

unfoldable pub ranked_healthy : Dict Text Entry → List (ℕ × Text)
ranked_healthy [] = []
ranked_healthy ((k, e) ∷ rest) =
    let more = ranked_healthy rest in
    if is_sick e.state then more else (order_of e.timestamp, k) ∷ more

-- counters[0][1], healthy[0][1]; `none` where the list is empty
abbrev pub least : List (ℕ × Text) → Option (ℕ × Text)
least ranked = first (sorted ranked_lt ranked)

pub record Bounded : Type 0 where
  pub entries : Dict Text Entry
  pub budget : Budget
  pub document : Text

pub data Shrink : Type 0 where
  -- the values fit, and the loop returns them
  fits : Bounded → Shrink
  -- one counter or one healthy entry goes, and the loop goes on
  smaller : Dict Text Entry → Budget → Shrink
  -- raise StateError("unhealthy state exceeds bounds")
  stuck : Shrink

abbrev pub within_bounds : Dict Text Entry → Budget → Option Text → Option Bounded
within_bounds entries budget none = none
within_bounds entries budget (some document) =
    if leb (length entries) max_state_entries && leb (length budget.containers) max_budget_entries
    then some (record { entries = entries; budget = budget; document = document })
    else none

abbrev shed : Dict Text Entry → Budget → Option (ℕ × Text) → Option (ℕ × Text) → Shrink
shed entries budget (some counter) healthy =
    smaller entries (record budget { containers = erase counter.1 budget.containers })
shed entries budget none (some oldest) = smaller (erase oldest.1 entries) budget
shed entries budget none none = stuck

-- One round of the loop.
unfoldable pub shrink : Dict Text Entry → Budget → Shrink
shrink entries budget = elim (within_bounds entries budget (state_bytes entries budget)) [
  | some result ↦ fits result
  | none ↦
      shed entries budget (least (ranked_counters budget.containers))
        (least (ranked_healthy entries))
]

-- What the loop comes to. Bounds.antt shows that `bounded_state` is never out of fuel.
pub data Outcome : Type 0 where
  bounded : Bounded → Outcome
  exceeds : Outcome
  out_of_fuel : Outcome

unfoldable pub shrink_loop : ℕ → Dict Text Entry → Budget → Outcome
shrink_loop zero entries budget = out_of_fuel
shrink_loop (suc fuel) entries budget = elim (shrink entries budget) [
  | fits result ↦ bounded result
  | smaller entries' budget' ↦ shrink_loop fuel entries' budget'
  | stuck ↦ exceeds
]

-- datetime_nanoseconds(now - HEALTHY_RETENTION)
abbrev pub cutoff_of : DateTime → ℕ
cutoff_of now = datetime_nanoseconds now - healthy_retention

-- The entries that the loop starts from: a healthy entry that is older than the retention is gone.
unfoldable pub retained : Dict Text Entry → DateTime → Dict Text Entry
unfolding without_stale
retained entries now = without_stale (cutoff_of now) entries

abbrev pub enough_fuel : Dict Text Entry → Budget → ℕ
enough_fuel entries budget = suc (length entries + length budget.containers)

unfoldable pub bounded_state : Dict Text Entry → Budget → DateTime → Outcome
bounded_state entries budget now =
    let proposed = retained entries now in shrink_loop (enough_fuel proposed budget) proposed budget
