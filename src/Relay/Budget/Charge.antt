-- ===== src/Relay/Budget/Charge.antt =====
-- What `charge_budget` of services/dozzle/alert_relay.py does to the counts and the notices.
use nas_platform.Common.{
  ℕ, ◌+◌, ◌≤◌, ◌<◌, ◌≡◌, ◌≢◌, Bool, true, false, Option, none, some, List, [], ◌∷◌, arith,
}
use nas_platform.Common.Text.{Text, text_eq_iff}
use nas_platform.Common.Dict.{lookup, lookup-insert, lookup-insert_self, text_keys}
use nas_platform.Relay.Settings.{Config}
use nas_platform.Relay.Budget.{
  Budget, Counter, Rule, Decision, publish, notice, silent, everything, charged_budget, ceiling_of,
  counter_of, charge_budget,
}

-- The counter of an identity, a fresh one where the budget has none.
abbrev pub counter_at : Budget → Text → Counter
counter_at b k = counter_of k (lookup k b.containers)

-- 1 for an alert that goes out, 0 for a notice and for silence.
abbrev pub published : Decision → ℕ
published (publish b) = 1
published (notice b s c o) = 0
published (silent b) = 0

abbrev pub is_notice : Decision → Bool
is_notice (publish b) = false
is_notice (notice b s c o) = true
is_notice (silent b) = false

abbrev pub IsNotice : Decision → Type 0
IsNotice d = is_notice d ≡ true

abbrev pub IsPublish : Decision → Type 0
IsPublish d = published d ≡ 1

-- The two entries that a charge may write.
abbrev noted : Counter → Counter
noted e = record e { notified = true }

abbrev bumped : Counter → Counter
bumped e = record e { count = e.count + 1 }

module _ (config : Config) where
  -- A decision keeps the day, adds to the day's count exactly the alert that goes out, and lets it
  -- out only below the global ceiling.
  pub charge_budget-count :
      (b : Budget) (k : Option Text) (r : Option Rule)
      → ((charged_budget (charge_budget b k r config)).day ≡ b.day)
        × ((charged_budget (charge_budget b k r config)).count
            ≡ b.count + published (charge_budget b k r config))
        × (IsPublish (charge_budget b k r config) → b.count < config.global_ceiling)
  unfolding charge_budget
  charge_budget-count b none r = (ground arith, ground arith, ground arith)
  charge_budget-count b (some k) r = (ground arith, ground arith, ground arith)

  -- With a container, its own counter grows by exactly the alert that goes out, and only from
  -- below the ceiling of the rule; the counters of the other identities stay.
  pub charge_budget-counter :
      (b : Budget) (k : Text) (r : Option Rule)
      → ((counter_at (charged_budget (charge_budget b (some k) r config)) k).count
          ≡ (counter_at b k).count + published (charge_budget b (some k) r config))
        × (IsPublish (charge_budget b (some k) r config)
            → (counter_at b k).count < ceiling_of config r)
        × ((j : Text)
            → k ≢ j
            → lookup j (charged_budget (charge_budget b (some k) r config)).containers
              ≡ lookup j b.containers)
  unfolding charge_budget
  charge_budget-counter b k r = (
    ground (
      arith,
      lookup-insert_self k (noted (counter_at b k)) b.containers,
      lookup-insert_self k (bumped (counter_at b k)) b.containers,
    ),
    ground arith,
    λ j ne. ground (
      arith,
      lookup-insert k j (noted (counter_at b k)) b.containers,
      lookup-insert k j (bumped (counter_at b k)) b.containers,
      text_eq_iff k j,
    ),
  )

  -- Where the day's count has reached the global ceiling and the notice is out, all is silent.
  charge_budget-silent :
      (b : Budget) (k : Option Text) (r : Option Rule)
      → config.global_ceiling ≤ b.count
      → b.notified ≡ true
      → charge_budget b k r config ≡ silent b
  unfolding charge_budget
  charge_budget-silent b k r full noted = ground arith

  -- A global notice leaves a full and notified day.
  charge_budget-after_global :
      (b b' : Budget) (k : Option Text) (r : Option Rule) (c : ℕ) (o : Option ℕ)
      → charge_budget b k r config ≡ notice b' everything c o
      → (config.global_ceiling ≤ b'.count) × (b'.notified ≡ true)
  unfolding charge_budget
  charge_budget-after_global b b' none r c o h = ground arith
  charge_budget-after_global b b' (some k) r c o h = ground arith

  -- A global notice is the last thing sent: whatever comes next is silent.
  charge_budget-global_once :
      (b b' : Budget) (k j : Option Text) (r r' : Option Rule) (c : ℕ) (o : Option ℕ)
      → charge_budget b k r config ≡ notice b' everything c o
      → charge_budget b' j r' config ≡ silent b'
  charge_budget-global_once b b' k j r r' c o h =
      let (full, noted) = charge_budget-after_global b b' k r c o h in
      charge_budget-silent b' j r' full noted

  -- A sequence of charges of one day, each of an identity and a rule, as the floor keeps it.
  abbrev pub charged_all : Budget → List (Option Text × Option Rule) → Budget
  charged_all b [] = b
  charged_all b ((j, r) ∷ more) = charged_all (charged_budget (charge_budget b j r config)) more
