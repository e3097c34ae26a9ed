-- ===== src/Relay/State/Loop.antt =====
-- The loop of `bounded_state` in services/dozzle/alert_relay.py: a rule for its invariants.
use nas_platform.Common.{ℕ, zero, suc, ◌≡◌, refl, arith}
use nas_platform.Common.Text.{Text}
use nas_platform.Common.Dict.{Dict}
use nas_platform.Relay.Budget.{Budget}
use nas_platform.Relay.Health.{Entry}
use nas_platform.Relay.State.{
  Bounded, Shrink, fits, smaller, stuck, shrink, Outcome, bounded, exceeds, out_of_fuel,
  shrink_loop,
}

-- The three outcomes of a round, with the equation.
pub data ShrinkCases (s : Shrink) : Type 0 where
  ended : (r : Bounded) → s ≡ fits r → ShrinkCases s
  went_on : (e : Dict Text Entry) (b : Budget) → s ≡ smaller e b → ShrinkCases s
  gave_up : s ≡ stuck → ShrinkCases s

pub Shrink-cases : (s : Shrink) → ShrinkCases s
Shrink-cases (fits r) = ended r refl
Shrink-cases (smaller e b) = went_on e b refl
Shrink-cases stuck = gave_up refl

-- The outcomes of the loop, with the equation.
pub data OutcomeCases (o : Outcome) : Type 0 where
  came_to : (r : Bounded) → o ≡ bounded r → OutcomeCases o
  refused : o ≡ exceeds → OutcomeCases o
  ran_out : o ≡ out_of_fuel → OutcomeCases o

pub Outcome-cases : (o : Outcome) → OutcomeCases o
Outcome-cases (bounded r) = came_to r refl
Outcome-cases exceeds = refused refl
Outcome-cases out_of_fuel = ran_out refl

module _ (P : Dict Text Entry → Budget → Type 0)
    (keep : (e : Dict Text Entry) (b : Budget) (e' : Dict Text Entry) (b' : Budget)
      → P e b
      → shrink e b ≡ smaller e' b'
      → P e' b') where
  -- The loop returns from values that fit and satisfy the invariant.
  pub shrink_loop-fits :
      (fuel : ℕ) (e : Dict Text Entry) (b : Budget) (r : Bounded)
      → P e b
      → shrink_loop fuel e b ≡ bounded r
      → (e' : Dict Text Entry) × (b' : Budget) × P e' b' × (shrink e' b' ≡ fits r)
  unfolding shrink_loop
  shrink_loop-fits zero e b r inv h = absurd (cc)
  shrink_loop-fits (suc fuel) e b r inv h = elim (Shrink-cases (shrink e b)) [
    | ended r' p ↦ (e, b, inv, ground arith)
    | went_on e' b' p ↦ shrink_loop-fits fuel e' b' r (keep e b e' b' inv p) (ground arith)
    | gave_up p ↦ absurd (ground arith)
  ]

  -- The loop gives up at values that satisfy the invariant and that nothing can be taken from.
  pub shrink_loop-stuck :
      (fuel : ℕ) (e : Dict Text Entry) (b : Budget)
      → P e b
      → shrink_loop fuel e b ≡ exceeds
      → (e' : Dict Text Entry) × (b' : Budget) × P e' b' × (shrink e' b' ≡ stuck)
  unfolding shrink_loop
  shrink_loop-stuck zero e b inv h = absurd (cc)
  shrink_loop-stuck (suc fuel) e b inv h = elim (Shrink-cases (shrink e b)) [
    | ended r' p ↦ absurd (ground arith)
    | went_on e' b' p ↦ shrink_loop-stuck fuel e' b' (keep e b e' b' inv p) (ground arith)
    | gave_up p ↦ (e, b, inv, p)
  ]
