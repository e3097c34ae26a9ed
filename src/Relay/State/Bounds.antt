-- ===== src/Relay/State/Bounds.antt =====
-- `bounded_state` of services/dozzle/alert_relay.py ends, and what it returns is within the bounds.
use nas_platform.Common.{
  ℕ, zero, suc, ◌+◌, ◌≤◌, ◌<◌, ◌≡◌, ◌≢◌, inl, inr, true, some, List, [], ◌∷◌, arith, length,
  Bool-cases, Option-cases,
}
use nas_platform.Common.Text.{Text}
use nas_platform.Common.Sort.{All, All-sorted, All-first, sorted}
use nas_platform.Common.Dict.{Dict, has, text_keys, length-erase-lt, beq_refl}
use nas_platform.Relay.Clock.{DateTime}
use nas_platform.Relay.Budget.{Budget, Counter}
use nas_platform.Relay.Health.{Entry, is_sick}
use nas_platform.Relay.State.Loop.{Shrink-cases, ended, went_on, gave_up, shrink_loop-fits}
use nas_platform.Relay.State.{
  max_state_bytes, max_state_entries, max_budget_entries, state_document, state_bytes, ranked_lt,
  ranked_counters, ranked_healthy, least, Bounded, fits, smaller, within_bounds, shrink, bounded,
  out_of_fuel, shrink_loop, retained, enough_fuel, bounded_state,
}

-- The identities that are ranked are keys of the dict.
IsKey : {V : Type 0} → Dict Text V → ℕ × Text → Type 0
IsKey d p = has p.1 d ≡ true

weaken :
    {V : Type 0} (k : Text) (v : V) (d : Dict Text V) (ranked : List (ℕ × Text))
    → All (IsKey d) ranked
    → All (IsKey ((k, v) ∷ d)) ranked
unfolding IsKey has
weaken k v d [] h = tt
weaken k v d (p ∷ ranked) h = (ground arith, weaken k v d ranked h.1)

ranked_counters-IsKey : (d : Dict Text Counter) → All (IsKey d) (ranked_counters d)
unfolding ranked_counters IsKey has
ranked_counters-IsKey [] = tt
ranked_counters-IsKey ((k, c) ∷ d) =
    (rw (beq_refl k), weaken k c d (ranked_counters d) (ranked_counters-IsKey d))

ranked_healthy-IsKey : (d : Dict Text Entry) → All (IsKey d) (ranked_healthy d)
unfolding ranked_healthy IsKey has
ranked_healthy-IsKey [] = tt
ranked_healthy-IsKey ((k, e) ∷ d) =
    let rest = weaken k e d (ranked_healthy d) (ranked_healthy-IsKey d) in
    elim (Bool-cases (is_sick e.state)) [
      | inl ill ↦ rw ill rest
      | inr fine ↦ rw fine (rw (beq_refl k), rest)
    ]

least-has :
    {V : Type 0} (d : Dict Text V) (ranked : List (ℕ × Text)) (p : ℕ × Text)
    → All (IsKey d) ranked
    → least ranked ≡ some p
    → has p.1 d ≡ true
unfolding IsKey
least-has d ranked p h e =
    All-first (IsKey d) (sorted ranked_lt ranked) p e (All-sorted (IsKey d) ranked_lt ranked h)

abbrev size : Dict Text Entry → Budget → ℕ
size entries budget = length entries + length budget.containers

-- A round that goes on leaves less.
shrink-lt :
    (e e' : Dict Text Entry) (b b' : Budget) → shrink e b ≡ smaller e' b' → size e' b' < size e b
unfolding shrink
shrink-lt e e' b b' h = elim (Option-cases (least (ranked_counters b.containers))) [
  | inl none_left ↦ elim (Option-cases (least (ranked_healthy e))) [
    | inl all_sick ↦ ground arith
    | inr (p, found) ↦
        ground
          (arith, length-erase-lt p.1 e, least-has e (ranked_healthy e) p (ranked_healthy-IsKey e))
  ]
  | inr (p, found) ↦ ground (
    arith,
    length-erase-lt p.1 b.containers,
    least-has b.containers (ranked_counters b.containers) p (ranked_counters-IsKey b.containers),
  )
]

shrink_loop-ends :
    (fuel : ℕ) (e : Dict Text Entry) (b : Budget)
    → size e b < fuel
    → shrink_loop fuel e b ≢ out_of_fuel
unfolding shrink_loop
shrink_loop-ends zero e b h = absurd (omega arith)
shrink_loop-ends (suc fuel) e b h = elim (Shrink-cases (shrink e b)) [
  | ended r p ↦ λ q. ground arith
  | went_on e' b' p ↦
      λ q. shrink_loop-ends fuel e' b' (omega (arith, shrink-lt e e' b b' p)) (ground arith)
  | gave_up p ↦ λ q. ground arith
]

-- A round that ends has values within the bounds, with their document.
shrink-fits :
    (e : Dict Text Entry) (b : Budget) (r : Bounded)
    → shrink e b ≡ fits r
    → (length r.entries ≤ max_state_entries)
      × (length r.budget.containers ≤ max_budget_entries)
      × (length r.document ≤ max_state_bytes)
      × (r.document ≡ state_document r.entries r.budget)
unfolding shrink state_bytes
shrink-fits e b r h = elim (Option-cases (within_bounds e b (state_bytes e b))) [
  | inl over ↦ absurd (ground arith)
  | inr (x, inside) ↦ (ground arith, ground arith, ground arith, ground arith)
]

module _ (entries : Dict Text Entry) (budget : Budget) (now : DateTime) where
  -- The loop of `bounded_state` always comes to an end.
  pub bounded_state-ends : bounded_state entries budget now ≢ out_of_fuel
  unfolding bounded_state
  bounded_state-ends =
      shrink_loop-ends (enough_fuel (retained entries now) budget) (retained entries now) budget
        (omega arith)

  -- What `bounded_state` returns has at most 128 entries and 128 counters, and a document of at
  -- most 64 KiB, which is the document of just these entries and this budget.
  pub bounded_state-bounds :
      (r : Bounded)
      → bounded_state entries budget now ≡ bounded r
      → (length r.entries ≤ max_state_entries)
        × (length r.budget.containers ≤ max_budget_entries)
        × (length r.document ≤ max_state_bytes)
        × (r.document ≡ state_document r.entries r.budget)
  unfolding bounded_state
  bounded_state-bounds r h =
      let (e, b, _, p) =
        shrink_loop-fits (λ e b. Unit {0}) (λ e b e' b' q p. tt)
          (enough_fuel (retained entries now) budget) (retained entries now) budget r tt h in
      shrink-fits e b r p
