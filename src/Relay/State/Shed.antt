-- ===== src/Relay/State/Shed.antt =====
-- The loop of `bounded_state` of services/dozzle/alert_relay.py sheds counters first, then healthy
-- entries from the oldest, and never an unhealthy entry.
use nas_platform.Common.{
  ℕ, ◌≡◌, ◌⊎◌, refl, inl, inr, true, false, none, some, [], arith, ◌∙◌, sym, if◌then◌else◌,
  Option-cases, not,
}
use mathlib.Core.Path.{subst₂}
use nas_platform.Common.Text.{Text, text_eq_iff}
use nas_platform.Common.Sort.{sorted-nil}
use nas_platform.Common.Dict.{
  Dict, lookup, erase, text_keys, HasDistinctKeys, lookup-erase, erase-HasDistinctKeys,
  select-HasDistinctKeys, lookup-select,
}
use nas_platform.Relay.Clock.{DateTime}
use nas_platform.Relay.Budget.{Budget, Counter}
use nas_platform.Relay.Health.{Entry, is_sick}
use nas_platform.Relay.State.{
  ranked_lt, ranked_counters, ranked_healthy, least, Bounded, fits, smaller, stuck, within_bounds,
  cutoff_of, state_bytes, shrink, bounded, exceeds, is_stale, without_stale, retained, enough_fuel,
  bounded_state,
}
use nas_platform.Relay.State.Loop.{shrink_loop-fits, shrink_loop-stuck}
use nas_platform.Relay.State.Keep.{
  Entries, least_healthy, sick_entries, sick_entries-erase, sick_entries_all,
  sick_entries-without_stale,
}

-- What has become of the entries `e₀` and the budget `b₀` in the loop.
pub record Shed (e₀ : Entries) (b₀ : Budget) (e : Entries) (b : Budget) : Type 0 where
  pub distinct : HasDistinctKeys e
  pub nothing_new : (k : Text) (x : Entry) → lookup k e ≡ some x → lookup k e₀ ≡ some x
  pub sick_kept :
      (k : Text) (x : Entry) → lookup k e₀ ≡ some x → is_sick x.state ≡ true → lookup k e ≡ some x
  pub same_sick : sick_entries e ≡ sick_entries e₀
  pub counters :
      (k : Text) (c : Counter) → lookup k b.containers ≡ some c → lookup k b₀.containers ≡ some c
  pub same_day : (b.day ≡ b₀.day) × (b.count ≡ b₀.count) × (b.notified ≡ b₀.notified)
  pub counters_first : (e ≡ e₀) ⊎ (b.containers ≡ [])

Shed-refl : (e : Entries) (b : Budget) → HasDistinctKeys e → Shed e b e b
Shed-refl e b u = record {
  distinct = u;
  nothing_new = λ k x h. h;
  sick_kept = λ k x h s. h;
  same_sick = refl;
  counters = λ k c h. h;
  same_day = (refl, refl, refl);
  counters_first = inl refl;
}

no_counters : (d : Dict Text Counter) → ranked_counters d ≡ [] → d ≡ []
unfolding ranked_counters
no_counters d h = ground arith

-- What a round that goes on has done.
data Smaller (e : Entries) (b : Budget) (e' : Entries) (b' : Budget) : Type 0 where
  counter_gone :
      (k : Text) → e' ≡ e → b' ≡ record b { containers = erase k b.containers } → Smaller e b e' b'
  healthy_gone :
      (p : ℕ × Text)
      → least (ranked_healthy e) ≡ some p
      → ranked_counters b.containers ≡ []
      → e' ≡ erase p.1 e
      → b' ≡ b
      → Smaller e b e' b'

shrink-Smaller :
    (e : Entries) (b : Budget) (e' : Entries) (b' : Budget)
    → shrink e b ≡ smaller e' b'
    → Smaller e b e' b'
unfolding shrink
shrink-Smaller e b e' b' h = elim (Option-cases (least (ranked_counters b.containers))) [
  | inr (p, found) ↦ counter_gone p.1 (ground arith) (ground arith)
  | inl none_left ↦ elim (Option-cases (least (ranked_healthy e))) [
    | inl all_sick ↦ absurd (ground arith)
    | inr (p, found) ↦
        healthy_gone p found (sorted-nil ranked_lt (ranked_counters b.containers) none_left)
          (ground arith) (ground arith)
  ]
]

module _ (e₀ : Entries) (b₀ : Budget) where
  counter-Shed :
      (e : Entries) (b : Budget) (k : Text)
      → Shed e₀ b₀ e b
      → Shed e₀ b₀ e (record b { containers = erase k b.containers })
  counter-Shed e b k s = record {
    distinct = s.distinct;
    nothing_new = s.nothing_new;
    sick_kept = s.sick_kept;
    same_sick = s.same_sick;
    counters = λ j c h. s.counters j c (ground (arith, lookup-erase k j b.containers));
    same_day = s.same_day;
    counters_first = elim s.counters_first [
      | inl same ↦ inl same
      | inr gone ↦ inr (rw gone (unfold erase in refl))
    ];
  }

  healthy-Shed :
      (e : Entries) (b : Budget) (p : ℕ × Text)
      → least (ranked_healthy e) ≡ some p
      → ranked_counters b.containers ≡ []
      → Shed e₀ b₀ e b
      → Shed e₀ b₀ (erase p.1 e) b
  healthy-Shed e b p found none_left s =
      let (y, here, fine) = least_healthy e p s.distinct found in
      record {
        distinct = erase-HasDistinctKeys p.1 e s.distinct;
        nothing_new = λ k x h. s.nothing_new k x (ground (arith, lookup-erase p.1 k e));
        sick_kept = λ k x h ill.
            ground (arith, lookup-erase p.1 k e, s.sick_kept k x h ill, text_eq_iff p.1 k);
        same_sick = sick_entries-erase p.1 e y s.distinct here fine ∙ s.same_sick;
        counters = s.counters;
        same_day = s.same_day;
        counters_first = inr (no_counters b.containers none_left);
      }

  shrink-Shed :
      (e : Entries) (b : Budget) (e' : Entries) (b' : Budget)
      → Shed e₀ b₀ e b
      → shrink e b ≡ smaller e' b'
      → Shed e₀ b₀ e' b'
  shrink-Shed e b e' b' s h = elim (shrink-Smaller e b e' b' h) [
    | counter_gone k p q ↦ rw (p, q) (counter-Shed e b k s)
    | healthy_gone o found none_left p q ↦ rw (p, q) (healthy-Shed e b o found none_left s)
  ]

shrink_of_fits :
    (e : Entries) (b : Budget) (r : Bounded)
    → shrink e b ≡ fits r
    → (r.entries ≡ e) × (r.budget ≡ b)
unfolding shrink
shrink_of_fits e b r h = elim (Option-cases (within_bounds e b (state_bytes e b))) [
  | inl over ↦ absurd (ground arith)
  | inr (x, inside) ↦ (ground arith, ground arith)
]

shrink_of_stuck :
    (e : Entries) (b : Budget)
    → shrink e b ≡ stuck
    → (within_bounds e b (state_bytes e b) ≡ none) × (b.containers ≡ []) × (ranked_healthy e ≡ [])
unfolding shrink
shrink_of_stuck e b h = (
  ground arith,
  no_counters b.containers (sorted-nil ranked_lt (ranked_counters b.containers) (ground arith)),
  sorted-nil ranked_lt (ranked_healthy e) (ground arith),
)

over_at :
    (e e' : Entries) (b b' : Budget)
    → e ≡ e'
    → b ≡ b'
    → within_bounds e b (state_bytes e b) ≡ none
    → within_bounds e' b' (state_bytes e' b') ≡ none
over_at e e' b b' p q h = subst₂ (λ x y. within_bounds x y (state_bytes x y) ≡ none) p q h

module _ (entries : Entries) (budget : Budget) (now : DateTime) (u : HasDistinctKeys entries) where
  retained-distinct : HasDistinctKeys (retained entries now)
  unfolding retained
  retained-distinct = select-HasDistinctKeys _ entries u

  -- What is left of the entries and of the budget.
  bounded_state-Shed :
      (r : Bounded)
      → bounded_state entries budget now ≡ bounded r
      → Shed (retained entries now) budget r.entries r.budget
  unfolding bounded_state
  bounded_state-Shed r h =
      let kept = retained entries now in
      let (e, b, s, p) =
        shrink_loop-fits (Shed kept budget) (shrink-Shed kept budget) (enough_fuel kept budget) kept
          budget r (Shed-refl kept budget retained-distinct) h in
      let (same_e, same_b) = shrink_of_fits e b r p in rw (same_e, same_b) s

  lookup-retained :
      (k : Text)
      → lookup k (retained entries now) ≡ (elim (lookup k entries) [
        | none ↦ none
        | some x ↦ if not (is_stale (cutoff_of now) x) then some x else none
      ])
  unfolding retained without_stale
  lookup-retained k = lookup-select (λ x. not (is_stale (cutoff_of now) x)) k entries u

  -- Every unhealthy entry is kept as it is. What else is kept was there, and is not older than the
  -- retention. Healthy entries inside of the retention go only after all counters. Each counter
  -- that is left is as it was. The day, its count and its notice stay.
  pub bounded_state-keeps :
      (r : Bounded)
      → bounded_state entries budget now ≡ bounded r
      → ((k : Text) (x : Entry)
          → lookup k entries ≡ some x
          → is_sick x.state ≡ true
          → lookup k r.entries ≡ some x)
        × ((k : Text) (x : Entry)
            → lookup k r.entries ≡ some x
            → (lookup k entries ≡ some x) × (is_stale (cutoff_of now) x ≡ false))
        × ((r.entries ≡ retained entries now) ⊎ (r.budget.containers ≡ []))
        × ((k : Text) (c : Counter)
            → lookup k r.budget.containers ≡ some c
            → lookup k budget.containers ≡ some c)
        × (r.budget.day ≡ budget.day)
        × (r.budget.count ≡ budget.count)
        × (r.budget.notified ≡ budget.notified)
  bounded_state-keeps r h =
      let s = bounded_state-Shed r h in
      (
        λ k x here ill.
            s.sick_kept k x (rw lookup-retained (rw here (unfold is_stale in ground arith))) ill,
        λ k x here. ground (arith, s.nothing_new k x here, lookup-retained k),
        s.counters_first,
        s.counters,
        s.same_day.0,
        s.same_day.1,
        s.same_day.2,
      )

  -- The only refusal: the unhealthy entries, with no counter at all, do not fit.
  pub bounded_state-exceeds :
      bounded_state entries budget now ≡ exceeds
      → let bare = record budget { containers = [] } in
        within_bounds (sick_entries entries) bare (state_bytes (sick_entries entries) bare) ≡ none
  unfolding bounded_state
  bounded_state-exceeds h =
      let kept = retained entries now in
      let (e, b, s, p) =
        shrink_loop-stuck (Shed kept budget) (shrink-Shed kept budget) (enough_fuel kept budget)
          kept budget (Shed-refl kept budget retained-distinct) h in
      let (over, no_counter, no_healthy) = shrink_of_stuck e b p in
      over_at e (sick_entries entries) b (record budget { containers = [] })
        (sym (sick_entries_all e no_healthy)
          ∙ s.same_sick
          ∙ unfold retained in sick_entries-without_stale (cutoff_of now) entries)
        (ground (arith, s.same_day, no_counter)) over

-- Shedding touches counters and entries only, whatever the entries are.
SameDay : Budget → Entries → Budget → Type 0
SameDay b₀ e b = (b.day ≡ b₀.day) × (b.count ≡ b₀.count) × (b.notified ≡ b₀.notified)

shrink-SameDay :
    (b₀ : Budget) (e : Entries) (b : Budget) (e' : Entries) (b' : Budget)
    → SameDay b₀ e b
    → shrink e b ≡ smaller e' b'
    → SameDay b₀ e' b'
unfolding SameDay
shrink-SameDay b₀ e b e' b' s h = elim (shrink-Smaller e b e' b' h) [
  | counter_gone k p q ↦ rw q s
  | healthy_gone o found none_left p q ↦ rw q s
]

pub bounded_state-same_day :
    (entries : Entries) (budget : Budget) (now : DateTime) (r : Bounded)
    → bounded_state entries budget now ≡ bounded r
    → (r.budget.day ≡ budget.day)
      × (r.budget.count ≡ budget.count)
      × (r.budget.notified ≡ budget.notified)
unfolding bounded_state SameDay
bounded_state-same_day entries budget now r h =
    let kept = retained entries now in
    let (e, b, s, p) =
      shrink_loop-fits (SameDay budget) (shrink-SameDay budget) (enough_fuel kept budget) kept
        budget r (refl, refl, refl) h in
    rw ((shrink_of_fits e b r p).1) s
