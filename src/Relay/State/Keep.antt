-- ===== src/Relay/State/Keep.antt =====
-- What `bounded_state` of services/dozzle/alert_relay.py keeps and what it may drop.
use nas_platform.Common.{
  ℕ, ◌≡◌, refl, inl, inr, false, some, List, [], ◌∷◌, arith, select, Bool-cases,
}
use nas_platform.Common.Text.{Text, text_eq, text_eq_iff}
use nas_platform.Common.Sort.{All, All-sorted, All-first, sorted}
use nas_platform.Common.Dict.{
  Dict, lookup, has, erase, text_keys, beq_refl, HasDistinctKeys, has_of_lookup, erase-not_has,
}
use nas_platform.Relay.Health.{Entry, is_sick}
use nas_platform.Relay.State.{ranked_lt, ranked_healthy, least, is_stale, without_stale}

abbrev pub Entries : Type 0
Entries = Dict Text Entry

-- What is ranked among the healthy is recorded as healthy.
IsHealthyIn : Entries → ℕ × Text → Type 0
IsHealthyIn d p = (x : Entry) × (lookup p.1 d ≡ some x) × (is_sick x.state ≡ false)

weaken :
    (k : Text) (e : Entry) (d : Entries) (ranked : List (ℕ × Text))
    → has k d ≡ false
    → All (IsHealthyIn d) ranked
    → All (IsHealthyIn ((k, e) ∷ d)) ranked
unfolding IsHealthyIn lookup
weaken k e d [] n h = tt
weaken k e d (p ∷ ranked) n h =
    let (x, found, fine) = h.0 in
    (
      (x, ground (arith, has_of_lookup p.1 x d found, text_eq_iff k p.1), fine),
      weaken k e d ranked n h.1,
    )

ranked_healthy-IsHealthyIn :
    (d : Entries) → HasDistinctKeys d → All (IsHealthyIn d) (ranked_healthy d)
unfolding ranked_healthy IsHealthyIn lookup
ranked_healthy-IsHealthyIn [] u = tt
ranked_healthy-IsHealthyIn ((k, e) ∷ d) u =
    let rest = weaken k e d (ranked_healthy d) u.0 (ranked_healthy-IsHealthyIn d u.1) in
    elim (Bool-cases (is_sick e.state)) [
      | inl ill ↦ rw ill rest
      | inr fine ↦ rw fine ((e, rw (beq_refl k), fine), rest)
    ]

pub least_healthy :
    (d : Entries) (p : ℕ × Text)
    → HasDistinctKeys d
    → least (ranked_healthy d) ≡ some p
    → (x : Entry) × (lookup p.1 d ≡ some x) × (is_sick x.state ≡ false)
unfolding IsHealthyIn
least_healthy d p u e =
    All-first (IsHealthyIn d) (sorted ranked_lt (ranked_healthy d)) p e
      (All-sorted (IsHealthyIn d) ranked_lt (ranked_healthy d) (ranked_healthy-IsHealthyIn d u))

-- The unhealthy entries, in their order.
pub sick_entries : Entries → Entries
sick_entries d = select (λ p. is_sick p.1.state) d

pub sick_entries-erase :
    (k : Text) (d : Entries) (x : Entry)
    → HasDistinctKeys d
    → lookup k d ≡ some x
    → is_sick x.state ≡ false
    → sick_entries (erase k d) ≡ sick_entries d
unfolding sick_entries select erase lookup
sick_entries-erase k [] x u h fine = refl
sick_entries-erase k ((j, y) ∷ d) x u h fine = elim (Bool-cases (text_eq j k)) [
  | inl same ↦ ground (arith, text_eq_iff j k, erase-not_has j d u.0)
  | inr other ↦ ground (arith, sick_entries-erase k d x u.1 (ground arith) fine)
]

-- With no healthy entry left, the unhealthy ones are all.
pub sick_entries_all : (d : Entries) → ranked_healthy d ≡ [] → sick_entries d ≡ d
unfolding sick_entries select ranked_healthy
sick_entries_all [] h = refl
sick_entries_all ((k, e) ∷ d) h = ground (arith, sick_entries_all d)

pub sick_entries-without_stale :
    (cutoff : ℕ) (d : Entries) → sick_entries (without_stale cutoff d) ≡ sick_entries d
unfolding sick_entries without_stale select is_stale
sick_entries-without_stale cutoff [] = refl
sick_entries-without_stale cutoff ((k, e) ∷ d) = ground (arith, sick_entries-without_stale cutoff d)
