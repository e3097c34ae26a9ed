-- ===== src/Cpu/Within.antt =====
-- filter_plugins/container_cpu.py: the CPU set lies within the host's CPUs.
use nas_platform.Common.{
  ℕ, ◌≤◌, ◌<◌, ◌≡◌, ◌⊎◌, sym, inl, inr, Bool, true, false, not, ◌&&◌, some, leb, ◌==◌, arith,
  Bool-cases, leb→le,
}
use mathlib.Core.Option.{some-injective}
use nas_platform.Common.Text.{Text}
use nas_platform.Common.Dict.{text_keys}
use nas_platform.Common.Value.{Value, as_natural, as_bool, >>=-eq-some, require-eq-some}
use nas_platform.Cpu.{cpuset_text, effective_budget, platform_container_cpuset}

abbrev IsSource : ℕ → ℕ → Bool → ℕ → Type 0
IsSource available requested headroom budget =
    ((requested ≡ 0) × (headroom ≡ false) × (budget ≡ available))
    ⊎ ((requested ≡ budget) × (1 ≤ budget))

effective_budget-some :
    (available requested budget : ℕ) (headroom : Bool)
    → effective_budget available requested headroom ≡ some budget
    → IsSource available requested headroom budget
unfolding effective_budget
effective_budget-some available requested budget headroom e = elim (Bool-cases (requested == 0)) [
  | inl unset ↦ elim (Bool-cases headroom) [
    | inl kept ↦ absurd (ground arith)
    | inr free ↦ inl (ground arith, free, ground arith)
  ]
  | inr set ↦ inr (ground arith, ground arith)
]

least :
    (available requested budget : ℕ) (headroom : Bool)
    → leb 1 available ≡ true
    → IsSource available requested headroom budget
    → 1 ≤ budget
least available requested budget headroom h (inl (z, f, e)) = ground arith
least available requested budget headroom h (inr (e, k)) = k

origin :
    (available requested budget : ℕ) (headroom : Bool)
    → IsSource available requested headroom budget
    → (requested ≡ budget) ⊎ ((requested ≡ 0) × (headroom ≡ false) × (budget ≡ available))
origin available requested budget headroom (inl h) = inr h
origin available requested budget headroom (inr (e, k)) = inl e

headroom_left :
    (available budget : ℕ) (headroom : Bool)
    → not (headroom && leb available budget) ≡ true
    → headroom ≡ true
    → budget < available
headroom_left available budget headroom h e = ground arith

-- The CPU set that is given is that of the requested budget, or without one, where no headroom is
-- asked for, of all CPUs; it has at least one CPU, only ones that there are, and with headroom not
-- all of them.
cpuset-IsWithin :
    (available_cpus requested_budget require_headroom : Value) (cpus : Text)
    → platform_container_cpuset available_cpus requested_budget require_headroom ≡ some cpus
    → (available : ℕ) × (requested : ℕ) × (headroom : Bool) × (budget : ℕ) × (as_natural
          available_cpus
        ≡ some available)
      × (as_natural requested_budget ≡ some requested)
      × (as_bool require_headroom ≡ some headroom)
      × (cpus ≡ cpuset_text budget)
      × (1 ≤ budget)
      × (budget ≤ available)
      × (headroom ≡ true → budget < available)
      × ((requested ≡ budget) ⊎ ((requested ≡ 0) × (headroom ≡ false) × (budget ≡ available)))
unfolding platform_container_cpuset
cpuset-IsWithin available_cpus requested_budget require_headroom cpus e =
    let (available, at_available, e1) = >>=-eq-some (as_natural available_cpus) _ cpus e in
    let (requested, at_requested, e2) = >>=-eq-some (as_natural requested_budget) _ cpus e1 in
    let (headroom, at_headroom, e3) = >>=-eq-some (as_bool require_headroom) _ cpus e2 in
    let (counted, e4) = require-eq-some (leb 1 available) _ cpus e3 in
    let (budget, effective, e5) =
      >>=-eq-some (effective_budget available requested headroom) _ cpus e4 in
    let (within, e6) = require-eq-some (leb budget available) _ cpus e5 in
    let (spare, e7) = require-eq-some (not (headroom && leb available budget)) _ cpus e6 in
    let source = effective_budget-some available requested budget headroom effective in
    (
      available,
      requested,
      headroom,
      budget,
      at_available,
      at_requested,
      at_headroom,
      sym (some-injective _ cpus e7),
      least available requested budget headroom counted source,
      leb→le budget available within,
      headroom_left available budget headroom spare,
      origin available requested budget headroom source,
    )
