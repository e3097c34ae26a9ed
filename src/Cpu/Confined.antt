-- ===== src/Cpu/Confined.antt =====
-- filter_plugins/container_cpu.py: what a check without messages says.
use nas_platform.Common.{
  ℕ, ◌≡◌, ◌≢◌, ◌⊎◌, refl, sym, ap, ◌∙◌, inl, inr, Bool, true, false, not, ◌&&◌, some, List, [], ◌∷◌,
  ◌++◌, leb, length, any, all, map, arith, Bool-cases, Option-cases,
}
use mathlib.Core.Path.{subst}
use mathlib.Core.Option.{some-injective}
use nas_platform.Common.Text.{Text, text_eq, text_eq→eq, text_lt}
use nas_platform.Common.Dict.{lookup, has, text_keys}
use nas_platform.Common.Sort.{All, sorted, insert_sorted}
use nas_platform.Common.Selected.{select_none, All-map}
use nas_platform.Common.Value.{Value, >>=-eq-some, require-eq-some}
use nas_platform.Cpu.{
  is_distinct, Observation, observe, is_text, is_number, holds_text, Policy, drift, check_one,
  check_all, missing, platform_container_cpu_runtime_errors,
}

-- Some element has a property.
abbrev pub Any {ℓ} : {A : Type ℓ} → (A → Type 0) → List A → Type 0
Any P [] = ⊥
Any P (x ∷ xs) = P x ⊎ Any P xs

-- An inspected container of a service, with the CPU set and the quota of the policy.
abbrev pub IsConfined : Policy → Text → Value → Type 0
IsConfined p service inspection =
    (o : Observation) × (observe inspection ≡ some o)
    × (o.service ≡ service)
    × (is_text o.cpuset p.cpuset ≡ true)
    × ((spec : Value) × (n : ℕ) × (lookup service p.services ≡ some spec)
        × (p.nanocpus_of spec ≡ some n)
        × (is_number o.nanocpus n ≡ true))

inserted : (lt : Text → Text → Bool) (a : Text) (xs : List Text) → insert_sorted lt a xs ≢ []
unfolding insert_sorted
inserted lt a [] = λ e. cc
inserted lt a (x ∷ xs) = ground arith

sorted_nil : (lt : Text → Text → Bool) (xs : List Text) → sorted lt xs ≡ [] → xs ≡ []
unfolding sorted
sorted_nil lt [] e = refl
sorted_nil lt (x ∷ xs) e = absurd (inserted lt x (sorted lt xs) e)

map_nil : (f : Text → Text) (xs : List Text) → map f xs ≡ [] → xs ≡ []
map_nil f [] e = refl
map_nil f (x ∷ xs) e = cc

append_nil : (xs ys : List Text) → xs ++ ys ≡ [] → xs ≡ []
append_nil [] ys e = refl
append_nil (x ∷ xs) ys e = cc

nil_append : (xs ys : List Text) → xs ++ ys ≡ [] → ys ≡ []
nil_append [] ys e = e
nil_append (x ∷ xs) ys e = cc

module _ (p : Policy) where
  drift-none :
      (service : Text) (o : Observation) (n : ℕ)
      → drift p service o n ≡ []
      → (is_text o.cpuset p.cpuset ≡ true) × (is_number o.nanocpus n ≡ true)
  unfolding drift
  drift-none service o n e = ground arith

  check_one-IsConfined :
      (seen : List Text) (inspection : Value) (service : Text) (messages : List Text)
      → check_one p seen inspection ≡ some (service, messages)
      → messages ≡ []
      → IsConfined p service inspection
  unfolding check_one
  check_one-IsConfined seen inspection service messages e quiet =
      let (o, observed, e1) = >>=-eq-some (observe inspection) _ (service, messages) e in
      let (new, e2) =
        require-eq-some (holds_text p.expected o.service && not (holds_text seen o.service)) _
          (service, messages) e1 in
      let (spec, at_spec, e3) =
        >>=-eq-some (lookup o.service p.services) _ (service, messages) e2 in
      let (n, at_n, e4) = >>=-eq-some (p.nanocpus_of spec) _ (service, messages) e3 in
      let same : (o.service, drift p o.service o n) ≡ (service, messages) = some-injective _ _ e4 in
      let (set, quota) = drift-none o.service o n (ap (λ q. q.1) same ∙ quiet) in
      let name : o.service ≡ service = ap (λ q. q.0) same in
      (
        o,
        observed,
        name,
        set,
        (spec, n, subst (λ s. lookup s p.services ≡ some spec) name at_spec, at_n, quota),
      )

  check_one-expected :
      (seen : List Text) (inspection : Value) (service : Text) (messages : List Text)
      → check_one p seen inspection ≡ some (service, messages)
      → (holds_text p.expected service ≡ true) × (holds_text seen service ≡ false)
  unfolding check_one
  check_one-expected seen inspection service messages e =
      let (o, observed, e1) = >>=-eq-some (observe inspection) _ (service, messages) e in
      let (new, e2) =
        require-eq-some (holds_text p.expected o.service && not (holds_text seen o.service)) _
          (service, messages) e1 in
      let (spec, at_spec, e3) =
        >>=-eq-some (lookup o.service p.services) _ (service, messages) e2 in
      let (n, at_n, e4) = >>=-eq-some (p.nanocpus_of spec) _ (service, messages) e3 in
      let same : (o.service, drift p o.service o n) ≡ (service, messages) = some-injective _ _ e4 in
      subst (λ s. (holds_text p.expected s ≡ true) × (holds_text seen s ≡ false))
        (ap (λ q. q.0) same) (ground arith)

  -- An inspected container is of an expected service, and confined.
  abbrev pub IsExpected : Value → Type 0
  IsExpected inspection =
      (service : Text) × (holds_text p.expected service ≡ true) × IsConfined p service inspection

  covered :
      (seen : List Text) (service : Text) (inspection : Value) (more : List Value)
      → IsConfined p service inspection
      → (name : Text) → (holds_text (service ∷ seen) name ≡ true) ⊎ Any (IsConfined p name) more
      → (holds_text seen name ≡ true) ⊎ Any (IsConfined p name) (inspection ∷ more)
  covered seen service inspection more confined name (inr later) = inr (inr later)
  covered seen service inspection more confined name (inl held) =
      elim (Bool-cases (text_eq name service)) [
        | inl same ↦ inr (
            inl (
              subst (λ s. IsConfined p s inspection) (sym (text_eq→eq name service same)) confined))
        | inr other ↦ inl (unfold any in ground arith)
      ]

  check_all-covers :
      (seen : List Text) (inspections : List Value) (errors seen' : List Text)
      → check_all p seen inspections ≡ some (errors, seen')
      → errors ≡ []
      → All IsExpected inspections
        × ((name : Text)
            → holds_text seen' name ≡ true
            → (holds_text seen name ≡ true) ⊎ Any (IsConfined p name) inspections)
  unfolding check_all
  check_all-covers seen [] errors seen' e quiet = (tt, λ name h. inl (ground arith))
  check_all-covers seen (inspection ∷ more) errors seen' e quiet =
      elim (Option-cases (check_one p seen inspection)) [
        | inl bad ↦ absurd (ground arith)
        | inr ((service, messages), one) ↦ elim (Option-cases (check_all p (service ∷ seen) more)) [
          | inl bad ↦ absurd (ground arith)
          | inr ((rest, last), others) ↦
              let joined : messages ++ rest ≡ [] = ground arith in
              let silent : messages ≡ [] = append_nil messages rest joined in
              let (expected, fresh) = check_one-expected seen inspection service messages one in
              let confined = check_one-IsConfined seen inspection service messages one silent in
              let (all_more, cover) =
                check_all-covers (service ∷ seen) more rest last others
                  (nil_append messages rest joined) in
              let same : last ≡ seen' = ground arith in
              (
                ((service, expected, confined), all_more),
                λ name h.
                    covered seen service inspection more confined name
                      (cover name (subst (λ l. holds_text l name ≡ true) (sym same) h)),
              )
        ]
      ]

  missing_none :
      (seen : List Text)
      → missing p seen ≡ []
      → All (λ name. not (holds_text seen name) ≡ false) p.expected
  unfolding missing
  missing_none seen e = select_none _ p.expected (map_nil _ _ e)

  at_start :
      (inspections : List Value) (name : Text)
      → (holds_text [] name ≡ true) ⊎ Any (IsConfined p name) inspections
      → Any (IsConfined p name) inspections
  unfolding any
  at_start inspections name (inl nowhere) = absurd (ground arith)
  at_start inspections name (inr found) = found

  -- Where the check has no message, each expected service has an inspected container with the CPU set
  -- and the quota of the policy, and every inspected container is one of an expected service, with
  -- these.
  pub runtime_errors-IsConfined :
      (inspections : List Value)
      → platform_container_cpu_runtime_errors p inspections ≡ some []
      → All (λ service. Any (IsConfined p service) inspections) p.expected
        × All IsExpected inspections
  unfolding platform_container_cpu_runtime_errors
  runtime_errors-IsConfined inspections e =
      let (filled, e1) =
        require-eq-some (leb 1 (length p.services) && leb 1 (length inspections)) _ [] e in
      let (selected, e2) =
        require-eq-some (leb 1 (length p.expected) && is_distinct p.expected) _ [] e1 in
      let (known, e3) =
        require-eq-some (all (λ service. has service p.services) p.expected) _ [] e2 in
      let (named, e4) = require-eq-some (leb 1 (length p.cpuset)) _ [] e3 in
      let ((errors, seen), checked, e5) = >>=-eq-some (check_all p [] inspections) _ [] e4 in
      let silent : errors ++ missing p seen ≡ [] =
        sorted_nil text_lt (errors ++ missing p seen) (some-injective _ _ e5) in
      let (confined, cover) =
        check_all-covers [] inspections errors seen checked
          (append_nil errors (missing p seen) silent) in
      (
        All-map (λ name. not (holds_text seen name) ≡ false)
            (λ name. Any (IsConfined p name) inspections)
            (λ name held. at_start inspections name (cover name (ground arith))) p.expected
            (missing_none seen (nil_append errors (missing p seen) silent)),
        confined,
      )
