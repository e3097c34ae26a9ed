-- ===== src/Relay/Health/Publish.antt =====
-- When `health_transition` of services/dozzle/alert_relay.py publishes.
use nas_platform.Common.{
  ◌≤◌, ◌<◌, ◌≡◌, ◌↔◌, ◌⊎◌, inl, inr, true, none, some, arith, sym, ◌∙◌, Option-cases,
}
use mathlib.Core.Path.{subst}
use mathlib.Core.Option.{some-injective}
use nas_platform.Common.Text.{Text}
use nas_platform.Common.Dict.{Dict, lookup, lookup-insert_self, text_keys}
use nas_platform.Relay.Budget.{unhealthy, recovery}
use nas_platform.Relay.Event.{Event}
use nas_platform.Relay.Health.Converge.{observe}
use nas_platform.Relay.Health.{
  sick, Entry, Transition, order_of, incoming_entry, transition_from, health_transition,
}

abbrev pub Publishes : Transition → Type 0
Publishes none = ⊥
Publishes (some (publish, proposed)) = publish ≡ true

abbrev pub SickUntil : Event → Entry → Type 0
SickUntil event x = (x.state ≡ sick) × (order_of x.timestamp ≤ order_of event.timestamp)

abbrev pub RenewedBy : Event → Entry → Type 0
RenewedBy event x =
    (order_of x.timestamp < order_of event.timestamp)
    ⊎ ((order_of x.timestamp ≡ order_of event.timestamp) × (x.state ≡ sick))

module _ (event : Event) (k : Text) (entries : Dict Text Entry) where
  recovery-transition_from :
      (x : Entry)
      → event.rule ≡ recovery
      → Publishes (transition_from x event k entries) ↔ SickUntil event x
  unfolding transition_from
  recovery-transition_from x r = (λ p. ground arith, λ p. ground arith)

  unhealthy-transition_from :
      (x : Entry)
      → event.rule ≡ unhealthy
      → Publishes (transition_from x event k entries) ↔ RenewedBy event x
  unfolding transition_from
  unhealthy-transition_from x r = (λ p. ground arith, λ p. ground arith)

  at_known :
      (x : Entry)
      → lookup k entries ≡ some x
      → health_transition event k entries entries ≡ transition_from x event k entries
  unfolding health_transition
  at_known x known = ground arith

  -- A recovery is published exactly when its identity is recorded as unhealthy by an event that is
  -- not newer.
  pub recovery-Publishes :
      event.rule ≡ recovery
      → Publishes (health_transition event k entries entries)
        ↔ ((x : Entry) × (lookup k entries ≡ some x) × SickUntil event x)
  recovery-Publishes r = elim (Option-cases (lookup k entries)) [
    | inl new ↦ (λ p. unfold health_transition in ground arith, λ p. absurd (cc (p.1)))
    | inr (x, known) ↦ rw (at_known x known) (
      λ p. (x, known, (recovery-transition_from x r).0 p),
      λ p.
          (recovery-transition_from x r).1
            (subst (SickUntil event) (some-injective p.0 x (sym p.1 ∙ known)) p.2),
    )
  ]

  -- An unhealthy event is published exactly when its identity has no entry, an older one, or an
  -- unhealthy one that is as new.
  pub unhealthy-Publishes :
      event.rule ≡ unhealthy
      → Publishes (health_transition event k entries entries) ↔ (
          (lookup k entries ≡ none)
          ⊎ ((x : Entry) × (lookup k entries ≡ some x) × RenewedBy event x))
  unhealthy-Publishes r = elim (Option-cases (lookup k entries)) [
    | inl new ↦ (λ p. inl new, λ p. unfold health_transition in ground arith)
    | inr (x, known) ↦ rw (at_known x known) (
      λ p. inr (x, known, (unhealthy-transition_from x r).0 p),
      λ p. (unhealthy-transition_from x r).1 (elim p [
        | inl new ↦ absurd (cc)
        | inr q ↦ subst (RenewedBy event) (some-injective q.0 x (sym q.1 ∙ known)) q.2
      ]),
    )
  ]

  -- A published recovery leaves its identity recorded as healthy.
  recovery-leaves :
      event.rule ≡ recovery
      → Publishes (health_transition event k entries entries)
      → lookup k (observe k entries event) ≡ some (incoming_entry event k)
  recovery-leaves r p =
      let (x, known, was) = (recovery-Publishes r).0 p in
      rw (at_known x known) (
        unfold transition_from in
        ground (arith, lookup-insert_self k (incoming_entry event k) entries))

-- Of two recoveries of one identity in a row, at most one is published.
recovery-once :
    (k : Text) (entries : Dict Text Entry) (e e' : Event)
    → e.rule ≡ recovery
    → e'.rule ≡ recovery
    → Publishes (health_transition e k entries entries)
    → ¬ Publishes (health_transition e' k (observe k entries e) (observe k entries e))
recovery-once k entries e e' r r' p q =
    let (x, known, was) = (recovery-Publishes e' k (observe k entries e) r').0 q in
    ground (arith, recovery-leaves e k entries r p)
