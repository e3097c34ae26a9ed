-- ===== src/Relay/Process/Day.antt =====
-- The daily ceiling of services/dozzle/alert_relay.py over any sequence of requests: what is read
-- from the store may be anything, writes may fail, and the upstream may refuse.
use nas_platform.Common.{
  ℕ, ◌+◌, ◌≤◌, ◌≡◌, ◌⊎◌, refl, inl, inr, Bool, true, false, Option, none, some, List, [], ◌∷◌,
  arith, Bool-cases, Option-cases, ◌∙◌, sym,
}
use mathlib.Core.Path.{subst}
use nas_platform.Common.Text.{Text, text_eq, text_eq_iff}
use nas_platform.Common.Dict.{Dict, text_keys}
use nas_platform.Relay.Clock.{DateTime, utc_day}
use nas_platform.Relay.Settings.{Config}
use nas_platform.Relay.Budget.{
  Budget, Decision, publish, notice, silent, charged_budget, rolled_budget, raise_floor,
  charge_budget,
}
use nas_platform.Relay.Budget.Charge.{published, charge_budget-count}
use nas_platform.Relay.Delivered.{seen}
use nas_platform.Relay.Event.{Event}
use nas_platform.Relay.Health.{Entry}
use nas_platform.Relay.Process.{
  Relay, Stored, instant, identity_of, golem_dozzle_host, Weather, Message, decision_message,
  charge_event, wanted, adopt_former, reconcile, process_event,
}
use nas_platform.Relay.Process.Settle.{
  alerts, alerts_of, Settled, unchanged, charged_day, settle-Settled,
}

day-rolled_budget :
    (now : DateTime) (stored : Option Budget) → (rolled_budget stored now).day ≡ utc_day now
unfolding rolled_budget
day-rolled_budget now none = refl
day-rolled_budget now (some b) = ground (arith, text_eq_iff b.day (utc_day now))

day-raise_floor : (f b : Budget) → (raise_floor (some f) b).day ≡ b.day
unfolding raise_floor
day-raise_floor f b = ground arith

raise_floor-le : (f b : Budget) → f.day ≡ b.day → f.count ≤ (raise_floor (some f) b).count
unfolding raise_floor
raise_floor-le f b same = ground (arith, text_eq_iff f.day b.day)

module _ (config : Config) where
  decided_alerts :
      (event : Event) (golem : Bool) (d : Decision)
      → alerts_of (decision_message config event golem d) ≡ published d
  unfolding decision_message
  decided_alerts event golem (publish b) = refl
  decided_alerts event golem (notice b s c o) = refl
  decided_alerts event golem (silent b) = refl

  -- `m` alerts of the day are accounted for: below the ceiling, and by the floor if there are any.
  pub record Accounted (day : Text) (m : ℕ) (floor : Option Budget) : Type 0 where
    pub capped : m ≤ config.global_ceiling
    pub on_floor : (m ≡ 0) ⊎ ((f : Budget) × (floor ≡ some f) × (f.day ≡ day) × (m ≤ f.count))

  -- The budget of the day that a request charges counts every alert that is accounted for.
  pub Accounted-le-raise_floor :
      (now : DateTime) (m : ℕ) (floor stored : Option Budget)
      → Accounted (utc_day now) m floor
      → (m ≤ (raise_floor floor (rolled_budget stored now)).count)
        × ((raise_floor floor (rolled_budget stored now)).day ≡ utc_day now)
  Accounted-le-raise_floor now m none stored a =
      (ground arith, unfold raise_floor in day-rolled_budget now stored)
  Accounted-le-raise_floor now m (some f) stored a = (
    elim a.on_floor [
      | inl nothing ↦ omega arith
      | inr (f', same, today, counted) ↦
          ground (arith, raise_floor-le f (rolled_budget stored now), day-rolled_budget now stored)
    ],
    day-raise_floor f (rolled_budget stored now) ∙ day-rolled_budget now stored,
  )

  -- After a request `m` alerts of the day have become some `m'`, and so many more are sent.
  abbrev pub Continued : Text → ℕ → Relay → Relay → Type 0
  Continued day m r r' =
      (m' : ℕ) × Accounted day m' r'.floor × (alerts r'.sent + m ≡ alerts r.sent + m')

  pub Settled-Continued :
      (day : Text) (m : ℕ) (r r' : Relay) (charged : Budget) (message : Option Message)
      → Accounted day m r.floor
      → charged.day ≡ day
      → m + alerts_of message ≤ charged.count
      → m + alerts_of message ≤ config.global_ceiling
      → Settled r charged message r'
      → Continued day m r r'
  Settled-Continued day m r r' charged message a today counted room (unchanged p q) =
      (m, rw p a, omega (arith, q))
  Settled-Continued day m r r' charged message a today counted room (charged_day f p q c e) = (
    m + alerts_of message,
    record { capped = room; on_floor = inr (f, p, q ∙ today, omega (arith, c)) },
    omega (arith, e),
  )

  charge_event-Continued :
      (w : Weather) (event : Event) (identity : Text) (s : Stored) (publication : Bool)
      (proposed : Dict Text Entry) (r : Relay) (m : ℕ)
      → Accounted (utc_day w.now) m r.floor
      → Continued
          (utc_day w.now)
          m
          r
          (charge_event config w event identity s (publication, proposed) r).1
  unfolding charge_event
  charge_event-Continued w event identity s true proposed r m a =
      let budget = raise_floor r.floor (rolled_budget s.budget w.now) in
      let decision = charge_budget budget (some identity) (some event.rule) config in
      let message = decision_message config event (text_eq event.host golem_dozzle_host) decision in
      let (below, today) = Accounted-le-raise_floor w.now m r.floor s.budget a in
      let (same, counted, room) =
        charge_budget-count config budget (some identity) (some event.rule) in
      let sent = decided_alerts event (text_eq event.host golem_dozzle_host) decision in
      Settled-Continued (utc_day w.now) m r _ (charged_budget decision) message a (same ∙ today)
        (omega (arith, below, counted, sent)) (ground (arith, a.capped, below, sent, room))
        (settle-Settled w (some event) s r proposed (charged_budget decision) message)
  charge_event-Continued w event identity s false proposed r m a =
      let budget = raise_floor r.floor (rolled_budget s.budget w.now) in
      let (below, today) = Accounted-le-raise_floor w.now m r.floor s.budget a in
      Settled-Continued (utc_day w.now) m r _ budget none a today (omega (arith, below))
        (omega (arith, a.capped)) (settle-Settled w (some event) s r proposed budget none)

  pub stays : (day : Text) (m : ℕ) (r : Relay) → Accounted day m r.floor → Continued day m r r
  stays day m r a = (m, a, refl)

  reconcile-Continued :
      (w : Weather) (event : Event) (stored : Stored) (r : Relay) (m : ℕ)
      → Accounted (utc_day w.now) m r.floor
      → Continued (utc_day w.now) m r (reconcile config w event stored r).1
  unfolding reconcile
  reconcile-Continued w event stored r m a =
      let identity = identity_of event.host event.container_id in
      let s = adopt_former event identity stored in
      elim (Option-cases (wanted event.rule event identity s.entries)) [
        | inl dropped ↦ rw (dropped, reconcile) (stays (utc_day w.now) m r a)
        | inr ((publication, proposed), e) ↦
            rw (e, reconcile) (charge_event-Continued w event identity s publication proposed r m a)
      ]

  pub process_event-Continued :
      (w : Weather) (event : Event) (r : Relay) (m : ℕ)
      → Accounted (utc_day w.now) m r.floor
      → Continued (utc_day w.now) m r (process_event config w event r).1
  unfolding process_event
  process_event-Continued w event r m a =
      let r' = record r { delivered = (seen r.delivered event (instant w.now)).1 } in
      elim (Bool-cases w.lock_works) [
        | inr down ↦ simp down (stays (utc_day w.now) m r a)
        | inl up ↦ simp up (elim (Bool-cases (seen r.delivered event (instant w.now)).0) [
          | inl repeat ↦ simp repeat (stays (utc_day w.now) m r' a)
          | inr fresh ↦ simp fresh (elim (Option-cases r.store) [
            | inl unread ↦ simp unread (stays (utc_day w.now) m r' a)
            | inr (stored, read) ↦
                simp read
                  (reconcile-Continued w event stored (record r' { store = some stored }) m a)
          ])
        ])
      ]

-- A request, and what its `read` finds in the store, whoever wrote it.
record Visit : Type 0 where
  weather : Weather
  event : Event
  found : Option Stored

serve : Config → Relay → List Visit → Relay
serve config r [] = r
serve config r (v ∷ vs) =
    serve config (process_event config v.weather v.event (record r { store = v.found })).1 vs

-- All requests fall on one UTC day.
abbrev OnDay : Text → List Visit → Type 0
OnDay day [] = Unit
OnDay day (v ∷ vs) = (utc_day v.weather.now ≡ day) × OnDay day vs

module _ (config : Config) (day : Text) where
  serve-Continued :
      (r : Relay) (m : ℕ) (vs : List Visit)
      → OnDay day vs
      → Accounted config day m r.floor
      → Continued config day m r (serve config r vs)
  unfolding serve
  serve-Continued r m [] d a = stays config day m r a
  serve-Continued r m (v ∷ vs) d a =
      let found = record r { store = v.found } in
      let (m', a', e) : Continued config day m found
          (process_event config v.weather v.event found).1 =
        subst (λ t. Continued config t m found (process_event config v.weather v.event found).1) d.0
          (process_event-Continued config v.weather v.event found m
            (subst (λ t. Accounted config t m r.floor) (sym d.0) a)) in
      let (m'', a'', e') =
        serve-Continued (process_event config v.weather v.event found).1 m' vs d.1 a' in
      (m'', a'', omega (arith, e, e'))

  -- Over the requests of one day a process sends at most as many alerts as the global ceiling,
  -- whatever it reads from the store, whichever writes fail and whichever messages are refused.
  serve-le-global_ceiling :
      (r : Relay) (vs : List Visit)
      → OnDay day vs
      → alerts (serve config r vs).sent ≤ alerts r.sent + config.global_ceiling
  serve-le-global_ceiling r vs d =
      let (m, a, e) =
        serve-Continued r 0 vs d (record { capped = omega arith; on_floor = inl refl }) in
      omega (arith, e, a.capped)
