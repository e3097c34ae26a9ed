-- ===== src/Relay/Server/Day.antt =====
-- services/dozzle/alert_relay.py: the daily ceiling over any sequence of POSTs to the relay.
use nas_platform.Common.{
  ℕ, ◌+◌, ◌≤◌, ◌≡◌, refl, sym, ap, inl, inr, Option, none, List, [], ◌∷◌, arith, Bool-cases,
  Option-cases, ◌∙◌,
}
use mathlib.Core.Path.{subst}
use nas_platform.Common.Text.{Text}
use nas_platform.Relay.Clock.{DateTime, utc_day}
use nas_platform.Relay.Settings.{Config}
use nas_platform.Relay.Budget.{
  Decision, publish, notice, silent, charged_budget, rolled_budget, raise_floor, charge_budget,
}
use nas_platform.Relay.Budget.Charge.{published, charge_budget-count}
use nas_platform.Relay.Envelope.{Alert}
use nas_platform.Relay.Process.{
  Relay, Stored, Weather, process_event, Answer, done, state_error, upstream_error,
}
use nas_platform.Relay.Process.Settle.{alerts, alerts_of, settle-Settled}
use nas_platform.Relay.Process.Day.{
  Accounted, Accounted-le-raise_floor, Continued, Settled-Continued, stays, process_event-Continued,
}
use nas_platform.Relay.Beszel.Process.{beszel_message, charge_beszel, process_beszel}
use nas_platform.Relay.Server.{Request, answer_status, do_post}
use nas_platform.Relay.Server.Guard.{do_post-IsHandled}

module _ (config : Config) where
  beszel_alerts :
      (a : Alert) (now : DateTime) (d : Decision)
      → alerts_of (beszel_message config a now d) ≡ published d
  unfolding beszel_message
  beszel_alerts a now (publish b) = refl
  beszel_alerts a now (notice b s c o) = refl
  beszel_alerts a now (silent b) = refl

  charge_beszel-Continued :
      (w : Weather) (a : Alert) (s : Stored) (r : Relay) (m : ℕ)
      → Accounted config (utc_day w.now) m r.floor
      → Continued config (utc_day w.now) m r (charge_beszel config w a s r).1
  unfolding charge_beszel
  charge_beszel-Continued w a s r m acc =
      let budget = raise_floor r.floor (rolled_budget s.budget w.now) in
      let decision = charge_budget budget none none config in
      let message = beszel_message config a w.now decision in
      let (below, today) = Accounted-le-raise_floor config w.now m r.floor s.budget acc in
      let (same, counted, room) = charge_budget-count config budget none none in
      let sent = beszel_alerts a w.now decision in
      Settled-Continued config (utc_day w.now) m r _ (charged_budget decision) message acc
        (same ∙ today) (omega (arith, below, counted, sent))
        (ground (arith, acc.capped, below, sent, room))
        (settle-Settled w none s r s.entries (charged_budget decision) message)

  process_beszel-Continued :
      (w : Weather) (a : Alert) (r : Relay) (m : ℕ)
      → Accounted config (utc_day w.now) m r.floor
      → Continued config (utc_day w.now) m r (process_beszel config w a r).1
  unfolding process_beszel
  process_beszel-Continued w a r m acc = elim (Bool-cases w.lock_works) [
    | inr down ↦ simp down (stays config (utc_day w.now) m r acc)
    | inl up ↦ simp up (elim (Option-cases r.store) [
      | inl unread ↦ simp unread (stays config (utc_day w.now) m r acc)
      | inr (stored, read) ↦ rw (read, process_beszel) (charge_beszel-Continued w a stored r m acc)
    ])
  ]

  answered : (p : Answer × Relay) → (answer_status p).1 ≡ p.1
  answered (done, r) = refl
  answered (state_error, r) = refl
  answered (upstream_error, r) = refl

  do_post-Continued :
      (w : Weather) (request : Request) (r : Relay) (m : ℕ)
      → Accounted config (utc_day w.now) m r.floor
      → Continued config (utc_day w.now) m r (do_post config w request r).1
  do_post-Continued w request r m acc = elim (do_post-IsHandled config w request r) [
    | inl refused ↦
        subst (λ q. Continued config (utc_day w.now) m r q) (sym refused.1)
          (stays config (utc_day w.now) m r acc)
    | inr (admitted, (v, read, inl (path, e, valid, out))) ↦
        subst (λ q. Continued config (utc_day w.now) m r q)
          (sym (ap (λ p. p.1) out ∙ answered (process_event config w e r)))
          (process_event-Continued config w e r m acc)
    | inr (admitted, (v, read, inr (path, a, valid, out))) ↦
        subst (λ q. Continued config (utc_day w.now) m r q)
          (sym (ap (λ p. p.1) out ∙ answered (process_beszel config w a r)))
          (process_beszel-Continued w a r m acc)
  ]

-- A POST, and what the `read` of its request finds in the store, whoever wrote it.
pub record Post : Type 0 where
  pub weather : Weather
  pub request : Request
  pub found : Option Stored

pub serve_posts : Config → Relay → List Post → Relay
serve_posts config r [] = r
serve_posts config r (v ∷ vs) =
    serve_posts config (do_post config v.weather v.request (record r { store = v.found })).1 vs

-- All requests fall on one UTC day.
abbrev pub IsOnDay : Text → List Post → Type 0
IsOnDay day [] = Unit
IsOnDay day (v ∷ vs) = (utc_day v.weather.now ≡ day) × IsOnDay day vs

module _ (config : Config) (day : Text) where
  serve_posts-Continued :
      (r : Relay) (m : ℕ) (vs : List Post)
      → IsOnDay day vs
      → Accounted config day m r.floor
      → Continued config day m r (serve_posts config r vs)
  unfolding serve_posts
  serve_posts-Continued r m [] d a = stays config day m r a
  serve_posts-Continued r m (v ∷ vs) d a =
      let found = record r { store = v.found } in
      let (m', a', e) : Continued config day m found (do_post config v.weather v.request found).1 =
        subst (λ t. Continued config t m found (do_post config v.weather v.request found).1) d.0
          (do_post-Continued config v.weather v.request found m
            (subst (λ t. Accounted config t m r.floor) (sym d.0) a)) in
      let (m'', a'', e') =
        serve_posts-Continued (do_post config v.weather v.request found).1 m' vs d.1 a' in
      (m'', a'', omega (arith, e, e'))

  -- Over any POSTs of one day, to either path and whatever they hold, a process sends at most as many
  -- alerts as the global ceiling, whatever it reads from the store, whichever writes fail and
  -- whichever messages are refused.
  pub serve_posts-le-global_ceiling :
      (r : Relay) (vs : List Post)
      → IsOnDay day vs
      → alerts (serve_posts config r vs).sent ≤ alerts r.sent + config.global_ceiling
  serve_posts-le-global_ceiling r vs d =
      let (m, a, e) =
        serve_posts-Continued r 0 vs d (record { capped = omega arith; on_floor = inl refl }) in
      omega (arith, e, a.capped)
