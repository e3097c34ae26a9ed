-- ===== src/Relay/Process/Settle.antt =====
-- What the end of a request of services/dozzle/alert_relay.py does to the floor and to the messages.
use nas_platform.Common.{
  ℕ, ◌+◌, ◌≡◌, refl, inl, inr, Option, none, some, List, [], ◌∷◌, ◌++◌, arith, Bool-cases, ap, ◌∙◌,
}
use nas_platform.Common.Text.{Text}
use nas_platform.Common.Dict.{Dict, text_keys}
use nas_platform.Relay.Budget.{Budget}
use nas_platform.Relay.Event.{Event}
use nas_platform.Relay.Health.{Entry}
use nas_platform.Relay.State.{Bounded, bounded_state}
use nas_platform.Relay.State.Loop.{Outcome-cases, came_to, refused, ran_out}
use nas_platform.Relay.State.Shed.{bounded_state-same_day}
use nas_platform.Relay.Process.{
  Relay, Stored, remember, Weather, Message, alert, ceiling_notice, persist, deliver, settle,
}

abbrev pub is_alert : Message → ℕ
is_alert (alert n token) = 1
is_alert (ceiling_notice s n token) = 0

-- How many of the messages are alerts; the others are ceiling notices.
abbrev pub alerts : List Message → ℕ
alerts [] = 0
alerts (m ∷ ms) = is_alert m + alerts ms

alerts-append : (ms : List Message) (m : Message) → alerts (ms ++ m ∷ []) ≡ alerts ms + is_alert m
alerts-append [] m = omega arith
alerts-append (x ∷ ms) m = omega (arith, alerts-append ms m)

abbrev pub alerts_of : Option Message → ℕ
alerts_of none = 0
alerts_of (some m) = is_alert m

-- What the end of a request does to the floor and to the messages: nothing, or the charged day on
-- the floor and the message sent.
pub data Settled (r : Relay) (charged : Budget) (message : Option Message) (r' : Relay)
    : Type 0 where
  unchanged : r'.floor ≡ r.floor → alerts r'.sent ≡ alerts r.sent → Settled r charged message r'
  charged_day :
      (f : Budget)
      → r'.floor ≡ some f
      → f.day ≡ charged.day
      → f.count ≡ charged.count
      → alerts r'.sent ≡ alerts r.sent + alerts_of message
      → Settled r charged message r'

persist_lem :
    (w : Weather) (s : Stored) (b : Bounded) (r : Relay)
    → ((persist w s b r).1.floor ≡ some b.budget) × ((persist w s b r).1.sent ≡ r.sent)
unfolding persist
persist_lem w s b r = (ground arith, ground arith)

-- After a replaced field that is neither the floor nor the messages.
persist-Settled :
    (w : Weather) (s : Stored) (b : Bounded) (r r₀ : Relay) (charged : Budget)
    (message : Option Message)
    → b.budget.day ≡ charged.day
    → b.budget.count ≡ charged.count
    → alerts r.sent ≡ alerts r₀.sent + alerts_of message
    → Settled r₀ charged message (persist w s b r).1
persist-Settled w s b r r₀ charged message p q e =
    let (floor, sent) = persist_lem w s b r in charged_day b.budget floor p q (ap alerts sent ∙ e)

module _ (w : Weather) (event : Option Event) (s : Stored) (r : Relay) where
  deliver-Settled :
      (b : Bounded) (charged : Budget) (message : Option Message)
      → b.budget.day ≡ charged.day
      → b.budget.count ≡ charged.count
      → Settled r charged message (deliver w event s b message r).1
  unfolding deliver
  deliver-Settled b charged none p q = persist-Settled w s b r r charged none p q (omega arith)
  deliver-Settled b charged (some m) p q = elim (Bool-cases w.upstream_works) [
    | inl took ↦ simp took (
        persist-Settled w s b
          (record r { sent = r.sent ++ m ∷ []; delivered = remember event w.now r.delivered }) r
          charged (some m) p q (alerts-append r.sent m))
    | inr refuses ↦ simp refuses (unchanged refl refl)
  ]

  pub settle-Settled :
      (proposed : Dict Text Entry) (charged : Budget) (message : Option Message)
      → Settled r charged message (settle w event s proposed charged message r).1
  unfolding settle
  settle-Settled proposed charged message =
      elim (Outcome-cases (bounded_state proposed charged w.now)) [
        | came_to b e ↦
            let (day, count, _) = bounded_state-same_day proposed charged w.now b e in
            rw (e, settle) (deliver-Settled b charged message day count)
        | refused e ↦ rw (e, settle) (unchanged refl refl)
        | ran_out e ↦ rw (e, settle) (unchanged refl refl)
      ]
