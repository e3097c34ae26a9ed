-- ===== src/Relay/Process.antt =====
-- services/dozzle/alert_relay.py: `process_event` on the state of one relay.
-- It runs under the state lock from the first read to the last write, so it is one step.
pub mod Settle
pub mod Day
use nas_platform.Common.{
  ℕ, ◌+◌, ◌*◌, ◌≡◌, Bool, true, false, not, ◌&&◌, ◌||◌, Option, none, some, List, [], ◌∷◌, ◌++◌,
  ◌==◌, if◌then◌else◌, length,
}
use nas_platform.Common.Text.{Text, codes, text_eq}
use nas_platform.Common.Dict.{Dict, lookup, insert, erase, has, text_keys, within, dict_eq}
use nas_platform.Relay.Clock.{DateTime, ordinal, whole_seconds}
use nas_platform.Relay.Settings.{Config}
use nas_platform.Relay.Budget.{
  Budget, Counter, Rule, Scope, oom, unexpected_exit, unhealthy, recovery, Decision, publish,
  notice, silent, charged_budget, rolled_budget, raise_floor, record_floor, charge_budget,
}
use nas_platform.Relay.Event.{Event}
use nas_platform.Relay.Delivered.{Delivered, seen, record_delivery}
use nas_platform.Relay.Health.{State, sick, well, Entry, Transition, health_transition}
use nas_platform.Relay.State.{Bounded, Outcome, bounded, exceeds, out_of_fuel, bounded_state}
use nas_platform.Relay.Render.{Notification, render_notification, render_ceiling_notice}

-- The two spellings of Golem's name.
abbrev pub golem_dozzle_host : Text
golem_dozzle_host = codes "Golem"

abbrev pub golem_former_name : Text
golem_former_name = codes "golem"

-- What `read` gives: the entries, the stored budget and whether the document needs migration.
pub record Stored : Type 0 where
  pub entries : Dict Text Entry
  pub budget : Option Budget
  pub migration_required : Bool

-- A message that Pushover confirmed, with the token of its application.
pub data Message : Type 0 where
  alert : Notification → Text → Message
  ceiling_notice : Scope → Notification → Text → Message

-- The state of one relay: the store that the next `read` gives (`none` where it raises StateError),
-- and what the process keeps: the floor and the deliveries; and the messages that Pushover confirmed.
pub record Relay : Type 0 where
  pub store : Option Stored
  pub floor : Option Budget
  pub delivered : Delivered
  pub sent : List Message

-- `LockedState.replace`: the new document is in place, or an OSError came before or after
-- `os.replace` put it there.
pub data Replacement : Type 0 where
  replaced failed_before failed_after : Replacement

-- What the surroundings decide in one request: the clock, whether the lock is got, whether
-- Pushover confirms the message, and what becomes of the replacement of the store.
pub record Weather : Type 0 where
  pub now : DateTime
  pub lock_works : Bool
  pub upstream_works : Bool
  pub replacement : Replacement

pub data Answer : Type 0 where
  done state_error upstream_error : Answer

-- Microseconds, for the differences of clock readings.
abbrev pub instant : DateTime → ℕ
instant t =
    whole_seconds (ordinal t.year t.month t.day) t.hour t.minute t.second * 1000000 + t.microsecond

unfoldable pub identity_of : Text → Text → Text
identity_of host container_id = host ++ 0 ∷ container_id

abbrev same_state : State → State → Bool
same_state sick sick = true
same_state well well = true
same_state _ _ = false

unfoldable pub same_entry : Entry → Entry → Bool
same_entry a b =
    text_eq a.identity b.identity && same_state a.state b.state && text_eq a.timestamp b.timestamp

abbrev same_bool : Bool → Bool → Bool
same_bool true b = b
same_bool false b = not b

unfoldable pub same_counter : Counter → Counter → Bool
same_counter a b =
    text_eq a.identity b.identity && a.count == b.count && same_bool a.notified b.notified

-- charged == stored_budget
unfoldable pub same_budget : Budget → Option Budget → Bool
unfolding same_counter
same_budget a none = false
same_budget a (some b) =
    text_eq a.day b.day
    && a.count == b.count
    && same_bool a.notified b.notified
    && dict_eq same_counter a.containers b.containers

-- `entries` with the health recorded under Golem's former name moved, and whether it was.
unfoldable pub moved_golem : Bool → Text → Text → Dict Text Entry → Bool × Dict Text Entry
moved_golem golem former identity entries =
    if golem && has former entries && not (has identity entries)
    then (
      true,
      elim (lookup former entries) [
        | none ↦ entries
        | some e ↦ insert identity (record e { identity = identity }) (erase former entries)
      ],
    )
    else (false, entries)

-- What the event asks for: `none` drops it unrecorded.
unfoldable pub wanted : Rule → Event → Text → Dict Text Entry → Transition
wanted unhealthy event identity entries = health_transition event identity entries entries
wanted recovery event identity entries = health_transition event identity entries entries
wanted _ event identity entries = some (true, entries)

-- The application of a golem event, where its token is set.
abbrev alert_token : Config → Bool → Text
alert_token config golem = elim config.pushover_golem_token [
  | none ↦ config.pushover_token
  | some token ↦ if golem then token else config.pushover_token
]

abbrev is_missing : Option Text → Bool
is_missing none = true
is_missing (some token) = false

-- decision_notification, with the token that `process_event` sends it under
unfoldable pub decision_message : Config → Event → Bool → Decision → Option Message
decision_message config event golem (publish b) = some (
    alert
      (render_notification event config.alert_relay_link_base
        (golem && is_missing config.pushover_golem_token))
      (alert_token config golem))
decision_message config event golem (notice b scope ceiling allowance) = some (
    ceiling_notice scope
      (render_ceiling_notice event.host event.container scope ceiling b.day allowance)
      config.pushover_token)
decision_message config event golem (silent b) = none

-- The end of `process_event`: the floor takes the charged budget, then the store is replaced
-- where something changed.
unfoldable pub persist : Weather → Stored → Bounded → Relay → Answer × Relay
unfolding record_floor same_entry same_budget dict_eq
persist w s b r =
    let r' = record r { floor = record_floor r.floor b.budget } in
    let written =
      some (record { entries = b.entries; budget = some b.budget; migration_required = false }) in
    if s.migration_required
      || not (dict_eq same_entry b.entries s.entries)
      || not (same_budget b.budget s.budget)
    then elim w.replacement [
      | replaced ↦ (done, record r' { store = written })
      | failed_before ↦ (state_error, r')
      | failed_after ↦ (state_error, record r' { store = written })
    ]
    else (done, r')

abbrev pub remember : Option Event → DateTime → Delivered → Delivered
remember none now d = d
remember (some event) now d = record_delivery d event (instant now)

-- Publish first: an upstream that refuses spends nothing, and neither does one whose answer is lost,
-- whether or not it took the message. `event` is remembered once it went out.
unfoldable pub deliver :
    Weather → Option Event → Stored → Bounded → Option Message → Relay → Answer × Relay
deliver w event s b none r = persist w s b r
deliver w event s b (some message) r =
    if w.upstream_works
    then persist w s b
        (record r { sent = r.sent ++ message ∷ []; delivered = remember event w.now r.delivered })
    else (upstream_error, r)

unfoldable pub settle :
    Weather
    → Option Event
    → Stored
    → Dict Text Entry
    → Budget
    → Option Message
    → Relay
    → Answer × Relay
settle w event s proposed charged message r = elim (bounded_state proposed charged w.now) [
  | bounded b ↦ deliver w event s b message r
  | exceeds ↦ (state_error, r)
  | out_of_fuel ↦ (state_error, r)
]

-- Charged only where the transition says publish.
unfoldable pub charge_event :
    Config → Weather → Event → Text → Stored → Bool × Dict Text Entry → Relay → Answer × Relay
charge_event config w event identity s (publication, proposed) r =
    let budget = raise_floor r.floor (rolled_budget s.budget w.now) in
    let decision = charge_budget budget (some identity) (some event.rule) config in
    if publication
    then settle w (some event) s proposed (charged_budget decision)
        (decision_message config event (text_eq event.host golem_dozzle_host) decision) r
    else settle w (some event) s proposed budget none r

-- Health recorded under Golem's former name is this container's.
unfoldable pub adopt_former : Event → Text → Stored → Stored
unfolding moved_golem
adopt_former event identity s =
    let (moved, entries) =
      moved_golem (text_eq event.host golem_dozzle_host)
        (identity_of golem_former_name event.container_id) identity s.entries in
    record s { entries = entries; migration_required = s.migration_required || moved }

unfoldable pub reconcile : Config → Weather → Event → Stored → Relay → Answer × Relay
reconcile config w event stored r =
    let identity = identity_of event.host event.container_id in
    let s = adopt_former event identity stored in
    elim (wanted event.rule event identity s.entries) [
      | none ↦ (done, r)
      | some step ↦ charge_event config w event identity s step r
    ]

unfoldable pub process_event : Config → Weather → Event → Relay → Answer × Relay
process_event config w event r =
    let (repeated, left) = seen r.delivered event (instant w.now) in
    let r' = record r { delivered = left } in
    if not w.lock_works then (state_error, r) else if repeated then (done, r') else elim r.store [
      | none ↦ (state_error, r')
      | some stored ↦ reconcile config w event stored r'
    ]
