-- ===== src/Relay/Delivered.antt =====
-- services/dozzle/alert_relay.py: `DeliveredEvents`, the envelopes that the process has published,
-- in the order of publication. Times are microseconds, the resolution of `datetime`.
pub mod Window
pub mod Order
use nas_platform.Common.{
  ℕ, ◌*◌, ◌-◌, ◌≡◌, ◌↔◌, Bool, true, ◌&&◌, List, [], ◌∷◌, ◌++◌, arith, leb, ltb, if◌then◌else◌,
  length, drop,
}
use nas_platform.Common.Text.{Text, text_eq, text_eq_iff}
use nas_platform.Common.Dict.{Eq, Dict, has, erase}
use nas_platform.Relay.Budget.{Rule, oom, unexpected_exit, unhealthy, recovery}
use nas_platform.Relay.Event.{Event, rule_eq}

pub record Key : Type 0 where
  pub host : Text
  pub container_id : Text
  pub event : Text
  pub timestamp : Text
  pub rule : Rule

unfoldable pub key_eq : Key → Key → Bool
key_eq a b =
    text_eq a.host b.host
    && text_eq a.container_id b.container_id
    && text_eq a.event b.event
    && text_eq a.timestamp b.timestamp
    && rule_eq a.rule b.rule

rule_eq_iff : (a b : Rule) → (rule_eq a b ≡ true) ↔ (a ≡ b)
rule_eq_iff a b = ground arith

pub key_eq_iff : (a b : Key) → (key_eq a b ≡ true) ↔ (a ≡ b)
unfolding key_eq
key_eq_iff a b = ground (
  arith,
  text_eq_iff a.host b.host,
  text_eq_iff a.container_id b.container_id,
  text_eq_iff a.event b.event,
  text_eq_iff a.timestamp b.timestamp,
  rule_eq_iff a.rule b.rule,
)

instance abbrev pub event_keys : Eq Key
event_keys = record { beq = key_eq; beq_iff = key_eq_iff }

pub record Delivered : Type 0 where
  pub window : ℕ
  pub capacity : ℕ
  pub published : Dict Key ℕ

-- DUPLICATE_WINDOW
abbrev pub duplicate_window : ℕ
duplicate_window = 10 * 60 * 1000000

abbrev pub max_duplicate_entries : ℕ
max_duplicate_entries = 256

abbrev pub no_deliveries : Delivered
no_deliveries = record {
  window = duplicate_window;
  capacity = max_duplicate_entries;
  published = [];
}

-- DeliveredEvents.key
abbrev pub key : Event → Key
key e = record {
  host = e.host;
  container_id = e.container_id;
  event = e.event;
  timestamp = e.timestamp;
  rule = e.rule;
}

-- timedelta(0) <= now - published_at < self._window
abbrev pub in_window : ℕ → ℕ → ℕ → Bool
in_window window now published_at = leb published_at now && ltb (now - published_at) window

-- The loop of `seen`: the oldest entries go until one lies in the window.
unfoldable pub forget_old : ℕ → ℕ → Dict Key ℕ → Dict Key ℕ
forget_old window now [] = []
forget_old window now ((k, at) ∷ rest) =
    let older = forget_old window now rest in
    if in_window window now at then (k, at) ∷ rest else older

-- DeliveredEvents.seen: the answer, and what is left.
unfoldable pub seen : Delivered → Event → ℕ → Bool × Delivered
unfolding forget_old
seen d e now =
    let left = forget_old d.window now d.published in
    (has (key e) left, record d { published = left })

-- DeliveredEvents.record; the loop of `popitem(last=False)` drops what is over the capacity.
unfoldable pub record_delivery : Delivered → Event → ℕ → Delivered
record_delivery d e now =
    let all = erase (key e) d.published ++ (key e, now) ∷ [] in
    record d { published = drop (length all - d.capacity) all }
