-- ===== src/Relay/Health/Converge.antt =====
-- The recorded health does not depend on the order of delivery: `health_transition` of
-- services/dozzle/alert_relay.py keeps the newest event, and a recovery where two are as new.
use Prim.Native.Nat.{max}
use mathlib.Core.Logic.{∥∥₁_elim}
use native.Mathlib.Nat.{ℕ_set}
use mathlib.Core.List.{Perm, Permᴰ}
use nas_platform.Common.{
  ℕ, suc, ◌+◌, ◌*◌, ◌≡◌, ◌≢◌, refl, Option, none, some, List, [], ◌∷◌, arith, ap, ◌∙◌,
}
use nas_platform.Common.Text.{Text, text_eq_iff}
use nas_platform.Common.Dict.{Dict, lookup, lookup-insert, lookup-insert_self, text_keys}
use nas_platform.Relay.Event.{Event}
use nas_platform.Relay.Health.{
  State, sick, well, Entry, Transition, order_of, incoming_entry, health_transition,
}

abbrev state_rank : State → ℕ
state_rank sick = 0
state_rank well = 1

-- Newer is higher; of two as new, the healthy one is higher; no entry is lowest.
abbrev pub rank : Option Entry → ℕ
rank none = 0
rank (some e) = suc (order_of e.timestamp * 2 + state_rank e.state)

-- The entries after an event of one identity; a dropped event leaves them.
abbrev pub left_by : Dict Text Entry → Transition → Dict Text Entry
left_by entries none = entries
left_by entries (some (publish, proposed)) = proposed

abbrev pub observe : Text → Dict Text Entry → Event → Dict Text Entry
observe k entries event = left_by entries (health_transition event k entries entries)

-- After an event its identity has the higher of what was recorded and the event itself, and no
-- other identity has changed.
rank-observe :
    (k : Text) (entries : Dict Text Entry) (event : Event)
    → (rank (lookup k (observe k entries event))
        ≡ max (rank (lookup k entries)) (rank (some (incoming_entry event k))))
      × ((j : Text) → k ≢ j → lookup j (observe k entries event) ≡ lookup j entries)
unfolding health_transition
rank-observe k entries event = (
  ground (arith, lookup-insert_self k (incoming_entry event k) entries),
  λ j ne. ground (arith, lookup-insert k j (incoming_entry event k) entries, text_eq_iff k j),
)

abbrev pub observe_all : Text → Dict Text Entry → List Event → Dict Text Entry
observe_all k entries [] = entries
observe_all k entries (e ∷ es) = observe_all k (observe k entries e) es

abbrev event_rank : Text → Event → ℕ
event_rank k e = rank (some (incoming_entry e k))

top_rank : Text → List Event → ℕ
top_rank k [] = 0
top_rank k (e ∷ es) = max (event_rank k e) (top_rank k es)

rank-observe_all :
    (k : Text) (entries : Dict Text Entry) (es : List Event)
    → rank (lookup k (observe_all k entries es)) ≡ max (rank (lookup k entries)) (top_rank k es)
unfolding top_rank
rank-observe_all k entries [] = omega arith
rank-observe_all k entries (e ∷ es) =
    omega (arith, rank-observe_all k (observe k entries e) es, (rank-observe k entries e).0)

top_rank-perm : (k : Text) {es es' : List Event} → Permᴰ es es' → top_rank k es ≡ top_rank k es'
unfolding top_rank
top_rank-perm k Permᴰ.nil = refl
top_rank-perm k (Permᴰ.cons e p) = omega (arith, ap (event_rank k) e, top_rank-perm k p)
top_rank-perm k (Permᴰ.swap e e') = omega (arith, ap (event_rank k) e, ap (event_rank k) e')
top_rank-perm k (Permᴰ.trans p q) = top_rank-perm k p ∙ top_rank-perm k q

-- What later events read of an entry: its order and its state.
abbrev pub reading : Option Entry → Option (ℕ × State)
reading none = none
reading (some e) = some (order_of e.timestamp, e.state)

reading-rank : (a b : Option Entry) → rank a ≡ rank b → reading a ≡ reading b
reading-rank a b h = ground arith

-- Whatever the order in which the events of one identity are delivered, the recorded health ends
-- up the same.
pub observe_all-perm :
    (k : Text) (entries : Dict Text Entry) (es es' : List Event)
    → Perm es es'
    → reading (lookup k (observe_all k entries es)) ≡ reading (lookup k (observe_all k entries es'))
observe_all-perm k entries es es' p =
    reading-rank (lookup k (observe_all k entries es)) (lookup k (observe_all k entries es')) (
      ∥∥₁_elim p (ℕ_set _ _) (λ q.
        omega (
          arith,
          rank-observe_all k entries es,
          rank-observe_all k entries es',
          top_rank-perm k q,
        )))
