-- ===== src/Relay/Delivered/Window.antt =====
-- `DeliveredEvents` of services/dozzle/alert_relay.py drops a repeat inside of the window.
use nas_platform.Common.{
  ℕ, ◌+◌, ◌-◌, ◌≤◌, ◌<◌, ◌≡◌, ◌↔◌, inl, inr, true, some, [], ◌∷◌, ◌++◌, arith, length, drop,
  length-append, drop-append, length-drop, Bool-cases,
}
use nas_platform.Common.Sort.{All}
use nas_platform.Common.Dict.{Dict, has, lookup, erase, HasDistinctKeys, beq_refl, has_of_lookup}
use nas_platform.Relay.Event.{Event}
use nas_platform.Relay.Delivered.{
  Key, key_eq, key_eq_iff, event_keys, Delivered, key, in_window, forget_old, seen, record_delivery,
}

has-append_last : (k : Key) (at : ℕ) (xs : Dict Key ℕ) → has k (xs ++ (k, at) ∷ []) ≡ true
unfolding has
has-append_last k at [] = rw (beq_refl k)
has-append_last k at ((j, t) ∷ xs) = ground (arith, has-append_last k at xs)

-- The last entry survives the loop of `seen` while it lies in the window.
has-forget_old-last :
    (window now at : ℕ) (k : Key) (xs : Dict Key ℕ)
    → in_window window now at ≡ true
    → has k (forget_old window now (xs ++ (k, at) ∷ [])) ≡ true
unfolding forget_old has
has-forget_old-last window now at k [] h = rw h (rw (beq_refl k))
has-forget_old-last window now at k ((j, t) ∷ xs) h = elim (Bool-cases (in_window window now t)) [
  | inl fresh ↦ rw fresh (ground (arith, has-append_last k at xs))
  | inr old ↦ rw old (has-forget_old-last window now at k xs h)
]

-- What was just published is recognised for as long as the window lasts, whatever else is
-- remembered and whatever the clock did before.
seen-record :
    (d : Delivered) (e : Event) (at now : ℕ)
    → 0 < d.capacity
    → at ≤ now
    → now < at + d.window
    → (seen (record_delivery d e at) e now).0 ≡ true
unfolding seen record_delivery
seen-record d e at now room late early =
    let front = erase (key e) d.published in
    rw
      (drop-append (length (front ++ (key e, at) ∷ []) - d.capacity) front ((key e, at) ∷ [])
        (omega (arith, length-append front ((key e, at) ∷ []))))
      (has-forget_old-last d.window now at (key e)
        (drop (length (front ++ (key e, at) ∷ []) - d.capacity) front) (ground arith))

-- Never more than the capacity is remembered.
length-record_delivery-le :
    (d : Delivered) (e : Event) (now : ℕ) → length (record_delivery d e now).published ≤ d.capacity
unfolding record_delivery
length-record_delivery-le d e now =
    let all = erase (key e) d.published ++ (key e, now) ∷ [] in
    omega (arith, length-drop (length all - d.capacity) all)

-- Times do not fall along the list, and none is after `now`: what a clock that does not step back
-- leaves.
abbrev pub InOrder : ℕ → Dict Key ℕ → Type 0
InOrder now [] = Unit
InOrder now ((k, at) ∷ rest) = (at ≤ now) × All (λ p. at ≤ p.1) rest × InOrder now rest

-- Once the oldest lies in the window, so do all that follow.
lookup-in_window :
    (window now at : ℕ) (k : Key) (rest : Dict Key ℕ)
    → in_window window now at ≡ true
    → All (λ p. at ≤ p.1) rest
    → InOrder now rest
    → has k rest ≡ true
    → (t : ℕ) × (lookup k rest ≡ some t) × (in_window window now t ≡ true)
unfolding has lookup
lookup-in_window window now at k [] w a o h = absurd (cc)
lookup-in_window window now at k ((j, t) ∷ rest) w a o h = elim (Bool-cases (key_eq j k)) [
  | inl same ↦ (t, rw same, ground arith)
  | inr other ↦ rw other (lookup-in_window window now at k rest w a.1 o.2 (rw other at h))
]

seen-lookup :
    (window now : ℕ) (k : Key) (d : Dict Key ℕ)
    → InOrder now d
    → HasDistinctKeys d
    → has k (forget_old window now d) ≡ true
    → (t : ℕ) × (lookup k d ≡ some t) × (in_window window now t ≡ true)
unfolding forget_old lookup
seen-lookup window now k [] o u h = absurd (unfold has in cc)
seen-lookup window now k ((j, t) ∷ d) o u h = elim (Bool-cases (in_window window now t)) [
  | inl fresh ↦
      lookup-in_window window now t k ((j, t) ∷ d) fresh (omega arith, o.1) o (rw fresh at h)
  | inr old ↦
      let (t', found, inside) = seen-lookup window now k d o.2 u.1 (rw old at h) in
      (t', ground (arith, has_of_lookup k t' d found, key_eq_iff j k), inside)
]

has-forget_old :
    (window now t : ℕ) (k : Key) (d : Dict Key ℕ)
    → lookup k d ≡ some t
    → in_window window now t ≡ true
    → has k (forget_old window now d) ≡ true
unfolding forget_old lookup has
has-forget_old window now t k [] h w = cc
has-forget_old window now t k ((j, at) ∷ d) h w = elim (Bool-cases (in_window window now at)) [
  | inl fresh ↦ rw fresh (has_of_lookup k t ((j, at) ∷ d) h)
  | inr old ↦ rw old (has-forget_old window now t k d (ground arith) w)
]

-- With a clock that does not step back, an envelope is dropped exactly when the process still
-- remembers that it was published and the window has not passed since. More publications than the
-- capacity are not remembered: the oldest are forgotten, and may go out again inside of the window.
pub seen_iff :
    (d : Delivered) (e : Event) (now : ℕ)
    → InOrder now d.published
    → HasDistinctKeys d.published
    → ((seen d e now).0 ≡ true)
      ↔ ((at : ℕ) × (lookup (key e) d.published ≡ some at) × (at ≤ now) × (now < at + d.window))
unfolding seen
seen_iff d e now o u = (
  λ h.
      let (t, found, inside) = seen-lookup d.window now (key e) d.published o u h in
      (t, found, ground arith, ground arith),
  λ p. has-forget_old d.window now p.0 (key e) d.published p.1 (ground arith),
)
