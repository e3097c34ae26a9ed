-- ===== src/Relay/Delivered/Order.antt =====
-- `DeliveredEvents` of services/dozzle/alert_relay.py keeps its envelopes in order of publication,
-- each once, while the clock does not step back.
use nas_platform.Common.{
  ℕ, zero, suc, ◌-◌, ◌≤◌, ◌≡◌, refl, inl, inr, true, false, [], ◌∷◌, ◌++◌, arith, length, drop,
  Bool-cases, if◌then◌else◌,
}
use nas_platform.Common.Sort.{All}
use nas_platform.Common.Dict.{
  Dict, has, erase, HasDistinctKeys, beq_refl, has-erase, erase-HasDistinctKeys,
}
use nas_platform.Relay.Event.{Event}
use nas_platform.Relay.Delivered.{
  Key, key_eq, key_eq_iff, event_keys, Delivered, key, in_window, forget_old, seen, record_delivery,
}
use nas_platform.Relay.Delivered.Window.{InOrder}

abbrev After : ℕ → Dict Key ℕ → Type 0
After at = All (λ p. at ≤ p.1)

After-erase : (at : ℕ) (k : Key) (d : Dict Key ℕ) → After at d → After at (erase k d)
unfolding erase
After-erase at k [] h = tt
After-erase at k ((j, t) ∷ d) h = elim (Bool-cases (key_eq j k)) [
  | inl same ↦ rw same (After-erase at k d h.1)
  | inr other ↦ rw other (h.0, After-erase at k d h.1)
]

After-append_last :
    (at now : ℕ) (k : Key) (d : Dict Key ℕ) → at ≤ now → After at d → After at (d ++ (k, now) ∷ [])
After-append_last at now k [] le h = (le, tt)
After-append_last at now k ((j, t) ∷ d) le h = (h.0, After-append_last at now k d le h.1)

InOrder-erase : (now : ℕ) (k : Key) (d : Dict Key ℕ) → InOrder now d → InOrder now (erase k d)
unfolding erase
InOrder-erase now k [] h = tt
InOrder-erase now k ((j, t) ∷ d) h = elim (Bool-cases (key_eq j k)) [
  | inl same ↦ rw same (InOrder-erase now k d h.2)
  | inr other ↦ rw other (h.0, After-erase t k d h.1, InOrder-erase now k d h.2)
]

InOrder-append_last :
    (now : ℕ) (k : Key) (d : Dict Key ℕ) → InOrder now d → InOrder now (d ++ (k, now) ∷ [])
InOrder-append_last now k [] h = (omega arith, tt, tt)
InOrder-append_last now k ((j, t) ∷ d) h =
    (h.0, After-append_last t now k d h.0 h.1, InOrder-append_last now k d h.2)

InOrder-drop : (now n : ℕ) (d : Dict Key ℕ) → InOrder now d → InOrder now (drop n d)
InOrder-drop now zero d h = h
InOrder-drop now (suc n) [] h = h
InOrder-drop now (suc n) (p ∷ d) h = InOrder-drop now n d h.2

InOrder-forget_old :
    (window now : ℕ) (d : Dict Key ℕ) → InOrder now d → InOrder now (forget_old window now d)
unfolding forget_old
InOrder-forget_old window now [] h = h
InOrder-forget_old window now ((j, t) ∷ d) h = elim (Bool-cases (in_window window now t)) [
  | inl fresh ↦ rw fresh h
  | inr old ↦ rw old (InOrder-forget_old window now d h.2)
]

has-append_other :
    (k j : Key) (now : ℕ) (d : Dict Key ℕ)
    → has j (d ++ (k, now) ∷ []) ≡ (if has j d then true else key_eq k j)
unfolding has
has-append_other k j now [] = ground arith
has-append_other k j now ((i, t) ∷ d) = ground (arith, has-append_other k j now d)

HasDistinctKeys-append_last :
    (k : Key) (now : ℕ) (d : Dict Key ℕ)
    → has k d ≡ false
    → HasDistinctKeys d
    → HasDistinctKeys (d ++ (k, now) ∷ [])
unfolding has
HasDistinctKeys-append_last k now [] n h = (refl, tt)
HasDistinctKeys-append_last k now ((j, t) ∷ d) n h = (
  ground (arith, has-append_other k j now d, key_eq_iff k j, key_eq_iff j k),
  HasDistinctKeys-append_last k now d (ground arith) h.1,
)

HasDistinctKeys-drop : (n : ℕ) (d : Dict Key ℕ) → HasDistinctKeys d → HasDistinctKeys (drop n d)
HasDistinctKeys-drop zero d h = h
HasDistinctKeys-drop (suc n) [] h = h
HasDistinctKeys-drop (suc n) (p ∷ d) h = HasDistinctKeys-drop n d h.1

HasDistinctKeys-forget_old :
    (window now : ℕ) (d : Dict Key ℕ)
    → HasDistinctKeys d
    → HasDistinctKeys (forget_old window now d)
unfolding forget_old
HasDistinctKeys-forget_old window now [] h = h
HasDistinctKeys-forget_old window now ((j, t) ∷ d) h = elim (Bool-cases (in_window window now t)) [
  | inl fresh ↦ rw fresh h
  | inr old ↦ rw old (HasDistinctKeys-forget_old window now d h.1)
]

pub record IsOrdered (now : ℕ) (d : Delivered) : Type 0 where
  pub order : InOrder now d.published
  pub distinct : HasDistinctKeys d.published

pub seen-IsOrdered :
    (d : Delivered) (e : Event) (now : ℕ) → IsOrdered now d → IsOrdered now (seen d e now).1
unfolding seen
seen-IsOrdered d e now h = record {
  order = InOrder-forget_old d.window now d.published h.order;
  distinct = HasDistinctKeys-forget_old d.window now d.published h.distinct;
}

pub record_delivery-IsOrdered :
    (d : Delivered) (e : Event) (now : ℕ)
    → IsOrdered now d
    → IsOrdered now (record_delivery d e now)
unfolding record_delivery
record_delivery-IsOrdered d e now h =
    let front = erase (key e) d.published in
    let all = front ++ (key e, now) ∷ [] in
    record {
      order =
          InOrder-drop now (length all - d.capacity) all
            (InOrder-append_last now (key e) front (InOrder-erase now (key e) d.published h.order));
      distinct = HasDistinctKeys-drop (length all - d.capacity) all (
          HasDistinctKeys-append_last (key e) now front (rw has-erase (rw (beq_refl (key e))))
            (erase-HasDistinctKeys (key e) d.published h.distinct));
    }
