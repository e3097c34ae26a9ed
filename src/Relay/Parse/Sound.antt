-- ===== src/Relay/Parse/Sound.antt =====
-- services/dozzle/alert_relay.py: what a state document that `parse_state_document` takes holds.
use nas_platform.Common.{
  ℕ, true, false, ◌≡◌, refl, ◌⊎◌, inl, inr, Option, none, some, [], ◌==◌, leb, length, arith,
  Bool-cases,
}
use nas_platform.Common.Text.{Text, codes, is_digit, decimal, text_eq, digits_from}
use nas_platform.Common.Dict.{Dict, text_keys}
use nas_platform.Common.Value.{
  Value, Members, get, has_keys, as_text, as_natural, as_bool, as_array, as_object, ◌>>=◌,
  >>=-eq-some, require-eq-some,
}
use nas_platform.Relay.Clock.{valid_timestamp, padded}
use nas_platform.Relay.Budget.{Budget, Counter}
use nas_platform.Relay.Health.{Entry}
use nas_platform.Relay.State.{max_state_entries, max_budget_entries}
use nas_platform.Relay.Process.{Stored}
use nas_platform.Relay.Parse.{
  counter_keys, entry_keys, budget_keys, first_keys, second_keys, third_keys, migrated,
  parse_version, valid_state_identity, is_canonical, is_day, parse_counter, parse_state,
  parse_entry, parse_all, parse_dict, counter_identity, entry_identity, parse_budget_document,
  parse_entries, parse_unhealthy, minimum_timestamp, parse_version_1, parse_version_2,
  parse_version_3, parse_state_document,
}
use nas_platform.Relay.Parse.Kept.{IsKept, parse_all-IsKept, parse_dict-IsKept}

-- A health entry is filed under its own identity, which is valid, as is its timestamp.
abbrev pub IsEntryAt : Text × Entry → Type 0
IsEntryAt p =
    (p.0 ≡ p.1.identity)
    × (valid_state_identity p.0 ≡ true)
    × (valid_timestamp p.1.timestamp ≡ true)

-- A counter is filed under its own identity, which is valid.
abbrev pub IsCounterAt : Text × Counter → Type 0
IsCounterAt p = (p.0 ≡ p.1.identity) × (valid_state_identity p.0 ≡ true)

abbrev pub IsBudget : Budget → Type 0
IsBudget b =
    (is_day b.day ≡ true)
    × IsKept IsCounterAt b.containers
    × (leb (length b.containers) max_budget_entries ≡ true)

parse_entry-IsEntryAt :
    (v : Value) (a : Entry) → parse_entry v ≡ some a → IsEntryAt (entry_identity a, a)
unfolding parse_entry
parse_entry-IsEntryAt v a e =
    let (members, is_object, e1) = >>=-eq-some (as_object v) _ a e in
    let (keyed, e2) = require-eq-some (has_keys entry_keys members) _ a e1 in
    let (identity, at_identity, e3) =
      >>=-eq-some (get (codes "identity") members >>= as_text) _ a e2 in
    let (valid, e4) = require-eq-some (valid_state_identity identity) _ a e3 in
    let (state, at_state, e5) =
      >>=-eq-some (get (codes "state") members >>= as_text >>= parse_state) _ a e4 in
    let (timestamp, at_timestamp, e6) =
      >>=-eq-some (get (codes "timestamp") members >>= as_text) _ a e5 in
    let (in_time, e7) = require-eq-some (valid_timestamp timestamp) _ a e6 in
    (refl, ground arith, ground arith)

parse_counter-IsCounterAt :
    (v : Value) (a : Counter) → parse_counter v ≡ some a → IsCounterAt (counter_identity a, a)
unfolding parse_counter
parse_counter-IsCounterAt v a e =
    let (members, is_object, e1) = >>=-eq-some (as_object v) _ a e in
    let (keyed, e2) = require-eq-some (has_keys counter_keys members) _ a e1 in
    let (identity, at_identity, e3) =
      >>=-eq-some (get (codes "identity") members >>= as_text) _ a e2 in
    let (valid, e4) = require-eq-some (valid_state_identity identity) _ a e3 in
    let (count, at_count, e5) = >>=-eq-some (get (codes "count") members >>= as_natural) _ a e4 in
    let (notified, at_notified, e6) =
      >>=-eq-some (get (codes "notified") members >>= as_bool) _ a e5 in
    (refl, ground arith)

minimum_valid : valid_timestamp minimum_timestamp ≡ true
unfolding valid_timestamp is_digit decimal text_eq padded digits_from
minimum_valid = refl

parse_unhealthy-IsEntryAt :
    (v : Value) (a : Entry) → parse_unhealthy v ≡ some a → IsEntryAt (entry_identity a, a)
unfolding parse_unhealthy
parse_unhealthy-IsEntryAt v a e =
    let (identity, at_identity, e1) = >>=-eq-some (as_text v) _ a e in
    let (valid, e2) = require-eq-some (valid_state_identity identity) _ a e1 in
    (refl, ground arith, ground (arith, minimum_valid))

parse_budget_document-IsBudget :
    (v : Value) (b : Budget) → parse_budget_document v ≡ some b → IsBudget b
unfolding parse_budget_document
parse_budget_document-IsBudget v b e =
    let (members, is_object, e1) = >>=-eq-some (as_object v) _ b e in
    let (keyed, e2) = require-eq-some (has_keys budget_keys members) _ b e1 in
    let (day, at_day, e3) = >>=-eq-some (get (codes "day") members >>= as_text) _ b e2 in
    let (valid, e4) = require-eq-some (is_day day) _ b e3 in
    let (count, at_count, e5) = >>=-eq-some (get (codes "count") members >>= as_natural) _ b e4 in
    let (notified, at_notified, e6) =
      >>=-eq-some (get (codes "notified") members >>= as_bool) _ b e5 in
    let (items, at_items, e7) =
      >>=-eq-some (get (codes "containers") members >>= as_array) _ b e6 in
    let (containers, parsed, e8) =
      >>=-eq-some (parse_dict parse_counter counter_identity max_budget_entries items) _ b e7 in
    let (kept, bounded) =
      parse_dict-IsKept parse_counter counter_identity IsCounterAt parse_counter-IsCounterAt
        max_budget_entries items containers parsed in
    let same : containers ≡ b.containers = ground arith in
    (ground arith, rw (← same) kept, rw (← same) bounded)

parse_entries-IsEntries :
    (members : Members) (d : Dict Text Entry)
    → parse_entries members ≡ some d
    → IsKept IsEntryAt d × (leb (length d) max_state_entries ≡ true)
unfolding parse_entries
parse_entries-IsEntries members d e =
    let (items, at_items, e1) = >>=-eq-some (get (codes "entries") members >>= as_array) _ d e in
    parse_dict-IsKept parse_entry entry_identity IsEntryAt parse_entry-IsEntryAt max_state_entries
      items d e1

parse_version_1-IsEntries :
    (members : Members) (d : Dict Text Entry)
    → parse_version_1 members ≡ some d
    → IsKept IsEntryAt d
unfolding parse_version_1
parse_version_1-IsEntries members d e =
    let (keyed, e1) = require-eq-some (has_keys first_keys members) _ d e in
    let (items, at_items, e2) = >>=-eq-some (get (codes "unhealthy") members >>= as_array) _ d e1 in
    let (out, looped, e3) =
      >>=-eq-some (parse_all parse_unhealthy entry_identity items []) _ d e2 in
    let (canonical, e4) = require-eq-some (is_canonical (out.0)) _ d e3 in
    let same : out.1 ≡ d = ground arith in
    rw (← same) (
      parse_all-IsKept parse_unhealthy entry_identity IsEntryAt parse_unhealthy-IsEntryAt items []
        out (tt, tt) looped)

-- What a store that was read holds.
abbrev pub IsStored : Stored → Type 0
IsStored s =
    IsKept IsEntryAt s.entries
    × (((s.migration_required ≡ true) × (s.budget ≡ none))
        ⊎ ((s.migration_required ≡ false)
            × (leb (length s.entries) max_state_entries ≡ true)
            × ((b : Budget) × (s.budget ≡ some b) × IsBudget b)))

parse_version_3-IsStored :
    (members : Members) (s : Stored) → parse_version_3 members ≡ some s → IsStored s
unfolding parse_version_3
parse_version_3-IsStored members s e =
    let (keyed, e1) = require-eq-some (has_keys third_keys members) _ s e in
    let (b, at_budget, e2) =
      >>=-eq-some (get (codes "budget") members >>= parse_budget_document) _ s e1 in
    let (v, at_v, e3) = >>=-eq-some (get (codes "budget") members) _ b at_budget in
    let (d, at_entries, e4) = >>=-eq-some (parse_entries members) _ s e2 in
    let (kept, bounded) = parse_entries-IsEntries members d at_entries in
    let same : d ≡ s.entries = ground arith in
    (
      rw (← same) kept,
      inr (
        ground arith,
        rw (← same) bounded,
        (b, ground arith, parse_budget_document-IsBudget v b e3),
      ),
    )

parse_version_2-IsEntries :
    (members : Members) (d : Dict Text Entry)
    → parse_version_2 members ≡ some d
    → IsKept IsEntryAt d
unfolding parse_version_2
parse_version_2-IsEntries members d e =
    let (keyed, e1) = require-eq-some (has_keys second_keys members) _ d e in
    (parse_entries-IsEntries members d e1).0

migrated-IsStored :
    (d : Dict Text Entry) (s : Stored)
    → IsKept IsEntryAt d
    → Option.some (migrated d) ≡ some s
    → IsStored s
migrated-IsStored d s kept e =
    let same : d ≡ s.entries = ground arith in (rw (← same) kept, inl (ground arith, ground arith))

parse_version-IsStored :
    (version : ℕ) (members : Members) (s : Stored)
    → parse_version version members ≡ some s
    → IsStored s
parse_version-IsStored version members s e = elim (Bool-cases (version == 1)) [
  | inl first ↦
      let (d, parsed, e1) = >>=-eq-some (parse_version_1 members) _ s (rw first at e) in
      migrated-IsStored d s (parse_version_1-IsEntries members d parsed) e1
  | inr not_first ↦ elim (Bool-cases (version == 2)) [
    | inl second ↦
        let (d, parsed, e1) =
          >>=-eq-some (parse_version_2 members) _ s (rw (not_first, second) at e) in
        migrated-IsStored d s (parse_version_2-IsEntries members d parsed) e1
    | inr not_second ↦ parse_version_3-IsStored members s (ground arith)
  ]
]

-- A state document that is read holds entries under distinct identities, each its entry's own and
-- valid, with a valid timestamp. A document of the current version holds at most 128 of them, and a
-- budget of a day with at most 128 counters, under distinct and valid identities of their own; one
-- of an earlier version is to be migrated and has no budget.
pub parse_state_document-IsStored :
    (loaded : Option Value) (s : Stored) → parse_state_document loaded ≡ some s → IsStored s
unfolding parse_state_document
parse_state_document-IsStored loaded s e =
    let (v, is_value, e1) = >>=-eq-some loaded _ s e in
    let (members, is_object, e2) = >>=-eq-some (as_object v) _ s e1 in
    let (version, at_version, e3) =
      >>=-eq-some (get (codes "version") members >>= as_natural) _ s e2 in
    parse_version-IsStored version members s e3
