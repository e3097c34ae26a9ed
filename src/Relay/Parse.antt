-- ===== src/Relay/Parse.antt =====
-- services/dozzle/alert_relay.py: parsing the state document. The value is what `json.loads` makes of
-- the bytes, `none` where they are not UTF-8, not JSON, or repeat a key; every StateError is `none`.
pub mod Kept
pub mod Sound
use nas_platform.Common.{
  ℕ, ◌+◌, Bool, true, false, ◌&&◌, ◌||◌, not, Option, none, some, List, [], ◌∷◌, ◌++◌, leb, ltb,
  ◌==◌, if◌then◌else◌, length, all, any,
}
use nas_platform.Common.Text.{Text, codes, text_eq, text_lt, is_digit, is_control, encodes_utf8}
use nas_platform.Common.Dict.{Dict, insert, text_keys}
use nas_platform.Common.Words.{split_at}
use nas_platform.Common.Value.{
  Value, natural, text, Items, nil, item, Members, end, member, get, has_keys, as_text, as_natural,
  as_bool, as_array, as_object, ◌>>=◌, ◌>>◌, require,
}
use nas_platform.Relay.Clock.{valid_timestamp, fits_mask}
use nas_platform.Relay.Budget.{Budget, Counter}
use nas_platform.Relay.Health.{State, sick, well, Entry}
use nas_platform.Relay.State.{max_state_entries, max_budget_entries, state_version}
use nas_platform.Relay.Process.{Stored}

abbrev pub is_hex : ℕ → Bool
is_hex c = is_digit c || leb b'a' c && leb c b'f'

-- CONTAINER_ID_PATTERN.fullmatch
unfoldable pub is_container_id : Text → Bool
unfolding all is_digit
is_container_id s = leb 12 (length s) && leb (length s) 64 && all is_hex s

abbrev pub is_identity_of : List Text → Bool
is_identity_of (host ∷ container_id ∷ []) =
    encodes_utf8 host
    && encodes_utf8 container_id
    && leb 1 (length host)
    && leb (length host) 256
    && not (any is_control host)
    && is_container_id container_id
is_identity_of _ = false

-- validate_state_identity of a text: exactly one "\0" leaves two parts
unfoldable pub valid_state_identity : Text → Bool
unfolding split_at encodes_utf8 is_control is_container_id any
valid_state_identity identity = is_identity_of (split_at 0 identity)

-- identities == sorted(set(identities)): each is greater than the one before
unfoldable pub is_canonical : List Text → Bool
unfolding text_lt
is_canonical [] = true
is_canonical (a ∷ []) = true
is_canonical (a ∷ b ∷ more) = text_lt a b && is_canonical (b ∷ more)

-- DAY_PATTERN.fullmatch
unfoldable pub is_day : Text → Bool
unfolding fits_mask
is_day s = fits_mask (codes "9999-99-99") s

abbrev pub counter_keys : List Text
counter_keys = codes "identity" ∷ codes "count" ∷ codes "notified" ∷ []

unfoldable pub parse_counter : Value → Option Counter
unfolding has_keys get valid_state_identity
parse_counter v = do
  members ← as_object v
  require (has_keys counter_keys members)
  identity ← get (codes "identity") members >>= as_text
  require (valid_state_identity identity)
  count ← get (codes "count") members >>= as_natural
  notified ← get (codes "notified") members >>= as_bool
  some (record { identity = identity; count = count; notified = notified })

abbrev pub parse_state : Text → Option State
parse_state s =
    if text_eq s (codes "healthy")
    then some well
    else if text_eq s (codes "unhealthy")
    then some sick
    else none

abbrev pub entry_keys : List Text
entry_keys = codes "identity" ∷ codes "state" ∷ codes "timestamp" ∷ []

unfoldable pub parse_entry : Value → Option Entry
unfolding has_keys get valid_state_identity text_eq valid_timestamp
parse_entry v = do
  members ← as_object v
  require (has_keys entry_keys members)
  identity ← get (codes "identity") members >>= as_text
  require (valid_state_identity identity)
  state ← get (codes "state") members >>= as_text >>= parse_state
  timestamp ← get (codes "timestamp") members >>= as_text
  require (valid_timestamp timestamp)
  some (record { identity = identity; state = state; timestamp = timestamp })

-- The loop over an array of entries of one kind: the identities in their order, and the dict.
module _ {A : Type 0} (parse : Value → Option A) (identity_of : A → Text) where
  unfoldable pub parse_all : Items → Dict Text A → Option (List Text × Dict Text A)
  unfolding insert
  parse_all nil d = some ([], d)
  parse_all (item v rest) d = elim (parse v) [
    | none ↦ none
    | some a ↦ elim (parse_all rest (insert (identity_of a) a d)) [
      | none ↦ none
      | some (identities, d') ↦ some (identity_of a ∷ identities, d')
    ]
  ]

  -- With the checks that follow the loop.
  unfoldable pub parse_dict : ℕ → Items → Option (Dict Text A)
  unfolding parse_all is_canonical
  parse_dict maximum items = do
    (identities, d) ← parse_all items []
    require (is_canonical identities)
    require (leb (length d) maximum)
    some d

abbrev pub counter_identity : Counter → Text
counter_identity c = c.identity

abbrev pub entry_identity : Entry → Text
entry_identity e = e.identity

abbrev pub budget_keys : List Text
budget_keys = codes "day" ∷ codes "count" ∷ codes "notified" ∷ codes "containers" ∷ []

unfoldable pub parse_budget_document : Value → Option Budget
unfolding has_keys get is_day parse_counter parse_dict
parse_budget_document v = do
  members ← as_object v
  require (has_keys budget_keys members)
  day ← get (codes "day") members >>= as_text
  require (is_day day)
  count ← get (codes "count") members >>= as_natural
  notified ← get (codes "notified") members >>= as_bool
  items ← get (codes "containers") members >>= as_array
  containers ← parse_dict parse_counter counter_identity max_budget_entries items
  some (record { day = day; count = count; notified = notified; containers = containers })

unfoldable pub parse_entries : Members → Option (Dict Text Entry)
unfolding get parse_entry parse_dict
parse_entries members = do
  items ← get (codes "entries") members >>= as_array
  parse_dict parse_entry entry_identity max_state_entries items

abbrev pub minimum_timestamp : Text
minimum_timestamp = codes "0001-01-01T00:00:00Z"

-- An identity of the first version of the document, which held unhealthy ones only.
unfoldable pub parse_unhealthy : Value → Option Entry
unfolding valid_state_identity
parse_unhealthy v = do
  identity ← as_text v
  require (valid_state_identity identity)
  some (record { identity = identity; state = sick; timestamp = minimum_timestamp })

abbrev pub first_keys : List Text
first_keys = codes "version" ∷ codes "unhealthy" ∷ []

-- parse_legacy_state_document of the version 1, which has no bound, and of the version 2
unfoldable pub parse_version_1 : Members → Option (Dict Text Entry)
unfolding has_keys get parse_unhealthy parse_all is_canonical
parse_version_1 members = do
  require (has_keys first_keys members)
  items ← get (codes "unhealthy") members >>= as_array
  (identities, d) ← parse_all parse_unhealthy entry_identity items []
  require (is_canonical identities)
  some d

abbrev pub second_keys : List Text
second_keys = codes "version" ∷ codes "entries" ∷ []

unfoldable pub parse_version_2 : Members → Option (Dict Text Entry)
unfolding has_keys parse_entries
parse_version_2 members = do require (has_keys second_keys members); parse_entries members

abbrev pub third_keys : List Text
third_keys = codes "version" ∷ codes "entries" ∷ codes "budget" ∷ []

unfoldable pub parse_version_3 : Members → Option Stored
unfolding has_keys get parse_budget_document parse_entries
parse_version_3 members = do
  require (has_keys third_keys members)
  budget ← get (codes "budget") members >>= parse_budget_document
  entries ← parse_entries members
  some (record { entries = entries; budget = some budget; migration_required = false })

abbrev pub migrated : Dict Text Entry → Stored
migrated entries = record { entries = entries; budget = none; migration_required = true }

abbrev pub parse_version : ℕ → Members → Option Stored
parse_version version members =
    if version == 1
    then (do entries ← parse_version_1 members; some (migrated entries))
    else if version == 2
    then (do entries ← parse_version_2 members; some (migrated entries))
    else if version == state_version
    then parse_version_3 members
    else none

-- parse_state_document
unfoldable pub parse_state_document : Option Value → Option Stored
unfolding get parse_version_1 parse_version_2 parse_version_3
parse_state_document loaded = do
  v ← loaded
  members ← as_object v
  version ← get (codes "version") members >>= as_natural
  parse_version version members
