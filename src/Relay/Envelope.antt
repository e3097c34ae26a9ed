-- ===== src/Relay/Envelope.antt =====
-- services/dozzle/alert_relay.py: the envelopes of Dozzle and of Beszel, validated. The value is what
-- `json.loads` makes of the body, and every SchemaError is `none`.
pub mod Identity
pub mod Valid
use nas_platform.Common.{
  ℕ, Bool, true, false, not, ◌&&◌, ◌||◌, Option, none, some, List, [], ◌∷◌, leb, ltb, ◌==◌,
  if◌then◌else◌, length, all, any, select,
}
use nas_platform.Common.Text.{Text, codes, text_eq, is_digit, decimal, is_control, encodes_utf8}
use nas_platform.Common.Value.{
  Value, Members, get, has_keys, as_text, as_natural, as_object, ◌>>=◌, ◌>>◌, require,
}
use nas_platform.Relay.Clock.{valid_timestamp}
use nas_platform.Relay.Budget.{Rule, oom, unexpected_exit, unhealthy, recovery}
use nas_platform.Relay.Event.{Event}
use nas_platform.Relay.Process.{golem_dozzle_host, golem_former_name}
use nas_platform.Relay.Parse.{is_container_id}

abbrev pub envelope_keys : List Text
envelope_keys =
    codes "version"
    ∷ codes "rule"
    ∷ codes "containerId"
    ∷ codes "container"
    ∷ codes "host"
    ∷ codes "event"
    ∷ codes "healthStatus"
    ∷ codes "exitCode"
    ∷ codes "timestamp"
    ∷ []

-- The test of `require_text`, which `require_utf8` ends.
unfoldable pub is_field : ℕ → Text → Bool
unfolding is_control any encodes_utf8
is_field maximum s =
    leb 1 (length s) && leb (length s) maximum && not (any is_control s) && encodes_utf8 s

unfoldable pub require_text : Members → Text → ℕ → Option Text
unfolding get is_field
require_text members key maximum = do
  s ← get key members >>= as_text
  require (is_field maximum s)
  some s

-- A status field: it may be empty and has no bound.
unfoldable pub require_status : Members → Text → Option Text
unfolding get is_control any encodes_utf8
require_status members key = do
  s ← get key members >>= as_text
  require (not (any is_control s) && encodes_utf8 s)
  some s

-- EXIT_CODE_PATTERN.fullmatch
unfoldable pub is_exit_code : Text → Bool
unfolding is_digit all
is_exit_code [] = false
is_exit_code (c ∷ s) =
    (c == b'0' && length s == 0)
    || (is_digit c && not (c == b'0') && leb (length s) 2 && all is_digit s)

-- int(exit_code) of an unexpected exit
abbrev pub is_unexpected : ℕ → Bool
is_unexpected n = leb n 255 && not (n == 0 || n == 130 || n == 143)

abbrev pub is_related : Text → Text → Text → Text → Text → Text → Bool
is_related event health exit event' health' exit' =
    text_eq event event' && text_eq health health' && text_eq exit exit'

-- The rule of an envelope, with its relationship to the event, the health status and the exit code.
unfoldable pub related_rule : Text → Text → Text → Text → Option Rule
unfolding text_eq is_exit_code decimal
related_rule rule event health exit =
    if text_eq rule (codes "Unexpected exit")
    then (do
      require (text_eq event (codes "die") && text_eq health [] && is_exit_code exit)
      require (is_unexpected (decimal 0 exit))
      some unexpected_exit)
    else if text_eq rule (codes "OOM")
    then (do require (is_related event health exit (codes "oom") [] []); some oom)
    else if text_eq rule (codes "Unhealthy")
    then (do
      require (is_related event health exit (codes "health_status") (codes "unhealthy") [])
      some unhealthy)
    else if text_eq rule (codes "Recovery")
    then (do
      require (is_related event health exit (codes "health_status") (codes "healthy") [])
      some recovery)
    else none

-- GOLEM_DOZZLE_HOST if host in GOLEM_DOZZLE_HOSTS else host
unfoldable pub host_named : Text → Text
unfolding text_eq
host_named host =
    if text_eq host golem_dozzle_host || text_eq host golem_former_name
    then golem_dozzle_host
    else host

unfoldable pub validate_envelope : Value → Option Event
unfolding has_keys get require_text is_container_id valid_timestamp require_status related_rule
    host_named
validate_envelope payload = do
  members ← as_object payload
  require (has_keys envelope_keys members)
  version ← get (codes "version") members >>= as_natural
  require (version == 1)
  rule ← require_text members (codes "rule") 32
  container_id ← require_text members (codes "containerId") 64
  container ← require_text members (codes "container") 256
  host ← require_text members (codes "host") 256
  event ← require_text members (codes "event") 32
  timestamp ← require_text members (codes "timestamp") 40
  require (is_container_id container_id)
  require (valid_timestamp timestamp)
  health_status ← require_status members (codes "healthStatus")
  exit_code ← require_status members (codes "exitCode")
  rule ← related_rule rule event health_status exit_code
  some (record {
    rule = rule;
    container_id = container_id;
    container = container;
    host = host_named host;
    event = event;
    health_status = health_status;
    exit_code = exit_code;
    timestamp = timestamp;
  })

-- An alert of Beszel.
pub record Alert : Type 0 where
  pub title : Text
  pub message : Text

abbrev pub beszel_envelope_keys : List Text
beszel_envelope_keys = codes "title" ∷ codes "message" ∷ []

-- value.replace("\n", "")
abbrev without_newlines : Text → Text
without_newlines s = select (λ c. not (c == b'\n')) s

unfoldable pub validate_beszel_envelope : Value → Option Alert
unfolding has_keys get is_control any encodes_utf8 select
validate_beszel_envelope payload = do
  members ← as_object payload
  require (has_keys beszel_envelope_keys members)
  title ← get (codes "title") members >>= as_text
  message ← get (codes "message") members >>= as_text
  require (leb 1 (length title))
  require (not (any is_control title || any is_control (without_newlines message)))
  require (encodes_utf8 title)
  require (encodes_utf8 message)
  some (record { title = title; message = message })
