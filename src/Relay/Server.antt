-- ===== src/Relay/Server.antt =====
-- services/dozzle/alert_relay.py: `do_POST` and `handle_beszel` of RelayRequestHandler, on the state
-- of one relay. The answer is the HTTP status; the log lines on stderr are left out.
pub mod Guard
pub mod Day
use nas_platform.Common.{
  ℕ, ◌+◌, ◌*◌, Bool, true, false, not, ◌&&◌, ◌||◌, Option, none, some, [], ◌∷◌, ◌++◌, ltb, ◌==◌,
  all, map, if◌then◌else◌,
}
use nas_platform.Common.Text.{Text, codes, text_eq}
use nas_platform.Common.Words.{span, strip}
use nas_platform.Common.Value.{Value}
use nas_platform.Relay.Settings.{Config}
use nas_platform.Relay.Process.{
  Relay, Weather, Answer, done, state_error, upstream_error, process_event,
}
use nas_platform.Relay.Envelope.{validate_envelope, validate_beszel_envelope}
use nas_platform.Relay.Beszel.Process.{process_beszel}

abbrev pub max_body_bytes : ℕ
max_body_bytes = 16 * 1024

-- What `json.loads` makes of the bytes of a body: a value; an error that the handlers catch, which is
-- a UnicodeDecodeError, a JSONDecodeError or the SchemaError of a repeated key; or one that they do
-- not, as the RecursionError of a deep nesting and the ValueError of a very long integer.
pub data Loaded : Type 0 where
  value : Value → Loaded
  malformed uncaught : Loaded

-- The status that stands for no answer: the handler raised, and the connection is closed.
abbrev pub no_answer : ℕ
no_answer = 0

-- A request as the handler reads it. A header that is not there is the empty text, as `get` gives
-- it; `content_length` is what `int` makes of its header, `none` on a ValueError and 0 for what is
-- negative; `received` counts the bytes that were read.
pub record Request : Type 0 where
  pub path : Text
  pub authorization : Text
  pub content_type : Text
  pub content_length : Option ℕ
  pub received : ℕ
  pub loaded : Loaded

-- Whether `encode("ascii")` takes a text.
abbrev pub is_ascii : Text → Bool
is_ascii s = all (λ c. ltb c 128) s

abbrev pub expected_authorization : Config → Text
expected_authorization config = codes "Bearer " ++ config.alert_relay_token

-- hmac.compare_digest of the two, where both are ASCII
unfoldable pub is_authorized : Config → Text → Bool
unfolding all text_eq
is_authorized config authorization =
    is_ascii authorization
    && is_ascii (expected_authorization config)
    && text_eq authorization (expected_authorization config)

-- str.lower of an ASCII character
abbrev lower : ℕ → ℕ
lower c = if ltb b'@' c && ltb c b'[' then c + 32 else c

-- The media type of the header.
unfoldable pub is_json : Text → Bool
unfolding span strip text_eq
is_json header =
    text_eq (map lower (strip (span (λ c. not (c == b';')) header).0)) (codes "application/json")

-- The status of an answer: 204, 500 or 502
abbrev pub answer_status : Answer × Relay → ℕ × Relay
answer_status (done, r) = (204, r)
answer_status (state_error, r) = (500, r)
answer_status (upstream_error, r) = (502, r)

abbrev is_set : Option Text → Bool
is_set none = false
is_set (some token) = true

unfoldable pub handle_beszel : Config → Weather → Loaded → Relay → ℕ × Relay
unfolding validate_beszel_envelope process_beszel
handle_beszel config w malformed r = (400, r)
handle_beszel config w uncaught r = (no_answer, r)
handle_beszel config w (value payload) r = elim (validate_beszel_envelope payload) [
  | none ↦ (400, r)
  | some a ↦
      if is_set config.pushover_alerts_token
      then answer_status (process_beszel config w a r)
      else (503, r)
]

-- The part of `do_POST` for the path /alerts.
unfoldable pub handle_alerts : Config → Weather → Loaded → Relay → ℕ × Relay
unfolding validate_envelope process_event
handle_alerts config w malformed r = (400, r)
handle_alerts config w uncaught r = (no_answer, r)
handle_alerts config w (value payload) r = elim (validate_envelope payload) [
  | none ↦ (400, r)
  | some event ↦ answer_status (process_event config w event r)
]

-- The body, once its length is known.
unfoldable pub read_body : Config → Weather → Request → ℕ → Relay → ℕ × Relay
unfolding text_eq handle_beszel handle_alerts
read_body config w request length r =
    if length == 0
    then (400, r)
    else if ltb max_body_bytes length
    then (413, r)
    else if not (request.received == length)
    then (400, r)
    else if text_eq request.path (codes "/beszel")
    then handle_beszel config w request.loaded r
    else handle_alerts config w request.loaded r

unfoldable pub do_post : Config → Weather → Request → Relay → ℕ × Relay
unfolding text_eq is_authorized is_json read_body
do_post config w request r =
    if not (text_eq request.path (codes "/alerts") || text_eq request.path (codes "/beszel"))
    then (404, r)
    else if not (is_authorized config request.authorization)
    then (401, r)
    else if not (is_json request.content_type)
    then (400, r)
    else elim request.content_length [
      | none ↦ (400, r)
      | some length ↦ read_body config w request length r
    ]
