-- ===== src/Relay/Examples/Documents.antt =====
-- The documents that services/dozzle/alert_relay.py reads, on concrete inputs.
use nas_platform.Common.{◌≡◌, refl, true, false, some, none, [], ◌∷◌, ◌++◌}
use nas_platform.Common.Text.{Text, codes, is_surrogate, decimal, digits_from}
use nas_platform.Common.Value.{
  Value, natural, bool, text, array, object, Items, nil, item, end, member,
}
use nas_platform.Relay.Clock.{padded}
use nas_platform.Relay.Budget.{unexpected_exit}
use nas_platform.Relay.Event.{Event}
use nas_platform.Relay.Health.{sick}
use nas_platform.Relay.Process.{Stored}
use nas_platform.Relay.Parse.{parse_state_document}
use nas_platform.Relay.Parse.Sound.{IsStored, parse_state_document-IsStored}
use nas_platform.Relay.Envelope.{validate_envelope}
use nas_platform.Relay.Envelope.Valid.{IsEvent, validate_envelope-IsEvent}

abbrev pub web_id : Text
web_id = codes "0123456789ab"

abbrev web_identity : Text
web_identity = codes "nas" ++ 0 ∷ web_id

abbrev sick_web : Value
sick_web = object (
    member (codes "identity") (text web_identity) (
      member (codes "state") (text (codes "unhealthy"))
        (member (codes "timestamp") (text (codes "2026-09-14T12:00:00Z")) end)))

abbrev web_count : Value
web_count = object (
    member (codes "identity") (text web_identity)
      (member (codes "count") (natural 2) (member (codes "notified") (bool true) end)))

abbrev day_document : Value
day_document = object (
    member (codes "day") (text (codes "2026-09-14")) (
      member (codes "count") (natural 2) (
        member (codes "notified") (bool false)
          (member (codes "containers") (array (item web_count nil)) end))))

abbrev document_of : Items → Value
document_of entries = object (
    member (codes "version") (natural 3)
      (member (codes "entries") (array entries) (member (codes "budget") day_document end)))

abbrev web_stored : Stored
web_stored = record {
  entries =
      (
        web_identity,
        record { identity = web_identity; state = sick; timestamp = codes "2026-09-14T12:00:00Z" },
      )
      ∷ [];
  budget = some (record {
    day = codes "2026-09-14";
    count = 2;
    notified = false;
    containers =
        (web_identity, record { identity = web_identity; count = 2; notified = true }) ∷ [];
  });
  migration_required = false;
}

web_document : parse_state_document (some (document_of (item sick_web nil))) ≡ some web_stored
unfolding parse_state_document is_surrogate decimal padded digits_from
web_document = refl

-- An array that repeats an identity is refused.
repeated_document :
    parse_state_document (some (document_of (item sick_web (item sick_web nil)))) ≡ none
unfolding parse_state_document is_surrogate decimal padded digits_from
repeated_document = refl

parse_state_document-IsStored_example : IsStored web_stored
parse_state_document-IsStored_example =
    parse_state_document-IsStored (some (document_of (item sick_web nil))) web_stored web_document

abbrev pub exit_envelope : Text → Value
exit_envelope code = object (
    member (codes "version") (natural 1) (
      member (codes "rule") (text (codes "Unexpected exit")) (
        member (codes "containerId") (text web_id) (
          member (codes "container") (text (codes "web")) (
            member (codes "host") (text (codes "golem")) (
              member (codes "event") (text (codes "die")) (
                member (codes "healthStatus") (text []) (
                  member (codes "exitCode") (text code)
                    (member (codes "timestamp") (text (codes "2026-09-14T12:00:00Z")) end)))))))))

abbrev exit_event : Event
exit_event = record {
  rule = unexpected_exit;
  container_id = web_id;
  container = codes "web";
  host = codes "Golem";
  event = codes "die";
  health_status = [];
  exit_code = codes "137";
  timestamp = codes "2026-09-14T12:00:00Z";
}

exit_envelope_taken : validate_envelope (exit_envelope (codes "137")) ≡ some exit_event
unfolding validate_envelope is_surrogate padded digits_from
exit_envelope_taken = refl

-- A container that was stopped is no unexpected exit.
stopped_envelope_refused : validate_envelope (exit_envelope (codes "143")) ≡ none
unfolding validate_envelope is_surrogate padded digits_from
stopped_envelope_refused = refl

validate_envelope-IsEvent_example : IsEvent exit_event
validate_envelope-IsEvent_example =
    validate_envelope-IsEvent (exit_envelope (codes "137")) exit_event exit_envelope_taken
