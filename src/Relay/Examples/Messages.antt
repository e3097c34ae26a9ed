-- ===== src/Relay/Examples/Messages.antt =====
-- The messages of services/dozzle/alert_relay.py on concrete inputs.
use nas_platform.Common.{◌≤◌, ◌≡◌, refl, [], ◌∷◌, length}
use nas_platform.Common.Text.{codes}
use nas_platform.Message.{
  max_message_characters, escape, escape_within, html_escape_to, compose_message, compose_from,
  fit_message, fit_lines,
}
use nas_platform.Common.Json.{join}
use nas_platform.Message.Length.{length-compose_message}

composed :
    compose_message (codes "lead") (codes "a" ∷ codes "b" ∷ []) (codes "end")
    ≡ codes "lead\n\na\nb\n\nend"
unfolding compose_message compose_from fit_message fit_lines join
composed = refl

-- Of three apostrophes two fit into twelve characters.
cut_escape : html_escape_to 128 12 (codes "'''") ≡ codes "&#x27;&#x27;"
unfolding html_escape_to escape_within escape
cut_escape = refl

length-compose_message_example :
    length (compose_message (codes "lead") (codes "a" ∷ []) []) ≤ max_message_characters
length-compose_message_example = length-compose_message (codes "lead") (codes "a" ∷ []) []
