-- ===== src/Relay/Envelope/Valid.antt =====
-- services/dozzle/alert_relay.py: what an envelope that `validate_envelope` takes is.
use nas_platform.Common.{
  ◌≤◌, ◌≡◌, ◌≢◌, true, false, ◌&&◌, some, [], ◌==◌, arith, Bool-cases, inl, inr,
}
use nas_platform.Common.Text.{Text, codes, text_eq, text_eq→eq, decimal}
use mathlib.Core.Option.{some-injective}
use mathlib.Core.Path.{subst}
use nas_platform.Common.Value.{
  Value, get, has_keys, as_natural, as_object, ◌>>=◌, ◌>>◌, require, >>=-eq-some, require-eq-some,
}
use nas_platform.Relay.Clock.{valid_timestamp}
use nas_platform.Relay.Budget.{Rule, oom, unexpected_exit, unhealthy, recovery}
use nas_platform.Relay.Event.{Event}
use nas_platform.Relay.Process.{golem_former_name, identity_of}
use nas_platform.Relay.Parse.{is_container_id, valid_state_identity}
use nas_platform.Relay.Envelope.{
  envelope_keys, require_text, require_status, is_exit_code, is_unexpected, is_related,
  related_rule, host_named, validate_envelope,
}
use nas_platform.Relay.Envelope.Identity.{
  identity_of-valid, require_text-is_field, host_named-is_field, host_named-current,
}

-- The relationship of a rule to the event, the health status and the exit code.
abbrev pub IsRelated : Rule → Text → Text → Text → Type 0
IsRelated oom event health exit = (event ≡ codes "oom") × (health ≡ []) × (exit ≡ [])
IsRelated unhealthy event health exit =
    (event ≡ codes "health_status") × (health ≡ codes "unhealthy") × (exit ≡ [])
IsRelated recovery event health exit =
    (event ≡ codes "health_status") × (health ≡ codes "healthy") × (exit ≡ [])
IsRelated unexpected_exit event health exit =
    (event ≡ codes "die")
    × (health ≡ [])
    × (is_exit_code exit ≡ true)
    × (decimal 0 exit ≤ 255)
    × (decimal 0 exit ≢ 0)
    × (decimal 0 exit ≢ 130)
    × (decimal 0 exit ≢ 143)

is_related-eq :
    (event health exit event' health' exit' : Text)
    → is_related event health exit event' health' exit' ≡ true
    → (event ≡ event') × (health ≡ health') × (exit ≡ exit')
is_related-eq event health exit event' health' exit' h = (
  text_eq→eq event event' (ground arith),
  text_eq→eq health health' (ground arith),
  text_eq→eq exit exit' (ground arith),
)

unexpected-IsRelated :
    (event health exit : Text)
    → (text_eq event (codes "die") && text_eq health [] && is_exit_code exit) ≡ true
    → is_unexpected (decimal 0 exit) ≡ true
    → IsRelated unexpected_exit event health exit
unexpected-IsRelated event health exit h k = (
  text_eq→eq event (codes "die") (ground arith),
  text_eq→eq health [] (ground arith),
  ground arith,
  ground arith,
  ground arith,
  ground arith,
  ground arith,
)

module _ (event health exit : Text) (rule : Rule) where
  plain-IsRelated :
      (expected : Rule) (event' health' exit' : Text)
      → ((event ≡ event') × (health ≡ health') × (exit ≡ exit')
          → IsRelated expected event health exit)
      → (require (is_related event health exit event' health' exit') >> some expected) ≡ some rule
      → IsRelated rule event health exit
  plain-IsRelated expected event' health' exit' f e =
      let (related, e1) =
        require-eq-some (is_related event health exit event' health' exit') (some expected) rule
          e in
      subst (λ r. IsRelated r event health exit) (some-injective expected rule e1)
        (f (is_related-eq event health exit event' health' exit' related))

  related_rule-IsRelated :
      (name : Text)
      → related_rule name event health exit ≡ some rule
      → IsRelated rule event health exit
  unfolding related_rule
  related_rule-IsRelated name e = elim (Bool-cases (text_eq name (codes "Unexpected exit"))) [
    | inl named ↦
        let (related, e1) =
          require-eq-some (text_eq event (codes "die") && text_eq health [] && is_exit_code exit) _
            rule (rw named at e) in
        let (unexpected, e2) = require-eq-some (is_unexpected (decimal 0 exit)) _ rule e1 in
        subst (λ r. IsRelated r event health exit) (some-injective unexpected_exit rule e2)
          (unexpected-IsRelated event health exit related unexpected)
    | inr not_exit ↦ elim (Bool-cases (text_eq name (codes "OOM"))) [
      | inl named ↦ plain-IsRelated oom (codes "oom") [] [] (λ h. h) (rw (not_exit, named) at e)
      | inr not_oom ↦ elim (Bool-cases (text_eq name (codes "Unhealthy"))) [
        | inl named ↦
            plain-IsRelated unhealthy (codes "health_status") (codes "unhealthy") [] (λ h. h)
              (rw (not_exit, not_oom, named) at e)
        | inr not_unhealthy ↦ elim (Bool-cases (text_eq name (codes "Recovery"))) [
          | inl named ↦
              plain-IsRelated recovery (codes "health_status") (codes "healthy") [] (λ h. h)
                (rw (not_exit, not_oom, not_unhealthy, named) at e)
          | inr unknown ↦ absurd (ground arith)
        ]
      ]
    ]
  ]

-- What the relay may rely on in an event that it took.
abbrev pub IsEvent : Event → Type 0
IsEvent e =
    IsRelated e.rule e.event e.health_status e.exit_code
    × (valid_timestamp e.timestamp ≡ true)
    × (text_eq e.host golem_former_name ≡ false)
    × (is_container_id e.container_id ≡ true)
    × (valid_state_identity (identity_of e.host e.container_id) ≡ true)

-- An envelope that is validated is an event whose rule has its relationship to the event, the health
-- status and the exit code, whose timestamp and container id are valid, whose host is not Golem's
-- former name, and whose identity is one that the parser of the state document takes.
pub validate_envelope-IsEvent :
    (payload : Value) (e : Event) → validate_envelope payload ≡ some e → IsEvent e
unfolding validate_envelope
validate_envelope-IsEvent payload e h =
    let (members, is_object, h1) = >>=-eq-some (as_object payload) _ e h in
    let (keyed, h2) = require-eq-some (has_keys envelope_keys members) _ e h1 in
    let (version, at_version, h3) =
      >>=-eq-some (get (codes "version") members >>= as_natural) _ e h2 in
    let (current, h4) = require-eq-some (version == 1) _ e h3 in
    let (name, at_rule, h5) = >>=-eq-some (require_text members (codes "rule") 32) _ e h4 in
    let (id, at_id, h6) = >>=-eq-some (require_text members (codes "containerId") 64) _ e h5 in
    let (container, at_container, h7) =
      >>=-eq-some (require_text members (codes "container") 256) _ e h6 in
    let (host, at_host, h8) = >>=-eq-some (require_text members (codes "host") 256) _ e h7 in
    let (event, at_event, h9) = >>=-eq-some (require_text members (codes "event") 32) _ e h8 in
    let (time, at_time, h10) = >>=-eq-some (require_text members (codes "timestamp") 40) _ e h9 in
    let (is_id, h11) = require-eq-some (is_container_id id) _ e h10 in
    let (in_time, h12) = require-eq-some (valid_timestamp time) _ e h11 in
    let (health, at_health, h13) =
      >>=-eq-some (require_status members (codes "healthStatus")) _ e h12 in
    let (exit, at_exit, h14) = >>=-eq-some (require_status members (codes "exitCode")) _ e h13 in
    let (rule, ruled, h15) = >>=-eq-some (related_rule name event health exit) _ e h14 in
    let related = related_rule-IsRelated event health exit rule name ruled in
    let identity =
      identity_of-valid (host_named host) id
        (host_named-is_field host (require_text-is_field members (codes "host") 256 host at_host))
        is_id in
    subst IsEvent (some-injective _ e h15)
      (related, in_time, host_named-current host, is_id, identity)
