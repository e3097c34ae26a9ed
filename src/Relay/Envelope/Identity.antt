-- ===== src/Relay/Envelope/Identity.antt =====
-- services/dozzle/alert_relay.py: the host and the identity of an envelope that is taken.
use nas_platform.Common.{
  ℕ, ◌≡◌, refl, ap, Bool, true, false, ◌||◌, some, [], ◌∷◌, ◌++◌, ◌==◌, all, any, arith, Bool-cases,
  inl, inr,
}
use nas_platform.Common.Text.{Text, text_eq, is_digit, is_control, is_surrogate, encodes_utf8}
use nas_platform.Common.Words.{split_at, onto_first}
use nas_platform.Common.Value.{Members, get, as_text, ◌>>=◌, >>=-eq-some, require-eq-some}
use nas_platform.Relay.Process.{golem_dozzle_host, golem_former_name, identity_of}
use nas_platform.Relay.Parse.{is_hex, is_container_id, is_identity_of, valid_state_identity}
use nas_platform.Relay.Envelope.{is_field, require_text, host_named}

module _ (c : ℕ) where
  split_at-free : (s : Text) → any (λ d. d == c) s ≡ false → split_at c s ≡ s ∷ []
  unfolding split_at any onto_first
  split_at-free [] h = refl
  split_at-free (d ∷ s) h = ground (arith, split_at-free s)

  split_at-once :
      (s t : Text)
      → any (λ d. d == c) s ≡ false
      → any (λ d. d == c) t ≡ false
      → split_at c (s ++ c ∷ t) ≡ s ∷ t ∷ []
  unfolding split_at any onto_first
  split_at-once [] t h k = ground (arith, split_at-free t)
  split_at-once (d ∷ s) t h k = ground (arith, split_at-once s t)

any-within :
    (p q : ℕ → Bool)
    → ((n : ℕ) → p n ≡ false → q n ≡ false)
    → (s : Text) → any p s ≡ false
    → any q s ≡ false
unfolding any
any-within p q f [] h = refl
any-within p q f (c ∷ s) h = ground (arith, f c, any-within p q f s)

all-without :
    (p q : ℕ → Bool)
    → ((n : ℕ) → p n ≡ true → q n ≡ false)
    → (s : Text) → all p s ≡ true
    → any q s ≡ false
unfolding all any
all-without p q f [] h = refl
all-without p q f (c ∷ s) h = ground (arith, f c, all-without p q f s)

control-nul : (n : ℕ) → is_control n ≡ false → (n == 0) ≡ false
unfolding is_control
control-nul n h = ground arith

hex-nul : (n : ℕ) → is_hex n ≡ true → (n == 0) ≡ false
unfolding is_digit
hex-nul n h = ground arith

hex-surrogate : (n : ℕ) → is_hex n ≡ true → is_surrogate n ≡ false
unfolding is_digit is_surrogate
hex-surrogate n h = ground arith

-- The identity of a field and a container id splits into these two again.
pub identity_of-valid :
    (host container_id : Text)
    → is_field 256 host ≡ true
    → is_container_id container_id ≡ true
    → valid_state_identity (identity_of host container_id) ≡ true
unfolding valid_state_identity identity_of is_field is_container_id encodes_utf8
identity_of-valid host container_id h k =
    let all_hex : all is_hex container_id ≡ true = ground arith in
    let no_control : any is_control host ≡ false = ground arith in
    let parts =
      split_at-once 0 host container_id
        (any-within is_control (λ d. d == 0) control-nul host no_control)
        (all-without is_hex (λ d. d == 0) hex-nul container_id all_hex) in
    let ascii = all-without is_hex is_surrogate hex-surrogate container_id all_hex in
    rw (ap is_identity_of parts) (ground arith)

module _ (members : Members) (key : Text) where
  pub require_text-is_field :
      (maximum : ℕ) (s : Text)
      → require_text members key maximum ≡ some s
      → is_field maximum s ≡ true
  unfolding require_text
  require_text-is_field maximum s e =
      let (t, at_key, e1) = >>=-eq-some (get key members >>= as_text) _ s e in
      let (valid, e2) = require-eq-some (is_field maximum t) _ s e1 in ground arith

pub host_named-is_field : (s : Text) → is_field 256 s ≡ true → is_field 256 (host_named s) ≡ true
unfolding host_named is_field is_control any encodes_utf8 is_surrogate
host_named-is_field s h =
    elim (Bool-cases (text_eq s golem_dozzle_host || text_eq s golem_former_name)) [
      | inl ours ↦ rw ours refl
      | inr other ↦ rw other h
    ]

or_false : (a b : Bool) → (a || b) ≡ false → b ≡ false
or_false a b h = ground arith

pub host_named-current : (s : Text) → text_eq (host_named s) golem_former_name ≡ false
unfolding host_named text_eq
host_named-current s =
    elim (Bool-cases (text_eq s golem_dozzle_host || text_eq s golem_former_name)) [
      | inl ours ↦ rw ours refl
      | inr other ↦ rw other (or_false _ _ other)
    ]
