-- ===== src/Relay/Parse/Kept.antt =====
-- services/dozzle/alert_relay.py: the loop over an array of entries in the state document.
use nas_platform.Common.{
  ℕ, true, ◌≡◌, inl, inr, Option, some, List, [], ◌∷◌, leb, length, arith, Bool-cases, Option-cases,
}
use nas_platform.Common.Text.{Text}
use nas_platform.Common.Dict.{Dict, insert, text_keys, HasDistinctKeys, insert-HasDistinctKeys}
use nas_platform.Common.Sort.{All}
use nas_platform.Common.Value.{Value, Items, nil, item, >>=-eq-some, require-eq-some}
use nas_platform.Relay.Parse.{is_canonical, parse_all, parse_dict}

All-insert {κ} :
    {A : Type 0} (P : Text × A → Type κ) (k : Text) (a : A) (d : Dict Text A)
    → P (k, a)
    → All P d
    → All P (insert k a d)
unfolding insert
All-insert P k a [] p h = (p, tt)
All-insert P k a ((j, b) ∷ d) p h = elim (Bool-cases (text_keys.beq j k)) [
  | inl same ↦ rw same (p, h.1)
  | inr other ↦ rw other (h.0, All-insert P k a d p h.1)
]

-- The keys are distinct, and what stands at each has a property.
abbrev pub IsKept : {A : Type 0} → (Text × A → Type 0) → Dict Text A → Type 0
IsKept P d = HasDistinctKeys d × All P d

module _ {A : Type 0} (parse : Value → Option A) (identity_of : A → Text) (P : Text × A → Type 0)
    (sound : (v : Value) (a : A) → parse v ≡ some a → P (identity_of a, a)) where
  pub parse_all-IsKept :
      (items : Items) (d : Dict Text A) (out : List Text × Dict Text A)
      → IsKept P d
      → parse_all parse identity_of items d ≡ some out
      → IsKept P (out.1)
  unfolding parse_all
  parse_all-IsKept nil d out h e = ground arith
  parse_all-IsKept (item v rest) d out h e = elim (Option-cases (parse v)) [
    | inl none_here ↦ absurd (ground arith)
    | inr (a, parsed) ↦
        elim (Option-cases (parse_all parse identity_of rest (insert (identity_of a) a d))) [
          | inl none_here ↦ absurd (ground arith)
          | inr (more, at_rest) ↦
              let kept =
                parse_all-IsKept rest (insert (identity_of a) a d) more
                  (
                    insert-HasDistinctKeys (identity_of a) a d h.0,
                    All-insert P (identity_of a) a d (sound v a parsed) h.1,
                  )
                  at_rest in
              let same : more.1 ≡ out.1 = ground arith in rw (← same) kept
        ]
  ]

  pub parse_dict-IsKept :
      (maximum : ℕ) (items : Items) (d : Dict Text A)
      → parse_dict parse identity_of maximum items ≡ some d
      → IsKept P d × (leb (length d) maximum ≡ true)
  unfolding parse_dict
  parse_dict-IsKept maximum items d e =
      let (out, looped, e1) = >>=-eq-some (parse_all parse identity_of items []) _ d e in
      let (canonical, e2) = require-eq-some (is_canonical (out.0)) _ d e1 in
      let (bounded, e3) = require-eq-some (leb (length (out.1)) maximum) _ d e2 in
      let same : out.1 ≡ d = ground arith in
      rw (← same) (parse_all-IsKept items [] out (tt, tt) looped, bounded)
