-- ===== src/Prune/Arguments.antt =====
-- scripts/image_prune.py: `_parse_arguments`.
use nas_platform.Common.{
  ◌≡◌, ◌↔◌, ◌⊎◌, refl, inl, inr, Bool, true, false, ◌&&◌, Option, none, some, List, [], ◌∷◌, arith,
  Bool-cases, if◌then◌else◌,
}
use nas_platform.Common.Text.{Text, codes, text_eq, text_eq→eq}

pub data Mode : Type 0 where
  pruning reporting : Mode

abbrev pub flag : Mode → Text
flag pruning = codes "--prune"
flag reporting = codes "--status"

abbrev both : Option Text → Option Mode → Option (Text × Mode)
both (some path) (some mode) = some (path, mode)
both _ _ = none

abbrev is_unset : {A : Type 0} → Option A → Bool
is_unset none = true
is_unset (some a) = false

-- The loop over the arguments that remain; `none` refuses them.
unfoldable pub parse_remaining : List Text → Option Text → Option Mode → Option (Text × Mode)
unfolding text_eq
parse_remaining [] path mode = both path mode
parse_remaining (a ∷ []) path mode =
    let with_prune = parse_remaining [] path (some pruning) in
    let with_status = parse_remaining [] path (some reporting) in
    if text_eq a (codes "--prune") && is_unset mode
    then with_prune
    else if text_eq a (codes "--status") && is_unset mode
    then with_status
    else none
parse_remaining (a ∷ b ∷ more) path mode =
    let with_path = parse_remaining more (some b) mode in
    let with_prune = parse_remaining (b ∷ more) path (some pruning) in
    let with_status = parse_remaining (b ∷ more) path (some reporting) in
    if text_eq a (codes "--config") && is_unset path
    then with_path
    else if text_eq a (codes "--prune") && is_unset mode
    then with_prune
    else if text_eq a (codes "--status") && is_unset mode
    then with_status
    else none

unfoldable pub parse_arguments : List Text → Option (Text × Mode)
unfolding parse_remaining
parse_arguments argv = parse_remaining argv none none

-- The configuration and the mode are named, once each, in either order, and nothing else is.
abbrev pub Names : List Text → Text → Mode → Type 0
Names argv path mode =
    (argv ≡ codes "--config" ∷ path ∷ flag mode ∷ [])
    ⊎ (argv ≡ flag mode ∷ codes "--config" ∷ path ∷ [])

abbrev Parsed : Type 0
Parsed = Text × Mode

module _ (out : Parsed) where
  parse_rest :
      (xs : List Text) (p : Text) (m : Mode)
      → parse_remaining xs (some p) (some m) ≡ some out
      → (xs ≡ []) × (out ≡ (p, m))
  unfolding parse_remaining
  parse_rest [] p m e = (refl, ground arith)
  parse_rest (a ∷ []) p m e = absurd (ground arith)
  parse_rest (a ∷ b ∷ more) p m e = absurd (ground arith)

  parse_flag :
      (a : Text) (xs : List Text) (path : Option Text)
      → (text_eq a (codes "--config") && is_unset path) ≡ false
      → parse_remaining (a ∷ xs) path none ≡ some out
      → (m : Mode) × (a ≡ flag m) × (parse_remaining xs path (some m) ≡ some out)
  unfolding parse_remaining
  parse_flag a [] path free e = elim (Bool-cases (text_eq a (codes "--prune"))) [
    | inl prune ↦ (pruning, text_eq→eq a (codes "--prune") prune, rw prune at e)
    | inr other ↦ elim (Bool-cases (text_eq a (codes "--status"))) [
      | inl status ↦ (reporting, text_eq→eq a (codes "--status") status, rw (other, status) at e)
      | inr unknown ↦ absurd (ground arith)
    ]
  ]
  parse_flag a (b ∷ more) path free e = elim (Bool-cases (text_eq a (codes "--prune"))) [
    | inl prune ↦ (pruning, text_eq→eq a (codes "--prune") prune, rw (free, prune) at e)
    | inr other ↦ elim (Bool-cases (text_eq a (codes "--status"))) [
      | inl status ↦
          (reporting, text_eq→eq a (codes "--status") status, rw (free, other, status) at e)
      | inr unknown ↦ absurd (ground arith)
    ]
  ]

  parse_mode :
      (xs : List Text) (p : Text)
      → parse_remaining xs (some p) none ≡ some out
      → (m : Mode) × (xs ≡ flag m ∷ []) × (out ≡ (p, m))
  parse_mode [] p e = absurd (unfold parse_remaining in ground arith)
  parse_mode (a ∷ xs) p e =
      let (m, at_flag, e1) = parse_flag a xs (some p) (ground arith) e in
      let (nil, same) = parse_rest xs p m e1 in (m, ground arith, same)

  parse_path :
      (xs : List Text) (m : Mode)
      → parse_remaining xs none (some m) ≡ some out
      → (p : Text) × (xs ≡ codes "--config" ∷ p ∷ []) × (out ≡ (p, m))
  unfolding parse_remaining
  parse_path [] m e = absurd (ground arith)
  parse_path (a ∷ []) m e = absurd (ground arith)
  parse_path (a ∷ b ∷ more) m e = elim (Bool-cases (text_eq a (codes "--config"))) [
    | inl named ↦
        let (nil, same) = parse_rest more b m (rw named at e) in
        (b, ground (arith, text_eq→eq a (codes "--config")), same)
    | inr other ↦ absurd (ground arith)
  ]

  parse_none : (xs : List Text) → parse_remaining xs none none ≡ some out → Names xs (out.0) (out.1)
  parse_none [] e = absurd (unfold parse_remaining in ground arith)
  parse_none (a ∷ []) e = absurd (unfold parse_remaining in ground arith)
  parse_none (a ∷ b ∷ more) e = elim (Bool-cases (text_eq a (codes "--config"))) [
    | inl named ↦
        let (m, rest, same) = parse_mode more b (unfold parse_remaining in rw named at e) in
        inl (ground (arith, text_eq→eq a (codes "--config")))
    | inr other ↦
        let (m, at_flag, e1) = parse_flag a (b ∷ more) none (ground arith) e in
        let (p, rest, same) = parse_path (b ∷ more) m e1 in inr (ground arith)
  ]

parse-Names :
    (argv : List Text) (path : Text) (mode : Mode)
    → Names argv path mode
    → parse_arguments argv ≡ some (path, mode)
unfolding parse_arguments text_eq
parse-Names argv path pruning (inl e) = rw e refl
parse-Names argv path reporting (inl e) = rw e refl
parse-Names argv path pruning (inr e) = rw e refl
parse-Names argv path reporting (inr e) = rw e refl

-- The command line is taken exactly where it names the configuration and the mode once each, in
-- either order, and nothing else.
pub parse_arguments_iff :
    (argv : List Text) (path : Text) (mode : Mode)
    → (parse_arguments argv ≡ some (path, mode)) ↔ Names argv path mode
parse_arguments_iff argv path mode =
    (λ e. parse_none (path, mode) argv (unfold parse_arguments in e), parse-Names argv path mode)
