-- ===== src/Common/Dict.antt =====
-- Python's `dict`: an association list in the order of insertion. The keys' equality is an instance.
use Prim.Native.Nat.{◌≤◌, ◌<◌}
use mathlib.Core.Path.{◌≡◌, refl}
use mathlib.Core.Logic.{◌↔◌, inl, inr}
use mathlib.Core.Bool.{Bool, true, false, not, ◌&&◌}
use mathlib.Core.Option.{Option, none, some}
use mathlib.Core.List.{List, [], ◌∷◌}
use native.Mathlib.Omega.{arith}
use nas_platform.Common.Tests.{◌==◌, Bool-cases, if◌then◌else◌}
use nas_platform.Common.Lists.{length, select}
use nas_platform.Common.Text.{Text, text_eq, text_eq_iff}

pub record Eq {ℓ} (A : Type ℓ) : Type ℓ where
  pub beq : A → A → Bool
  pub beq_iff : (a b : A) → (beq a b ≡ true) ↔ (a ≡ b)

instance abbrev pub text_keys : Eq Text
text_keys = record { beq = text_eq; beq_iff = text_eq_iff }

abbrev pub Dict {ℓ κ} : Type ℓ → Type κ → Type (ℓ ⊔ κ)
Dict K V = List (K × V)

pub beq_refl {ℓ} : {K : Type ℓ} ⦃e : Eq K⦄ (k : K) → e.beq k k ≡ true
beq_refl ⦃e⦄ k = (e.beq_iff k k).1 refl

module _ {ℓ κ} {K : Type ℓ} {V : Type κ} ⦃e : Eq K⦄ where
  -- d.get(k)
  unfoldable pub lookup : K → Dict K V → Option V
  lookup k [] = none
  lookup k ((j, v) ∷ d) = if e.beq j k then some v else lookup k d

  -- k in d
  unfoldable pub has : K → Dict K V → Bool
  has k [] = false
  has k ((j, v) ∷ d) = if e.beq j k then true else has k d

  -- d[k] = v: a key that is there keeps its place
  unfoldable pub insert : K → V → Dict K V → Dict K V
  insert k v [] = (k, v) ∷ []
  insert k v ((j, w) ∷ d) = if e.beq j k then (k, v) ∷ d else (j, w) ∷ insert k v d

  -- del d[k], d.pop(k, None)
  unfoldable pub erase : K → Dict K V → Dict K V
  erase k [] = []
  erase k ((j, w) ∷ d) = let rest = erase k d in if e.beq j k then rest else (j, w) ∷ rest

  pub lookup-insert :
      (k j : K) (v : V) (d : Dict K V)
      → lookup j (insert k v d) ≡ (if e.beq k j then some v else lookup j d)
  unfolding lookup insert
  lookup-insert k j v [] = refl
  lookup-insert k j v ((i, w) ∷ d) =
      ground (arith, e.beq_iff k j, e.beq_iff i k, e.beq_iff i j, lookup-insert k j v d)

  pub lookup-erase :
      (k j : K) (d : Dict K V) → lookup j (erase k d) ≡ (if e.beq k j then none else lookup j d)
  unfolding lookup erase
  lookup-erase k j [] = ground arith
  lookup-erase k j ((i, w) ∷ d) =
      ground (arith, e.beq_iff k j, e.beq_iff i k, e.beq_iff i j, lookup-erase k j d)

  pub lookup-insert_self : (k : K) (v : V) (d : Dict K V) → lookup k (insert k v d) ≡ some v
  lookup-insert_self k v d = rw (lookup-insert, beq_refl)

  pub length-erase-le : (k : K) (d : Dict K V) → length (erase k d) ≤ length d
  unfolding erase
  length-erase-le k [] = omega arith
  length-erase-le k ((j, w) ∷ d) = ground (arith, length-erase-le k d)

  pub has-lookup : (k : K) (d : Dict K V) → has k d ≡ true → (v : V) × (lookup k d ≡ some v)
  unfolding has lookup
  has-lookup k [] h = cc
  has-lookup k ((j, v) ∷ d) h = elim (Bool-cases (e.beq j k)) [
    | inl same ↦ (v, rw same)
    | inr other ↦ rw other (has-lookup k d (rw other at h))
  ]

  -- Every entry of `c` has an equal value in `d`.
  unfoldable pub within : (V → V → Bool) → Dict K V → Dict K V → Bool
  within same [] d = true
  within same ((k, v) ∷ c) d =
      (elim (lookup k d) [ none ↦ false | some w ↦ same v w ]) && within same c d

  -- c == d on dicts: the order of insertion does not matter
  unfoldable pub dict_eq : (V → V → Bool) → Dict K V → Dict K V → Bool
  dict_eq same c d = length c == length d && within same c d

-- No key occurs twice: what a Python dict is.
abbrev pub HasDistinctKeys {ℓ κ} : {K : Type ℓ} {V : Type κ} ⦃e : Eq K⦄ → Dict K V → Type 0
HasDistinctKeys [] = Unit
HasDistinctKeys ((k, v) ∷ d) = (has k d ≡ false) × HasDistinctKeys d

module _ {ℓ κ} {K : Type ℓ} {V : Type κ} ⦃e : Eq K⦄ where
  pub has-insert :
      (k j : K) (v : V) (d : Dict K V)
      → has j (insert k v d) ≡ (if e.beq k j then true else has j d)
  unfolding has insert
  has-insert k j v [] = refl
  has-insert k j v ((i, w) ∷ d) =
      ground (arith, e.beq_iff k j, e.beq_iff i k, e.beq_iff i j, has-insert k j v d)

  pub has-erase :
      (k j : K) (d : Dict K V) → has j (erase k d) ≡ (if e.beq k j then false else has j d)
  unfolding has erase
  has-erase k j [] = ground arith
  has-erase k j ((i, w) ∷ d) =
      ground (arith, e.beq_iff k j, e.beq_iff i k, e.beq_iff i j, has-erase k j d)

  pub lookup-not_has : (k : K) (d : Dict K V) → has k d ≡ false → lookup k d ≡ none
  unfolding has lookup
  lookup-not_has k [] h = refl
  lookup-not_has k ((j, v) ∷ d) h = ground (arith, lookup-not_has k d)

  pub has_of_lookup : (k : K) (v : V) (d : Dict K V) → lookup k d ≡ some v → has k d ≡ true
  unfolding has lookup
  has_of_lookup k v [] h = cc
  has_of_lookup k v ((j, w) ∷ d) h = ground (arith, has_of_lookup k v d)

  pub insert-HasDistinctKeys :
      (k : K) (v : V) (d : Dict K V) → HasDistinctKeys d → HasDistinctKeys (insert k v d)
  unfolding insert
  insert-HasDistinctKeys k v [] h = (unfold has in refl, tt)
  insert-HasDistinctKeys k v ((i, w) ∷ d) h = elim (Bool-cases (e.beq i k)) [
    | inl same ↦ rw same (rw ((e.beq_iff i k).0 same) at h.0, h.1)
    | inr other ↦ rw other (
      ground (arith, has-insert k i v d, e.beq_iff k i, e.beq_iff i k),
      insert-HasDistinctKeys k v d h.1,
    )
  ]

  pub erase-HasDistinctKeys :
      (k : K) (d : Dict K V) → HasDistinctKeys d → HasDistinctKeys (erase k d)
  unfolding erase
  erase-HasDistinctKeys k [] h = tt
  erase-HasDistinctKeys k ((i, w) ∷ d) h = elim (Bool-cases (e.beq i k)) [
    | inl same ↦ rw same (erase-HasDistinctKeys k d h.1)
    | inr other ↦ rw other (ground (arith, has-erase k i d), erase-HasDistinctKeys k d h.1)
  ]

  -- Erasing a key that is there makes the dict shorter.
  pub length-erase-lt : (k : K) (d : Dict K V) → has k d ≡ true → length (erase k d) < length d
  unfolding has erase
  length-erase-lt k [] h = absurd (cc)
  length-erase-lt k ((i, w) ∷ d) h = ground (arith, length-erase-lt k d, length-erase-le k d)

module _ {ℓ κ} {K : Type ℓ} {V : Type κ} ⦃e : Eq K⦄ where
  pub erase-not_has : (k : K) (d : Dict K V) → has k d ≡ false → erase k d ≡ d
  unfolding has erase
  erase-not_has k [] h = refl
  erase-not_has k ((j, v) ∷ d) h = ground (arith, erase-not_has k d)

  has-select :
      (p : K × V → Bool) (k : K) (d : Dict K V) → has k d ≡ false → has k (select p d) ≡ false
  unfolding has select
  has-select p k [] h = refl
  has-select p k ((j, v) ∷ d) h = ground (arith, has-select p k d)

  pub select-HasDistinctKeys :
      (p : K × V → Bool) (d : Dict K V) → HasDistinctKeys d → HasDistinctKeys (select p d)
  unfolding select
  select-HasDistinctKeys p [] h = tt
  select-HasDistinctKeys p ((j, v) ∷ d) h = elim (Bool-cases (p (j, v))) [
    | inl kept ↦ rw kept (has-select p j d h.0, select-HasDistinctKeys p d h.1)
    | inr gone ↦ rw gone (select-HasDistinctKeys p d h.1)
  ]

  -- A lookup after a selection by value.
  pub lookup-select :
      (p : V → Bool) (k : K) (d : Dict K V)
      → HasDistinctKeys d
      → lookup k (select (λ q. p q.1) d)
        ≡ (elim (lookup k d) [ none ↦ none | some v ↦ if p v then some v else none ])
  unfolding lookup select
  lookup-select p k [] h = refl
  lookup-select p k ((j, v) ∷ d) h =
      ground (arith, lookup-select p k d h.1, lookup-not_has j d h.0, e.beq_iff j k)

-- The decision of `HasDistinctKeys`.
abbrev pub distinct_keys {ℓ κ} : {K : Type ℓ} {V : Type κ} ⦃e : Eq K⦄ → Dict K V → Bool
distinct_keys [] = true
distinct_keys ((k, v) ∷ d) = not (has k d) && distinct_keys d

pub distinct_keys-HasDistinctKeys {ℓ κ} :
    {K : Type ℓ} {V : Type κ} ⦃e : Eq K⦄ (d : Dict K V) → distinct_keys d ≡ true → HasDistinctKeys d
distinct_keys-HasDistinctKeys [] h = tt
distinct_keys-HasDistinctKeys ((k, v) ∷ d) h =
    (ground arith, distinct_keys-HasDistinctKeys d (ground arith))
