-- ===== src/Common/Sort.antt =====
-- `sorted`: a stable insertion sort by a Boolean strict order, and the predicate that a list's
-- elements share a property.
use mathlib.Core.Path.{◌≡◌, refl, subst}
use mathlib.Core.Bool.{Bool}
use mathlib.Core.Logic.{inl, inr}
use mathlib.Core.Option.{Option, none, some, some-injective}
use mathlib.Core.List.{List, [], ◌∷◌}
use native.Mathlib.Omega.{arith}
use nas_platform.Common.Tests.{if◌then◌else◌, Bool-cases}

abbrev pub All {ℓ κ} : {A : Type ℓ} → (A → Type κ) → List A → Type κ
All P [] = Unit
All P (x ∷ xs) = P x × All P xs

module _ {ℓ} {A : Type ℓ} where
  -- An element goes in front of the first that is greater.
  unfoldable pub insert_sorted : (A → A → Bool) → A → List A → List A
  insert_sorted lt a [] = a ∷ []
  insert_sorted lt a (x ∷ xs) = if lt a x then a ∷ x ∷ xs else x ∷ insert_sorted lt a xs

  unfoldable pub sorted : (A → A → Bool) → List A → List A
  unfolding insert_sorted
  sorted lt [] = []
  sorted lt (x ∷ xs) = insert_sorted lt x (sorted lt xs)

  unfoldable pub first : List A → Option A
  first [] = none
  first (x ∷ xs) = some x

  module _ {κ} (P : A → Type κ) where
    All-insert_sorted :
        (lt : A → A → Bool) (a : A) (xs : List A) → P a → All P xs → All P (insert_sorted lt a xs)
    unfolding insert_sorted
    All-insert_sorted lt a [] pa h = (pa, h)
    All-insert_sorted lt a (x ∷ xs) pa h = elim (Bool-cases (lt a x)) [
      | inl less ↦ rw less (pa, h)
      | inr more ↦ rw more (h.0, All-insert_sorted lt a xs pa h.1)
    ]

    pub All-sorted : (lt : A → A → Bool) (xs : List A) → All P xs → All P (sorted lt xs)
    unfolding sorted
    All-sorted lt [] h = h
    All-sorted lt (x ∷ xs) h = All-insert_sorted lt x (sorted lt xs) h.0 (All-sorted lt xs h.1)

    pub All-first : (xs : List A) (a : A) → first xs ≡ some a → All P xs → P a
    unfolding first
    All-first [] a e h = cc
    All-first (x ∷ xs) a e h = subst P (some-injective x a (unfold first in e)) h.0

  pub sorted-nil : (lt : A → A → Bool) (xs : List A) → first (sorted lt xs) ≡ none → xs ≡ []
  unfolding sorted insert_sorted first
  sorted-nil lt [] h = refl
  sorted-nil lt (x ∷ xs) h = absurd (insert-some (sorted lt xs) h)
    where
      insert-some : (ys : List A) → first (insert_sorted lt x ys) ≡ none → ⊥
      insert-some [] e = cc
      insert-some (y ∷ ys) e = ground arith
