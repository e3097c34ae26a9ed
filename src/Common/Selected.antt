-- ===== src/Common/Selected.antt =====
-- What `select` leaves, told from where the elements stand in the list.
use mathlib.Core.Path.{◌≡◌, refl, ap}
use mathlib.Core.Logic.{inl, inr}
use mathlib.Core.Bool.{Bool, true, false, ◌&&◌}
use mathlib.Core.List.{List, [], ◌∷◌, ◌++◌}
use native.Mathlib.Omega.{arith}
use nas_platform.Common.Tests.{Bool-cases, leb}
use nas_platform.Common.Lists.{select, any, length}
use nas_platform.Common.Sort.{All}

-- The first element that passes, with what stands before and behind it.
abbrev pub FirstAt {ℓ} : {A : Type ℓ} → (A → Bool) → A → List A → List A → Type ℓ
FirstAt p x after xs =
    (before : List _) × (xs ≡ before ++ x ∷ after) × All (λ y. p y ≡ false) before × (p x ≡ true)

module _ {ℓ} {A : Type ℓ} where
  pub select-select :
      (p q : A → Bool) (xs : List A) → select p (select q xs) ≡ select (λ x. q x && p x) xs
  unfolding select
  select-select p q [] = refl
  select-select p q (x ∷ xs) = elim (Bool-cases (q x)) [
    | inl hit ↦ elim (Bool-cases (p x)) [
      | inl both ↦ rw (hit, both) (ap (λ ys. x ∷ ys) (select-select p q xs))
      | inr one ↦ rw (hit, one) (select-select p q xs)
    ]
    | inr miss ↦ rw miss (select-select p q xs)
  ]

  module _ (p : A → Bool) where
    pub select_none : (xs : List A) → select p xs ≡ [] → All (λ y. p y ≡ false) xs
    unfolding select
    select_none [] e = tt
    select_none (x ∷ xs) e = elim (Bool-cases (p x)) [
      | inl hit ↦ absurd (ground arith)
      | inr miss ↦ (miss, select_none xs (ground arith))
    ]

    pub none-select : (xs : List A) → All (λ y. p y ≡ false) xs → select p xs ≡ []
    unfolding select
    none-select [] h = refl
    none-select (x ∷ xs) h = rw (h.0) (none-select xs h.1)

    pub select_first :
        (xs : List A) (x : A) (rest : List A)
        → select p xs ≡ x ∷ rest
        → (after : List A) × FirstAt p x after xs × (select p after ≡ rest)
    unfolding select
    select_first [] x rest e = absurd (ground arith)
    select_first (y ∷ xs) x rest e = elim (Bool-cases (p y)) [
      | inl hit ↦ (xs, ([], ground arith, tt, ground arith), ground arith)
      | inr miss ↦
          let (after, (before, split, none, here), more) = select_first xs x rest (ground arith) in
          (after, (y ∷ before, ap (λ ys. y ∷ ys) split, (miss, none), here), more)
    ]

    pub first-select :
        (before after : List A) (x : A)
        → All (λ y. p y ≡ false) before
        → p x ≡ true
        → select p (before ++ x ∷ after) ≡ x ∷ select p after
    unfolding select
    first-select [] after x h e = rw e
    first-select (y ∷ before) after x h e = rw (h.0) (first-select before after x h.1 e)

  pub All-map {κ κ'} :
      (P : A → Type κ) (Q : A → Type κ')
      → ((x : A) → P x → Q x)
      → (xs : List A) → All P xs
      → All Q xs
  All-map P Q f [] h = tt
  All-map P Q f (x ∷ xs) h = (f x h.0, All-map P Q f xs h.1)

  pub any_at :
      (p : A → Bool) (xs : List A)
      → any p xs ≡ true
      → (before : List A) × (x : A) × (after : List A) × (xs ≡ before ++ x ∷ after) × (p x ≡ true)
  unfolding any
  any_at p [] e = absurd (ground arith)
  any_at p (x ∷ xs) e = elim (Bool-cases (p x)) [
    | inl hit ↦ ([], x, xs, refl, hit)
    | inr miss ↦
        let (before, y, after, split, here) = any_at p xs (ground arith) in
        (x ∷ before, y, after, ap (λ ys. x ∷ ys) split, here)
  ]

  pub at-any :
      (p : A → Bool) (before after : List A) (x : A)
      → p x ≡ true
      → any p (before ++ x ∷ after) ≡ true
  unfolding any
  at-any p [] after x e = rw e
  at-any p (y ∷ before) after x e = ground (arith, at-any p before after x e)

  pub All-split {κ} :
      (P : A → Type κ) (before after : List A) (x : A)
      → All P (before ++ x ∷ after)
      → All P before × P x × All P after
  All-split P [] after x h = (tt, h.0, h.1)
  All-split P (y ∷ before) after x h =
      let (b, here, a) = All-split P before after x h.1 in ((h.0, b), here, a)

  -- Two properties of all elements.
  pub All-both {κ κ'} :
      (P : A → Type κ) (Q : A → Type κ') (xs : List A)
      → All P xs
      → All Q xs
      → All (λ x. P x × Q x) xs
  All-both P Q [] h k = tt
  All-both P Q (x ∷ xs) h k = ((h.0, k.0), All-both P Q xs h.1 k.1)

  pub select-any : (p : A → Bool) (xs : List A) → leb 1 (length (select p xs)) ≡ any p xs
  unfolding select any
  select-any p [] = refl
  select-any p (x ∷ xs) = ground (arith, select-any p xs)
