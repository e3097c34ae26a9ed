-- ===== src/Restore/Refusal.antt =====
-- services/immich/classify_restore.py: a refusal, as the value that a call ends with.
use nas_platform.Common.{Bool, true, false, ◌≡◌, refl}

-- The categories of `Refusal`. `crashed` is any other exception, for which `main` prints
-- "unsafe-storage" too.
pub data Category : Type 0 where
  unsafe_storage unsafe_originals unreadable_postgres_version postgres_major_mismatch : Category
  missing_safe_backup ambiguous_newest_backup incompatible_newest_backup : Category
  unsafe_newest_backup stale_newest_backup previous_failed_restore unsafe_restored_assets : Category
  crashed : Category

pub data Result {ℓ} (A : Type ℓ) : Type ℓ where
  ok : A → Result A
  refuse : Category → Result A

infixl 5 ◌>>=◌ ◌>>◌
abbrev pub ◌>>=◌ {ℓ κ} : {A : Type ℓ} {B : Type κ} → Result A → (A → Result B) → Result B
ok a >>= f = f a
refuse e >>= f = refuse e

abbrev pub ◌>>◌ {ℓ} : {B : Type ℓ} → Result (Unit {0}) → Result B → Result B
m >> k = m >>= λ _. k

-- if not test: raise Refusal(category)
abbrev pub require : Bool → Category → Result (Unit {0})
require true e = ok tt
require false e = refuse e

pub >>=-eq-ok {ℓ κ} :
    {A : Type ℓ} {B : Type κ} (m : Result A) (f : A → Result B) (b : B)
    → (m >>= f) ≡ ok b
    → (a : A) × (m ≡ ok a) × (f a ≡ ok b)
>>=-eq-ok (ok a) f b h = (a, refl, h)
>>=-eq-ok (refuse e) f b h = cc
