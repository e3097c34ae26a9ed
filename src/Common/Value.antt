-- ===== src/Common/Value.antt =====
-- What `json.loads` gives, with the texts, numbers, arrays and objects that the programs tell apart.
use mathlib.Core.Path.{◌≡◌, refl}
use mathlib.Core.Bool.{Bool, true, false, ◌&&◌}
use mathlib.Core.Option.{Option, none, some}
use mathlib.Core.List.{List, [], ◌∷◌}
use Prim.Native.Nat.{ℕ}
use nas_platform.Common.Tests.{if◌then◌else◌}
use nas_platform.Common.Lists.{all, any}
use nas_platform.Common.Text.{Text, text_eq}

mutual
  pub data Value : Type 0 where
    null : Value
    bool : Bool → Value
    -- an int from zero on, a negative one, and a float
    natural : ℕ → Value
    negative : ℕ → Value
    fraction : Value
    text : Text → Value
    array : Items → Value
    object : Members → Value

  pub data Items : Type 0 where
    nil : Items
    item : Value → Items → Items

  pub data Members : Type 0 where
    end : Members
    member : Text → Value → Members → Members

-- v[k] of an object, `none` where there is no such key
unfoldable pub get : Text → Members → Option Value
get k end = none
get k (member j v rest) = if text_eq j k then some v else get k rest

abbrev pub keys : Members → List Text
keys end = []
keys (member k v rest) = k ∷ keys rest

-- set(v) == {names}
unfoldable pub has_keys : List Text → Members → Bool
unfolding all any text_eq
has_keys names members =
    all (λ k. any (text_eq k) names) (keys members)
    && all (λ n. any (text_eq n) (keys members)) names

-- A value of a kind, `none` where it is of another.
abbrev pub as_text : Value → Option Text
as_text (text s) = some s
as_text _ = none

abbrev pub as_natural : Value → Option ℕ
as_natural (natural n) = some n
as_natural _ = none

abbrev pub as_bool : Value → Option Bool
as_bool (bool b) = some b
as_bool _ = none

abbrev pub as_array : Value → Option Items
as_array (array items) = some items
as_array _ = none

abbrev pub as_object : Value → Option Members
as_object (object members) = some members
as_object _ = none

-- A raise is `none`.
infixl 5 ◌>>=◌ ◌>>◌
abbrev pub ◌>>=◌ {ℓ κ} : {A : Type ℓ} {B : Type κ} → Option A → (A → Option B) → Option B
none >>= f = none
some a >>= f = f a

abbrev pub ◌>>◌ {ℓ} : {B : Type ℓ} → Option (Unit {0}) → Option B → Option B
m >> k = m >>= λ _. k

abbrev pub require : Bool → Option (Unit {0})
require true = some tt
require false = none

pub >>=-eq-some {ℓ κ} :
    {A : Type ℓ} {B : Type κ} (m : Option A) (f : A → Option B) (b : B)
    → m >>= f ≡ some b
    → (a : A) × (m ≡ some a) × (f a ≡ some b)
>>=-eq-some none f b e = cc
>>=-eq-some (some a) f b e = (a, refl, e)

pub require-eq-some {κ} :
    {B : Type κ} (b : Bool) (m : Option B) (x : B)
    → (require b >> m) ≡ some x
    → (b ≡ true) × (m ≡ some x)
require-eq-some true m x e = (refl, e)
require-eq-some false m x e = cc
