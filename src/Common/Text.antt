-- ===== src/Common/Text.antt =====
-- Python's `str` as the list of its code points, and the tests that the programs make on texts.
use Prim.Native.Char.{code}
use Prim.Native.String.{String}
use Prim.Native.Nat.{ℕ, zero, suc, ◌+◌, ◌-◌, ◌*◌, ◌/◌, ◌%◌}
use mathlib.Core.Path.{◌≡◌, refl}
use mathlib.Core.Logic.{◌↔◌}
use mathlib.Core.Bool.{Bool, true, false, not, ◌&&◌, ◌||◌}
use mathlib.Core.List.{List, [], ◌∷◌}
use native.Mathlib.Omega.{arith}
use nas_platform.Common.Tests.{ltb, leb, ◌==◌, if◌then◌else◌, and_true, ==→eq, ==_refl}
use nas_platform.Common.Lists.{any}

abbrev pub Text : Type 0
Text = List ℕ

-- A quoted literal as code points.
abbrev pub codes : String → Text
codes String.[] = []
codes (String.◌∷◌ c s) = code c ∷ codes s

unfoldable pub text_eq : Text → Text → Bool
text_eq [] [] = true
text_eq (a ∷ s) (b ∷ t) = a == b && text_eq s t
text_eq _ _ = false

pub text_eq_refl : (s : Text) → text_eq s s ≡ true
unfolding text_eq
text_eq_refl [] = refl
text_eq_refl (a ∷ s) = ground (arith, ==_refl a, text_eq_refl s)

pub text_eq→eq : (s t : Text) → text_eq s t ≡ true → s ≡ t
unfolding text_eq
text_eq→eq [] [] h = refl
text_eq→eq [] (b ∷ t) h = cc
text_eq→eq (a ∷ s) [] h = cc
text_eq→eq (a ∷ s) (b ∷ t) h =
    let (p, q) = and_true (a == b) (text_eq s t) h in cc (==→eq a b p, text_eq→eq s t q)

-- `s < t` on `str`: the first code point that differs decides.
unfoldable pub text_lt : Text → Text → Bool
text_lt [] [] = false
text_lt [] (b ∷ t) = true
text_lt (a ∷ s) [] = false
text_lt (a ∷ s) (b ∷ t) = let rest = text_lt s t in if ltb a b then true else a == b && rest

-- s.startswith(t)
unfoldable pub starts_with : Text → Text → Bool
starts_with s [] = true
starts_with [] (b ∷ t) = false
starts_with (a ∷ s) (b ∷ t) = a == b && starts_with s t

-- s.endswith(t)
unfoldable pub ends_with : Text → Text → Bool
ends_with [] t = text_eq [] t
ends_with (a ∷ s) t = text_eq (a ∷ s) t || ends_with s t

unfoldable pub is_digit : ℕ → Bool
is_digit c = leb b'0' c && leb c b'9'

-- The value of a run of decimal digits.
unfoldable pub decimal : ℕ → Text → ℕ
decimal n [] = n
decimal n (c ∷ s) = decimal (n * 10 + (c - b'0')) s

-- The decimal digits of a number, the last one `k` rounds in; `suc n` rounds are enough for `n`.
unfoldable pub digits_from : ℕ → ℕ → Text → Text
digits_from zero n rest = rest
digits_from (suc k) n rest =
    let here = (b'0' + n % 10) ∷ rest in
    let more = digits_from k (n / 10) here in if ltb n 10 then here else more

-- str(n)
unfoldable pub decimal_text : ℕ → Text
decimal_text n = digits_from (suc n) n []

-- ord(character) < 0x20 or ord(character) == 0x7F
unfoldable pub is_control : ℕ → Bool
is_control c = ltb c 0x20 || c == 0x7f

-- A code point that `encode("utf-8")` refuses.
unfoldable pub is_surrogate : ℕ → Bool
is_surrogate c = leb 0xd800 c && leb c 0xdfff

unfoldable pub encodes_utf8 : Text → Bool
encodes_utf8 s = not (any is_surrogate s)

pub text_eq_iff : (s t : Text) → (text_eq s t ≡ true) ↔ (s ≡ t)
text_eq_iff s t = (text_eq→eq s t, λ e. rw e (text_eq_refl t))
