-- ===== src/Common/Json.antt =====
-- What `json.dumps(…, ensure_ascii=True, separators=(",", ":"))` writes for the values that the
-- programs store: texts, numbers, Booleans, objects and arrays of rendered parts.
use nas_platform.Common.Tests.{ltb, leb, ◌==◌, if◌then◌else◌}
use nas_platform.Common.Text.{Text, codes, decimal_text}
use Prim.Native.Nat.{ℕ, ◌+◌, ◌-◌, ◌/◌, ◌%◌}
use mathlib.Core.Bool.{Bool, ◌&&◌}
use mathlib.Core.List.{List, [], ◌∷◌, ◌++◌}

unfoldable pub hex_digit : ℕ → ℕ
hex_digit n = if ltb n 10 then b'0' + n else b'a' + (n - 10)

-- \uXXXX
unfoldable pub unicode_escape : ℕ → Text
unfolding hex_digit
unicode_escape c =
    codes "\\u"
    ++ hex_digit (c / 4096 % 16)
      ∷ hex_digit (c / 256 % 16)
      ∷ hex_digit (c / 16 % 16)
      ∷ hex_digit (c % 16)
      ∷ []

unfoldable pub json_character : ℕ → Text
unfolding unicode_escape
json_character c =
    if c == 0x22
    then codes "\\\""
    else if c == 0x5c
    then codes "\\\\"
    else if c == 0x0a
    then codes "\\n"
    else if c == 0x0d
    then codes "\\r"
    else if c == 0x09
    then codes "\\t"
    else if c == 0x0c
    then codes "\\f"
    else if c == 0x08
    then codes "\\b"
    else if leb 0x20 c && leb c 0x7e
    then c ∷ []
    else if ltb c 0x10000
    then unicode_escape c
    else unicode_escape (0xd800 + (c - 0x10000) / 0x400)
      ++ unicode_escape (0xdc00 + (c - 0x10000) % 0x400)

unfoldable pub json_characters : Text → Text
unfolding json_character
json_characters [] = []
json_characters (c ∷ s) = json_character c ++ json_characters s

unfoldable pub json_text : Text → Text
unfolding json_characters
json_text s = codes "\"" ++ (json_characters s ++ codes "\"")

unfoldable pub json_number : ℕ → Text
unfolding decimal_text
json_number n = decimal_text n

unfoldable pub json_bool : Bool → Text
json_bool b = if b then codes "true" else codes "false"

-- The rendered parts with a separator between them: separator.join(parts)
unfoldable pub join : Text → List Text → Text
join separator [] = []
join separator (s ∷ []) = s
join separator (s ∷ t ∷ rest) = s ++ (separator ++ join separator (t ∷ rest))

unfoldable pub json_array : List Text → Text
unfolding join
json_array parts = codes "[" ++ (join (codes ",") parts ++ codes "]")

unfoldable pub json_members : List (Text × Text) → List Text
unfolding json_text
json_members [] = []
json_members ((k, v) ∷ rest) = (json_text k ++ (codes ":" ++ v)) ∷ json_members rest

unfoldable pub json_object : List (Text × Text) → Text
unfolding json_members join
json_object members = codes "{" ++ (join (codes ",") (json_members members) ++ codes "}")
