-- ===== src/Artifacts.antt =====
-- filter_plugins/vault_artifact_identity.py: one identifier for the encrypted vault files that find has
-- selected. An AnsibleFilterError, or an encoding error, is `none`.
pub mod Identified
mod Examples
use nas_platform.Common.{
  ℕ, ◌+◌, ◌/◌, ◌%◌, Bool, true, false, not, ◌&&◌, ◌||◌, Option, none, some, List, [], ◌∷◌, ◌++◌,
  ltb, leb, ◌==◌, if◌then◌else◌, length, any, all, map,
}
use nas_platform.Common.Text.{Text, codes, text_eq, text_lt, is_digit, is_surrogate}
use nas_platform.Common.Sort.{sorted}
use nas_platform.Common.Value.{Value, get, as_text, as_object, ◌>>=◌, ◌>>◌, require}

-- os.path.basename: what follows the last slash
unfoldable pub after_slash : Text → Text → Text
after_slash kept [] = kept
after_slash kept (c ∷ s) = after_slash (if c == b'/' then s else kept) s

unfoldable pub is_hex_digit : ℕ → Bool
unfolding is_digit
is_hex_digit c = is_digit c || (leb b'a' c && leb c b'f')

unfoldable pub is_checksum : Text → Bool
unfolding all is_hex_digit
is_checksum s = length s == 64 && all is_hex_digit s

-- A basename and a checksum.
unfoldable pub entry_of : Value → Option (Text × Text)
unfolding get after_slash is_checksum
entry_of file = do
  entry ← as_object file
  path ← get (codes "path") entry >>= as_text
  require (leb 1 (length path))
  checksum ← get (codes "checksum") entry >>= as_text
  require (is_checksum checksum)
  some (after_slash path path, checksum)

unfoldable pub entries_of : List Value → Option (List (Text × Text))
unfolding entry_of
entries_of [] = some []
entries_of (file ∷ files) = do
  entry ← entry_of file
  entries ← entries_of files
  some (entry ∷ entries)

abbrev pub distinct_names : List (Text × Text) → Bool
distinct_names [] = true
distinct_names ((name, c) ∷ more) = not (any (λ q. text_eq name q.0) more) && distinct_names more

-- The order of Python's tuples.
unfoldable pub entry_lt : Text × Text → Text × Text → Bool
unfolding text_lt text_eq
entry_lt (name, checksum) (name', checksum') =
    text_lt name name' || (text_eq name name' && text_lt checksum checksum')

-- The bytes of one code point.
unfoldable pub utf8_bytes : ℕ → List ℕ
utf8_bytes c =
    if ltb c 0x80
    then c ∷ []
    else if ltb c 0x800
    then (0xc0 + c / 64) ∷ (0x80 + c % 64) ∷ []
    else if ltb c 0x10000
    then (0xe0 + c / 4096) ∷ (0x80 + c / 64 % 64) ∷ (0x80 + c % 64) ∷ []
    else (0xf0 + c / 262144) ∷ (0x80 + c / 4096 % 64) ∷ (0x80 + c / 64 % 64) ∷ (0x80 + c % 64) ∷ []

-- name.encode("utf-8")
unfoldable pub utf8 : Text → Option (List ℕ)
unfolding utf8_bytes is_surrogate
utf8 [] = some []
utf8 (c ∷ s) = do require (not (is_surrogate c)); rest ← utf8 s; some (utf8_bytes c ++ rest)

-- The bytes that are hashed: a NUL follows each name and each checksum.
unfoldable pub hashed : List (Text × Text) → Option (List ℕ)
unfolding utf8
hashed [] = some []
hashed ((name, checksum) ∷ more) = do
  bytes ← utf8 name
  rest ← hashed more
  some (bytes ++ 0 ∷ (checksum ++ 0 ∷ rest))

-- The selected files in the order in which they are hashed.
unfoldable pub selection : List Value → Option (List (Text × Text))
unfolding entries_of sorted entry_lt any text_eq
selection files = do
  require (leb 1 (length files))
  entries ← entries_of files
  require (distinct_names entries)
  some (sorted entry_lt entries)

-- `sha256` is the hexadecimal digest of Python's hashlib.
unfoldable pub vault_artifact_identity : (List ℕ → Text) → List Value → Option Text
unfolding selection hashed
vault_artifact_identity sha256 files = do
  entries ← selection files
  bytes ← hashed entries
  some (sha256 bytes)
