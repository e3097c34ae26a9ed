-- ===== src/Artifacts/Examples.antt =====
-- Tests of the identifier, and the theorem at two orders of the same files.
use nas_platform.Common.{ℕ, ◌≡◌, ◌≢◌, ◌⊎◌, refl, none, some, List, [], ◌∷◌, ◌++◌, any}
use nas_platform.Common.Sort.{All}
use nas_platform.Common.Text.{Text, codes}
use nas_platform.Common.Value.{Value, text, object, end, member}
use nas_platform.Artifacts.{utf8, selection, vault_artifact_identity}
use nas_platform.Artifacts.Identified.{IsBasename, vault_artifact_identity-same}

abbrev checksum_a : Text
checksum_a = codes "00112233445566778899aabbccddeeff00112233445566778899aabbccddeeff"

abbrev checksum_b : Text
checksum_b = codes "ffeeddccbbaa99887766554433221100ffeeddccbbaa99887766554433221100"

abbrev file_a : Value
file_a = object (
    member (codes "path") (text (codes "/vault/dozzle.yml"))
      (member (codes "checksum") (text checksum_a) end))

abbrev file_b : Value
file_b = object (
    member (codes "path") (text (codes "/vault/immich.yml"))
      (member (codes "checksum") (text checksum_b) end))

abbrev two_entries : List (Text × Text)
two_entries = (codes "dozzle.yml", checksum_a) ∷ (codes "immich.yml", checksum_b) ∷ []

-- A stand-in for SHA-256: the bytes themselves.
abbrev plain : List ℕ → Text
plain bytes = bytes

abbrev identifier : Text
identifier =
    codes "dozzle.yml" ++ 0 ∷ (checksum_a ++ 0 ∷ (codes "immich.yml" ++ 0 ∷ (checksum_b ++ 0 ∷ [])))

empty_selection : vault_artifact_identity plain [] ≡ none
unfolding vault_artifact_identity
empty_selection = refl

same_name : vault_artifact_identity plain (file_a ∷ file_a ∷ []) ≡ none
unfolding vault_artifact_identity
same_name = refl

selected : selection (file_a ∷ file_b ∷ []) ≡ some two_entries
unfolding selection
selected = refl

selected_late : selection (file_b ∷ file_a ∷ []) ≡ some two_entries
unfolding selection
selected_late = refl

identified : vault_artifact_identity plain (file_a ∷ file_b ∷ []) ≡ some identifier
unfolding vault_artifact_identity
identified = refl

identified_late : vault_artifact_identity plain (file_b ∷ file_a ∷ []) ≡ some identifier
unfolding vault_artifact_identity
identified_late = refl

accented :
    utf8 (0xe9 ∷ 0x20ac ∷ 0x1f600 ∷ [])
    ≡ some (0xc3 ∷ 0xa9 ∷ 0xe2 ∷ 0x82 ∷ 0xac ∷ 0xf0 ∷ 0x9f ∷ 0x98 ∷ 0x80 ∷ [])
unfolding utf8
accented = refl

two_entries-IsBasename : All IsBasename two_entries
unfolding any
two_entries-IsBasename = (refl, (refl, tt))

vault_artifact_identity-same_example :
    (two_entries ≡ two_entries) ⊎ ((a : List ℕ) × (b : List ℕ) × (a ≢ b) × (plain a ≡ plain b))
vault_artifact_identity-same_example =
    vault_artifact_identity-same plain (file_a ∷ file_b ∷ []) (file_b ∷ file_a ∷ []) two_entries
      two_entries identifier selected selected_late two_entries-IsBasename two_entries-IsBasename
      identified identified_late
