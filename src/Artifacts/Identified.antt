-- ===== src/Artifacts/Identified.antt =====
-- filter_plugins/vault_artifact_identity.py: what two equal identifiers say of the selected files.
use nas_platform.Common.{
  ℕ, ◌≡◌, ◌≢◌, ◌⊎◌, refl, sym, ap, ◌∙◌, inl, inr, Bool, false, not, some, List, [], ◌∷◌, ◌++◌, ◌==◌,
  leb, length, any, arith, Bool-cases, ==→eq,
}
use mathlib.Core.Option.{some-injective}
use mathlib.Core.Path.{subst}
use nas_platform.Common.Text.{Text, codes, text_eq, text_eq_iff, text_eq→eq, is_surrogate}
use nas_platform.Common.Sort.{All, All-sorted}
use nas_platform.Common.Value.{Value, get, as_text, as_object, ◌>>=◌, >>=-eq-some, require-eq-some}
use nas_platform.Artifacts.{
  is_checksum, entry_of, entries_of, distinct_names, entry_lt, utf8_bytes, utf8, hashed, selection,
  vault_artifact_identity,
}

utf8_bytes-same :
    (c d : ℕ) (r s : List ℕ) → utf8_bytes c ++ r ≡ utf8_bytes d ++ s → (c ≡ d) × (r ≡ s)
unfolding utf8_bytes
utf8_bytes-same c d r s e = ground arith

utf8_bytes-not_nul : (c : ℕ) (r s : List ℕ) → (c == 0) ≡ false → 0 ∷ r ≡ utf8_bytes c ++ s → ⊥
unfolding utf8_bytes
utf8_bytes-not_nul c r s h e = ground arith

append_assoc : (xs ys zs : List ℕ) → (xs ++ ys) ++ zs ≡ xs ++ (ys ++ zs)
append_assoc [] ys zs = refl
append_assoc (x ∷ xs) ys zs = ap (λ l. x ∷ l) (append_assoc xs ys zs)

append_same : (xs ys r s : List ℕ) → length xs ≡ length ys → xs ++ r ≡ ys ++ s → (xs ≡ ys) × (r ≡ s)
append_same [] [] r s l e = (refl, e)
append_same [] (y ∷ ys) r s l e = absurd (ground arith)
append_same (x ∷ xs) [] r s l e = absurd (ground arith)
append_same (x ∷ xs) (y ∷ ys) r s l e =
    let (same, rest) = append_same xs ys r s (ground arith) (ground arith) in (ground arith, rest)

abbrev is_nul : ℕ → Bool
is_nul c = c == 0

-- No basename of a filesystem holds a NUL.
abbrev pub IsBasename : Text × Text → Type 0
IsBasename q = any is_nul q.0 ≡ false

abbrev IsRecord : Text × Text → Type 0
IsRecord q = IsBasename q × (length q.1 ≡ 64)

-- A name, a NUL and what follows can be read off the bytes.
utf8-same :
    (m n : Text) (a b r s : List ℕ)
    → any is_nul m ≡ false
    → any is_nul n ≡ false
    → utf8 m ≡ some a
    → utf8 n ≡ some b
    → a ++ 0 ∷ r ≡ b ++ 0 ∷ s
    → (m ≡ n) × (r ≡ s)
unfolding utf8 any
utf8-same [] [] a b r s hm hn ea eb e = (refl, ground arith)
utf8-same [] (d ∷ n) a b r s hm hn ea eb e =
    let (valid, eb1) = require-eq-some (not (is_surrogate d)) _ b eb in
    let (rest, eb2, eb3) = >>=-eq-some (utf8 n) _ b eb1 in
    absurd (
      utf8_bytes-not_nul d r (rest ++ 0 ∷ s) (ground arith) (
        ap (λ l. l ++ 0 ∷ r) (some-injective _ _ ea)
        ∙ e
        ∙ ap (λ l. l ++ 0 ∷ s) (sym (some-injective _ _ eb3))
        ∙ append_assoc (utf8_bytes d) rest (0 ∷ s)))
utf8-same (c ∷ m) [] a b r s hm hn ea eb e =
    let (valid, ea1) = require-eq-some (not (is_surrogate c)) _ a ea in
    let (rest, ea2, ea3) = >>=-eq-some (utf8 m) _ a ea1 in
    absurd (
      utf8_bytes-not_nul c s (rest ++ 0 ∷ r) (ground arith) (
        ap (λ l. l ++ 0 ∷ s) (some-injective _ _ eb)
        ∙ sym e
        ∙ ap (λ l. l ++ 0 ∷ r) (sym (some-injective _ _ ea3))
        ∙ append_assoc (utf8_bytes c) rest (0 ∷ r)))
utf8-same (c ∷ m) (d ∷ n) a b r s hm hn ea eb e =
    let (valid, ea1) = require-eq-some (not (is_surrogate c)) _ a ea in
    let (xs, ea2, ea3) = >>=-eq-some (utf8 m) _ a ea1 in
    let (valid', eb1) = require-eq-some (not (is_surrogate d)) _ b eb in
    let (ys, eb2, eb3) = >>=-eq-some (utf8 n) _ b eb1 in
    let (head, tail) = utf8_bytes-same c d (xs ++ 0 ∷ r) (ys ++ 0 ∷ s) (
      sym (append_assoc (utf8_bytes c) xs (0 ∷ r))
      ∙ ap (λ l. l ++ 0 ∷ r) (some-injective _ _ ea3)
      ∙ e
      ∙ ap (λ l. l ++ 0 ∷ s) (sym (some-injective _ _ eb3))
      ∙ append_assoc (utf8_bytes d) ys (0 ∷ s)) in
    let (names, rest) = utf8-same m n xs ys r s (ground arith) (ground arith) ea2 eb2 tail in
    (cc (head, names), rest)

-- Something is hashed where there is a record.
hashed-not_nil :
    (n c : Text) (fs : List (Text × Text)) (b : List ℕ)
    → length c ≡ 64
    → hashed [] ≡ some b
    → hashed ((n, c) ∷ fs) ≡ some b
    → ⊥
unfolding hashed
hashed-not_nil n c fs b l e f =
    let (u, eu, f1) = >>=-eq-some (utf8 n) _ b f in
    let (x, ex, f2) = >>=-eq-some (hashed fs) _ b f1 in
    not_nil u (c ++ 0 ∷ x) (some-injective _ _ f2 ∙ sym (some-injective _ _ e))
  where
    not_nil : (u r : List ℕ) → u ++ 0 ∷ r ≡ [] → ⊥
    not_nil [] r e = cc
    not_nil (x ∷ u) r e = cc

hashed-same :
    (es fs : List (Text × Text)) (b : List ℕ)
    → All IsRecord es
    → All IsRecord fs
    → hashed es ≡ some b
    → hashed fs ≡ some b
    → es ≡ fs
unfolding hashed
hashed-same [] [] b he hf ee ef = refl
hashed-same [] ((n, c) ∷ fs) b he hf ee ef = absurd (hashed-not_nil n c fs b hf.0.1 ee ef)
hashed-same ((n, c) ∷ es) [] b he hf ee ef = absurd (hashed-not_nil n c es b he.0.1 ef ee)
hashed-same ((m, c) ∷ es) ((n, d) ∷ fs) b he hf ee ef =
    let (u, eu, e1) = >>=-eq-some (utf8 m) _ b ee in
    let (x, ex, e2) = >>=-eq-some (hashed es) _ b e1 in
    let (v, ev, f1) = >>=-eq-some (utf8 n) _ b ef in
    let (y, ey, f2) = >>=-eq-some (hashed fs) _ b f1 in
    let (names, rest) =
      utf8-same m n u v (c ++ 0 ∷ x) (d ++ 0 ∷ y) he.0.0 hf.0.0 eu ev
        (some-injective _ _ e2 ∙ sym (some-injective _ _ f2)) in
    let (sums, tail) = append_same c d (0 ∷ x) (0 ∷ y) (he.0.1 ∙ sym hf.0.1) rest in
    let same : x ≡ y = ground arith in
    let more = hashed-same es fs y he.1 hf.1 (rw (sym same) ex) ey in cc (names, sums, more)

entry_of-length : (file : Value) (q : Text × Text) → entry_of file ≡ some q → length q.1 ≡ 64
unfolding entry_of is_checksum
entry_of-length file q e =
    let (entry, e0, e1) = >>=-eq-some (as_object file) _ q e in
    let (path, e2, e3) = >>=-eq-some (get (codes "path") entry >>= as_text) _ q e1 in
    let (filled, e4) = require-eq-some (leb 1 (length path)) _ q e3 in
    let (checksum, e5, e6) = >>=-eq-some (get (codes "checksum") entry >>= as_text) _ q e4 in
    let (valid, e7) = require-eq-some (is_checksum checksum) _ q e6 in
    ap (λ r. length r.1) (sym (some-injective _ _ e7)) ∙ ==→eq (length checksum) 64 (ground arith)

entries_of-length :
    (files : List Value) (es : List (Text × Text))
    → entries_of files ≡ some es
    → All (λ q. length q.1 ≡ 64) es
unfolding entries_of
entries_of-length [] es e = subst (All (λ q. length q.1 ≡ 64)) (some-injective _ _ e) tt
entries_of-length (file ∷ files) es e =
    let (q, e0, e1) = >>=-eq-some (entry_of file) _ es e in
    let (more, e2, e3) = >>=-eq-some (entries_of files) _ es e1 in
    subst (All (λ r. length r.1 ≡ 64)) (some-injective _ _ e3)
      (entry_of-length file q e0, entries_of-length files more e2)

selection-length :
    (files : List Value) (es : List (Text × Text))
    → selection files ≡ some es
    → All (λ q. length q.1 ≡ 64) es
unfolding selection
selection-length files es e =
    let (filled, e0) = require-eq-some (leb 1 (length files)) _ es e in
    let (read, e1, e2) = >>=-eq-some (entries_of files) _ es e0 in
    let (distinct, e3) = require-eq-some (distinct_names read) _ es e2 in
    subst (All (λ q. length q.1 ≡ 64)) (some-injective _ _ e3)
      (All-sorted (λ q. length q.1 ≡ 64) entry_lt read (entries_of-length files read e1))

records :
    (es : List (Text × Text)) → All IsBasename es → All (λ q. length q.1 ≡ 64) es → All IsRecord es
records [] h l = tt
records (q ∷ es) h l = ((h.0, l.0), records es h.1 l.1)

-- What is hashed of a selection with an identifier.
identity-bytes :
    (sha256 : List ℕ → Text) (files : List Value) (es : List (Text × Text)) (d : Text)
    → selection files ≡ some es
    → vault_artifact_identity sha256 files ≡ some d
    → (b : List ℕ) × (hashed es ≡ some b) × (sha256 b ≡ d)
unfolding vault_artifact_identity
identity-bytes sha256 files es d s e =
    let (es', e0, e1) = >>=-eq-some (selection files) _ d e in
    let (b, e2, e3) = >>=-eq-some (hashed es') _ d e1 in
    let same : es' ≡ es = some-injective _ _ (sym e0 ∙ s) in
    (b, rw (sym same) e2, some-injective _ _ e3)

-- Two selections whose basenames hold no NUL and that get one identifier are the same basenames with
-- the same checksums, or two different inputs of SHA-256 have one digest.
pub vault_artifact_identity-same :
    (sha256 : List ℕ → Text) (files others : List Value) (es fs : List (Text × Text)) (d : Text)
    → selection files ≡ some es
    → selection others ≡ some fs
    → All IsBasename es
    → All IsBasename fs
    → vault_artifact_identity sha256 files ≡ some d
    → vault_artifact_identity sha256 others ≡ some d
    → (es ≡ fs) ⊎ ((a : List ℕ) × (b : List ℕ) × (a ≢ b) × (sha256 a ≡ sha256 b))
vault_artifact_identity-same sha256 files others es fs d se sf he hf ie io =
    let (a, ha, da) = identity-bytes sha256 files es d se ie in
    let (b, hb, db) = identity-bytes sha256 others fs d sf io in
    elim (Bool-cases (text_eq a b)) [
      | inl same ↦ inl (
          hashed-same es fs b (records es he (selection-length files es se))
            (records fs hf (selection-length others fs sf)) (rw (sym (text_eq→eq a b same)) ha) hb)
      | inr other ↦ inr (a, b, (λ e. ground (arith, (text_eq_iff a b).1 e)), da ∙ sym db)
    ]
