-- ===== src/Deploy/Attempts/Record.antt =====
-- scripts/production_auto_deploy.py: what `record_attempt` and `forget_attempt` leave to be read.
use nas_platform.Common.{
  ℕ, zero, suc, ◌-◌, ◌≤◌, ◌≡◌, ◌≢◌, refl, ◌∙◌, Bool, true, false, Option, none, some, List, [], ◌∷◌,
  ◌++◌, map, arith, any, select, length, drop, drop-append, length-drop, length-append,
  length-select-le, Bool-cases, inl, inr,
}
use nas_platform.Common.Sort.{All}
use nas_platform.Common.Text.{Text, text_eq, text_eq_iff, text_eq_refl}
use nas_platform.Common.Words.{split_lines}
use nas_platform.Relay.Clock.{DateTime}
use nas_platform.Deploy.Ci.{is_sha, member}
use nas_platform.Deploy.Attempts.{
  Attempt, read_attempts, is_recent, kept_attempts, attempted_retention_count, timestamp,
  attempted_shas, others, record_attempt, forget_attempt,
}
use nas_platform.Deploy.Attempts.Stamp.{IsReading, is_recent-timestamp, timestamp-fits}
use nas_platform.Deploy.Attempts.Format.{
  IsEntry, IsFresh, read_attempts-attempts_text, read_lines-IsRecord,
}

-- A record: entries with distinct revisions.
abbrev IsRecord : List Attempt → Type 0
IsRecord xs = All IsEntry xs × IsFresh [] xs

read_attempts-IsRecord : (file : Option Text) → IsRecord (read_attempts file)
unfolding read_attempts
read_attempts-IsRecord none = (tt, tt)
read_attempts-IsRecord (some payload) = read_lines-IsRecord [] (split_lines payload)

-- Every revision of one list stands in another.
abbrev Within : List Text → List Text → Type 0
Within seen seen' = (k : Text) → member k seen' ≡ false → member k seen ≡ false

Within-cons :
    (x : Text) (seen seen' : List Text) → Within seen seen' → Within (x ∷ seen) (x ∷ seen')
unfolding member any
Within-cons x seen seen' w k h = ground (arith, w k)

Within-drop : (x : Text) (seen seen' : List Text) → Within seen seen' → Within seen (x ∷ seen')
unfolding member any
Within-drop x seen seen' w k h = ground (arith, w k)

-- A part of a record is one.
select-IsFresh :
    (p : Attempt → Bool) (seen seen' : List Text) (xs : List Attempt)
    → Within seen seen'
    → IsFresh seen' xs
    → IsFresh seen (select p xs)
unfolding select
select-IsFresh p seen seen' [] w h = tt
select-IsFresh p seen seen' (a ∷ xs) w h = elim (Bool-cases (p a)) [
  | inl hit ↦
      rw hit (
        w a.0 h.0,
        select-IsFresh p (a.0 ∷ seen) (a.0 ∷ seen') xs (Within-cons a.0 seen seen' w) h.1,
      )
  | inr miss ↦ rw miss (select-IsFresh p seen (a.0 ∷ seen') xs (Within-drop a.0 seen seen' w) h.1)
]

drop-IsFresh :
    (n : ℕ) (seen seen' : List Text) (xs : List Attempt)
    → Within seen seen'
    → IsFresh seen' xs
    → IsFresh seen (drop n xs)
drop-IsFresh zero seen seen' [] w h = tt
drop-IsFresh zero seen seen' (a ∷ xs) w h =
    (w a.0 h.0, drop-IsFresh zero (a.0 ∷ seen) (a.0 ∷ seen') xs (Within-cons a.0 seen seen' w) h.1)
drop-IsFresh (suc n) seen seen' [] w h = tt
drop-IsFresh (suc n) seen seen' (a ∷ xs) w h =
    drop-IsFresh n seen (a.0 ∷ seen') xs (Within-drop a.0 seen seen' w) h.1

select-All : (p : Attempt → Bool) (xs : List Attempt) → All IsEntry xs → All IsEntry (select p xs)
unfolding select
select-All p [] h = tt
select-All p (a ∷ xs) h = elim (Bool-cases (p a)) [
  | inl hit ↦ rw hit (h.0, select-All p xs h.1)
  | inr miss ↦ rw miss (select-All p xs h.1)
]

drop-All : (n : ℕ) (xs : List Attempt) → All IsEntry xs → All IsEntry (drop n xs)
drop-All zero xs h = h
drop-All (suc n) [] h = tt
drop-All (suc n) (a ∷ xs) h = drop-All n xs h.1

others-IsRecord : (sha : Text) (xs : List Attempt) → IsRecord xs → IsRecord (others sha xs)
others-IsRecord sha xs h = (select-All _ xs h.0, select-IsFresh _ [] [] xs (λ k e. e) h.1)

kept_attempts-IsRecord :
    (now : DateTime) (xs : List Attempt) → IsRecord xs → IsRecord (kept_attempts now xs)
unfolding kept_attempts
kept_attempts-IsRecord now xs h =
    let n = length xs - attempted_retention_count in
    (
      select-All _ (drop n xs) (drop-All n xs h.0),
      select-IsFresh _ [] [] (drop n xs) (λ k e. e) (drop-IsFresh n [] [] xs (λ k e. e) h.1),
    )

apart :
    (x sha : Text) (seen : List Text)
    → text_eq x sha ≡ false
    → member sha seen ≡ false
    → member sha (x ∷ seen) ≡ false
unfolding member any
apart x sha seen other new = ground (arith, text_eq_iff x sha, text_eq_iff sha x)

-- A revision that is filtered out may come again at the end.
append-IsFresh :
    (seen : List Text) (sha : Text) (stamp : Option Text) (xs : List Attempt)
    → member sha seen ≡ false
    → IsFresh seen (others sha xs)
    → IsFresh seen (others sha xs ++ (sha, stamp) ∷ [])
unfolding select
append-IsFresh seen sha stamp [] new h = (new, tt)
append-IsFresh seen sha stamp (a ∷ xs) new h = elim (Bool-cases (text_eq a.0 sha)) [
  | inl same ↦ rw same (append-IsFresh seen sha stamp xs new (rw same at h))
  | inr other ↦
      let h' = rw other at h in
      rw other (h'.0, append-IsFresh (a.0 ∷ seen) sha stamp xs (apart a.0 sha seen other new) h'.1)
]

-- The entries that are left when one is recorded.
abbrev recorded : List Attempt → Text → DateTime → List Attempt
recorded xs sha now = others sha xs ++ (sha, some (timestamp now)) ∷ []

append-All :
    (a : Attempt) (xs : List Attempt) → All IsEntry xs → IsEntry a → All IsEntry (xs ++ a ∷ [])
append-All a [] h e = (e, tt)
append-All a (x ∷ xs) h e = (h.0, append-All a xs h.1 e)

recorded-IsRecord :
    (xs : List Attempt) (sha : Text) (now : DateTime)
    → IsRecord xs
    → is_sha sha ≡ true
    → IsRecord (recorded xs sha now)
recorded-IsRecord xs sha now h named =
    let rest = others-IsRecord sha xs h in
    (
      append-All (sha, some (timestamp now)) (others sha xs) rest.0 (named, timestamp-fits now),
      append-IsFresh [] sha (some (timestamp now)) xs (unfold member any in refl) rest.1,
    )

select-last :
    (p : Attempt → Bool) (xs : List Attempt) (a : Attempt)
    → p a ≡ true
    → select p (xs ++ a ∷ []) ≡ select p xs ++ a ∷ []
unfolding select
select-last p [] a h = rw h refl
select-last p (x ∷ xs) a h = ground (arith, select-last p xs a h)

-- A last entry that is recent is kept.
kept_attempts-last :
    (now : DateTime) (xs : List Attempt) (a : Attempt)
    → is_recent now a.1 ≡ true
    → kept_attempts now (xs ++ a ∷ [])
      ≡ select
          (λ b. is_recent now b.1)
          (drop (length (xs ++ a ∷ []) - attempted_retention_count) xs)
        ++ a ∷ []
unfolding kept_attempts
kept_attempts-last now xs a h =
    let n = length (xs ++ a ∷ []) - attempted_retention_count in
    rw (drop-append n xs (a ∷ []) (omega (arith, length-append xs (a ∷ []))))
      (select-last (λ b. is_recent now b.1) (drop n xs) a h)

abbrev shas : List Attempt → List Text
shas xs = map (λ a. a.0) xs

member-last : (xs : List Attempt) (a : Attempt) → member a.0 (shas (xs ++ a ∷ [])) ≡ true
unfolding member any
member-last [] a = rw (text_eq_refl a.0) refl
member-last (x ∷ xs) a = ground (arith, member-last xs a)

member-others_self : (sha : Text) (xs : List Attempt) → member sha (shas (others sha xs)) ≡ false
unfolding member any select
member-others_self sha [] = refl
member-others_self sha (a ∷ xs) =
    ground (arith, member-others_self sha xs, text_eq_iff a.0 sha, text_eq_iff sha a.0)

member-others :
    (sha k : Text) (xs : List Attempt)
    → k ≢ sha
    → member k (shas (others sha xs)) ≡ member k (shas xs)
unfolding member any select
member-others sha k [] ne = refl
member-others sha k (a ∷ xs) ne =
    ground (arith, member-others sha k xs ne, text_eq_iff a.0 sha, text_eq_iff k a.0)

length-kept_attempts-le :
    (now : DateTime) (xs : List Attempt) → length (kept_attempts now xs) ≤ attempted_retention_count
unfolding kept_attempts
length-kept_attempts-le now xs =
    let n = length xs - attempted_retention_count in
    omega (arith, length-select-le (λ a. is_recent now a.1) (drop n xs), length-drop n xs)

module _ (file : Option Text) (sha : Text) where
  read-record_attempt :
      (now : DateTime)
      → is_sha sha ≡ true
      → read_attempts (some (record_attempt file sha now))
        ≡ kept_attempts now (recorded (read_attempts file) sha now)
  unfolding record_attempt
  read-record_attempt now named =
      let r =
        kept_attempts-IsRecord now (recorded (read_attempts file) sha now)
          (recorded-IsRecord (read_attempts file) sha now (read_attempts-IsRecord file) named) in
      read_attempts-attempts_text (kept_attempts now (recorded (read_attempts file) sha now)) r.0
        r.1

  -- Whatever the file held, an attempt that is recorded is among those that the next poll reads, and
  -- there are at most fifty of them; so a crash behind it is no retry loop.
  pub record_attempt-attempted_shas :
      (now : DateTime)
      → is_sha sha ≡ true
      → IsReading now
      → (member sha (attempted_shas (some (record_attempt file sha now))) ≡ true)
        × (length (read_attempts (some (record_attempt file sha now))) ≤ attempted_retention_count)
  unfolding attempted_shas
  record_attempt-attempted_shas now named reading =
      let e = read-record_attempt now named in
      let a : Attempt = (sha, some (timestamp now)) in
      let last =
        kept_attempts-last now (others sha (read_attempts file)) a
          (is_recent-timestamp now reading) in
      (
        rw (e ∙ last) (
            member-last
              (select (λ b. is_recent now b.1)
                (drop (length (recorded (read_attempts file) sha now) - attempted_retention_count)
                  (others sha (read_attempts file))))
              a),
        rw e (length-kept_attempts-le now (recorded (read_attempts file) sha now)),
      )

  -- A revision that is forgotten is not among the attempted ones, and no other is lost or gained.
  pub forget_attempt-attempted_shas :
      (member sha (attempted_shas (some (forget_attempt file sha))) ≡ false)
      × ((k : Text)
          → k ≢ sha
          → member k (attempted_shas (some (forget_attempt file sha)))
            ≡ member k (attempted_shas file))
  unfolding attempted_shas forget_attempt
  forget_attempt-attempted_shas =
      let r = others-IsRecord sha (read_attempts file) (read_attempts-IsRecord file) in
      let e = read_attempts-attempts_text (others sha (read_attempts file)) r.0 r.1 in
      (
        rw e (member-others_self sha (read_attempts file)),
        λ k ne. rw e (member-others sha k (read_attempts file) ne),
      )
