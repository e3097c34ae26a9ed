-- ===== src/Prune/Lock.antt =====
-- scripts/image_prune.py: how `deployment_lock` waits for the lock. The clock is monotonic, in
-- nanoseconds.
use nas_platform.Common.{
  ℕ, zero, suc, ◌+◌, ◌*◌, ◌≤◌, ◌<◌, ◌≡◌, ◌⊎◌, inl, inr, Bool, true, false, leb, ltb, ◌==◌, ==→eq,
  leb→le, leb→lt, if◌then◌else◌, arith, Bool-cases,
}

-- Whether each attempt gets the lock, and what the clock reads after it.
pub record Attempts : Type 0 where
  pub start : ℕ
  pub locks : ℕ → Bool
  pub clock : ℕ → ℕ

abbrev pub second : ℕ
second = 1000000000

-- How the wait ends, and with which attempt.
pub data Wait : Type 0 where
  acquired : ℕ → Wait
  refused : ℕ → Wait
  out_of_rounds : Wait

-- The loop from the attempt `n`, for so many rounds at most; `seconds` is the time to wait.
unfoldable pub wait_from : Attempts → ℕ → ℕ → ℕ → Wait
wait_from a seconds zero n = out_of_rounds
wait_from a seconds (suc rounds) n =
    let later = wait_from a seconds rounds (suc n) in
    if a.locks n
    then acquired n
    else if leb (a.start + seconds * second) (a.clock n)
    then refused n
    else later

-- One round more than there are seconds, and one to see that the time is over.
unfoldable pub wait_for_lock : Attempts → ℕ → Wait
unfolding wait_from
wait_for_lock a seconds = wait_from a seconds (seconds + 2) 0

-- The sleep of each round shows on the clock: fifteen seconds, or what remains to the deadline.
abbrev pub Advances : Attempts → ℕ → Type 0
Advances a seconds =
    (a.start ≤ a.clock 0)
    × ((n : ℕ)
        → (a.start + seconds * second ≤ a.clock (suc n))
          ⊎ (a.clock n + 15 * second ≤ a.clock (suc n)))

-- No attempt before the `n`-th got the lock.
abbrev pub NoneBefore : Attempts → ℕ → Type 0
NoneBefore a n = (m : ℕ) → m < n → a.locks m ≡ false

-- The wait ends well with the first attempt that gets the lock, and ill only after the deadline.
abbrev pub IsEnd : Attempts → ℕ → Wait → Type 0
IsEnd a seconds (acquired n) = (a.locks n ≡ true) × NoneBefore a n
IsEnd a seconds (refused n) = NoneBefore a (suc n) × (a.start + seconds * second ≤ a.clock n)
IsEnd a seconds out_of_rounds = ⊥

module _ (a : Attempts) (seconds : ℕ) where
  none_to : (n : ℕ) → NoneBefore a n → a.locks n ≡ false → NoneBefore a (suc n)
  none_to n before here m less = elim (Bool-cases (m == n)) [
    | inl same ↦ rw (==→eq m n same) here
    | inr earlier ↦ before m (ground arith)
  ]

  -- The clock shows a second for each round, until the deadline is over.
  abbrev IsLate : ℕ → Type 0
  IsLate n = (a.start + n * second ≤ a.clock n) ⊎ (a.start + seconds * second ≤ a.clock n)

  next-IsLate :
      Advances a seconds
      → (n : ℕ) → IsLate n
      → ltb (a.clock n) (a.start + seconds * second) ≡ true
      → IsLate (suc n)
  next-IsLate ticks n late early = elim (ticks.1 n) [
    | inl over ↦ inr over
    | inr slept ↦ elim late [ inl steady ↦ inl (omega arith) | inr over ↦ absurd (ground arith) ]
  ]

  still :
      (n : ℕ) → IsLate n → leb (a.start + seconds * second) (a.clock n) ≡ false → suc n ≤ seconds
  still n (inl steady) early = omega (arith, leb→lt (a.start + seconds * second) (a.clock n) early)
  still n (inr over) early = absurd (ground arith)

  wait_from-IsEnd :
      Advances a seconds
      → (rounds n : ℕ) → IsLate n
      → n ≤ seconds
      → seconds < rounds + n
      → NoneBefore a n
      → IsEnd a seconds (wait_from a seconds rounds n)
  unfolding wait_from
  wait_from-IsEnd ticks zero n late within enough before = absurd (omega arith)
  wait_from-IsEnd ticks (suc rounds) n late within enough before = elim (Bool-cases (a.locks n)) [
    | inl got ↦ rw got (got, before)
    | inr missed ↦ elim (Bool-cases (leb (a.start + seconds * second) (a.clock n))) [
      | inl over ↦
          rw (missed, over)
            (none_to n before missed, leb→le (a.start + seconds * second) (a.clock n) over)
      | inr early ↦
          rw (missed, early)
            (wait_from-IsEnd ticks rounds (suc n) (next-IsLate ticks n late (ground arith))
              (still n late early) (omega arith) (none_to n before missed))
    ]
  ]

  -- The wait comes to an end; where it gets the lock, it is at the first attempt that could, and
  -- where it gives up, no attempt could and the time to wait is over.
  pub wait_for_lock-IsEnd : Advances a seconds → IsEnd a seconds (wait_for_lock a seconds)
  unfolding wait_for_lock
  wait_for_lock-IsEnd ticks =
      wait_from-IsEnd ticks (seconds + 2) 0 (inl (omega (arith, ticks.0))) (omega arith)
        (omega arith) (λ m less. absurd (omega arith))
