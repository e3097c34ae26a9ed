-- ===== src/Gate/Wait.antt =====
-- services/downloaders/clamav_gate.py: the wait for clamd ends.
use nas_platform.Common.{
  ℕ, zero, suc, ◌+◌, ◌*◌, ◌≤◌, ◌<◌, true, ◌≡◌, ◌≢◌, inl, inr, arith, Bool-cases,
}
use nas_platform.Gate.{
  Settings, Job, has_pong, ready, out_of_rounds, await_from, await_clamd, enough_rounds,
}

-- The sleep of every round shows on the clock.
abbrev pub Advances : Job → Type 0
Advances job = (n : ℕ) → job.start + 5 * n ≤ job.clock n

module _ (settings : Settings) (job : Job) where
  await_from-ends :
      Advances job
      → (rounds n : ℕ) → settings.ready_timeout < rounds + n
      → settings.ready_timeout < suc (rounds + n)
      → 0 < rounds
      → await_from settings job rounds n ≢ out_of_rounds
  unfolding await_from
  await_from-ends ticks zero n enough _ some_left = absurd (omega arith)
  await_from-ends ticks (suc zero) n enough _ some_left = ground (arith, ticks n)
  await_from-ends ticks (suc (suc rounds)) n enough _ some_left =
      ground (
        arith,
        await_from-ends ticks (suc rounds) (suc n) (omega arith) (omega arith) (omega arith),
      )

  await_from-ready :
      (rounds n : ℕ)
      → await_from settings job rounds n ≡ ready
      → (m : ℕ) × (has_pong (job.ping m) ≡ true)
  unfolding await_from
  await_from-ready zero n e = absurd (cc)
  await_from-ready (suc rounds) n e = elim (Bool-cases (has_pong (job.ping n))) [
    | inl pong ↦ (n, pong)
    | inr silent ↦ await_from-ready rounds (suc n) (ground arith)
  ]

  -- Where clamd never answers, the wait for it comes to an end all the same, after at most one
  -- round more than the timeout has seconds; and it ends well only by a PONG.
  pub await_clamd-ends :
      Advances job
      → (await_clamd settings job (enough_rounds settings) ≢ out_of_rounds)
        × (await_clamd settings job (enough_rounds settings) ≡ ready
            → (n : ℕ) × (has_pong (job.ping n) ≡ true))
  unfolding await_clamd
  await_clamd-ends ticks = (
    await_from-ends ticks (enough_rounds settings) 0 (omega arith) (omega arith) (omega arith),
    await_from-ready (enough_rounds settings) 0,
  )
