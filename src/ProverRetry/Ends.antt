-- ===== src/ProverRetry/Ends.antt =====
-- The backoff and the number of the retries.
use native.Mathlib.Nat.{mod-lt}
use eez_rollup.Base.{
  ℕ, zero, suc, ◌+◌, ◌-◌, ◌*◌, ◌/◌, ◌%◌, ◌^◌, ◌≤◌, ◌<◌, ◌≡◌, ◌≢◌, min, List, [], ◌∷◌, false, leb,
  ◌||◌, Bool-cases, length, Option, none, arith, inl, inr,
}
use eez_rollup.Base.Results.{Result, ok, Result-cases}
use eez_rollup.Timing.{RollupTiming}
use eez_rollup.ProverRetry.{
  ProverError, backend, actionable, retryable, BundleTarget, Round, prover_retry_backoff_with_seed,
  initial_prover_retry_backoff_ms, max_prover_retry_backoff_ms, timed, attempt_timeout, wake_at,
  after_failure, retry_loop, retry_budget, prove_with_retry_at,
}

pow_pos : (n : ℕ) → 1 ≤ 2 ^ n
pow_pos zero = omega arith
pow_pos (suc n) = omega (arith, pow_pos n)

jittered_bounds :
    (base seed : ℕ)
    → 100 ≤ base
    → base ≤ 1000
    → (80 ≤ base - base / 5 + seed % (base / 5 * 2 + 1))
      × (base - base / 5 + seed % (base / 5 * 2 + 1) ≤ 1200)
jittered_bounds base seed low high =
    let below : seed % (base / 5 * 2 + 1) < base / 5 * 2 + 1 = mod-lt seed (omega arith) in
    (omega (arith, below), omega (arith, below))

-- However often the proof has failed and whatever the jitter, the backoff is between 80 and 1200
-- milliseconds.
pub backoff_bounds :
    (failed_attempt jitter_seed : ℕ)
    → (80 ≤ prover_retry_backoff_with_seed failed_attempt jitter_seed)
      × (prover_retry_backoff_with_seed failed_attempt jitter_seed ≤ 1200)
unfolding prover_retry_backoff_with_seed
backoff_bounds failed_attempt jitter_seed =
    let positive = pow_pos (min (failed_attempt - 1) 31) in
    jittered_bounds
      (min (initial_prover_retry_backoff_ms * 2 ^ min (failed_attempt - 1) 31)
        max_prover_retry_backoff_ms)
      jitter_seed (omega (arith, positive)) (omega arith)

module _ {Proof : Type 0} where
  -- The clock does not go back, and no sleep is cut short.
  abbrev pub Timeline : ℕ → ℕ → List (Round Proof) → Type 0
  Timeline now attempt [] = Unit {0}
  Timeline now attempt (r ∷ rounds) =
      (now ≤ r.answered_at)
      × (wake_at attempt r ≤ r.woke_at)
      × Timeline r.woke_at (attempt + 1) rounds

  woke_before :
      (deadline attempt : ℕ) (r : Round Proof)
      → (leb deadline (wake_at attempt r) || leb deadline r.woke_at) ≡ false
      → r.woke_at < deadline
  woke_before deadline attempt r h = ground arith

  slept :
      (now attempt : ℕ) (r : Round Proof) (rounds : List (Round Proof))
      → Timeline now attempt (r ∷ rounds)
      → now + 80 ≤ r.woke_at
  slept now attempt r rounds t = omega (arith, t.0, t.1, (backoff_bounds attempt r.jitter_seed).0)

  after_failure-ne :
      (deadline attempt : ℕ) (r : Round Proof) (rest : Option (Result ProverError Proof))
      (e : ProverError)
      → (r.woke_at < deadline → rest ≢ none)
      → after_failure deadline attempt r rest e ≢ none
  after_failure-ne deadline attempt r rest backend more = λ p. cc
  after_failure-ne deadline attempt r rest (actionable f) more = λ p. cc
  after_failure-ne deadline attempt r rest (retryable k) more =
      elim (Bool-cases (leb deadline (wake_at attempt r) || leb deadline r.woke_at)) [
        | inl over ↦ rw (over, after_failure) (λ p. cc)
        | inr time_left ↦
            rw (time_left, after_failure) (more (woke_before deadline attempt r time_left))
      ]

  retry_loop-ne :
      (timing : RollupTiming) (target : BundleTarget) (deadline now attempt : ℕ) (r : Round Proof)
      (rounds : List (Round Proof))
      → Timeline now attempt (r ∷ rounds)
      → deadline ≤ now + 80 * (1 + length rounds)
      → retry_loop timing target deadline now attempt (r ∷ rounds) ≢ none
  unfolding retry_loop
  retry_loop-ne timing target deadline now attempt r [] t enough =
      elim (Result-cases (timed (attempt_timeout timing target deadline now) r)) [
        | inl (proof, proved) ↦ rw (proved, retry_loop) (λ p. cc)
        | inr (e, failed) ↦
            rw (failed, retry_loop)
              (after_failure-ne deadline attempt r _ e
                λ before. absurd (omega (arith, before, slept now attempt r [] t, enough)))
      ]
  retry_loop-ne timing target deadline now attempt r (r' ∷ rounds) t enough =
      elim (Result-cases (timed (attempt_timeout timing target deadline now) r)) [
        | inl (proof, proved) ↦ rw (proved, retry_loop) (λ p. cc)
        | inr (e, failed) ↦
            rw (failed, retry_loop)
              (after_failure-ne deadline attempt r _ e λ before.
                retry_loop-ne timing target deadline r.woke_at (attempt + 1) r' rounds t.2
                  (omega (arith, slept now attempt r (r' ∷ rounds) t, enough)))
      ]

  -- If the clock does not go back and no sleep is cut short, then proving with retries gives an
  -- answer within one attempt for each 80 milliseconds of the budget, one at least: the rounds of
  -- so many attempts are never used up without an answer.
  pub prove_with_retry_at-ends :
      (timing : RollupTiming) (target : BundleTarget) (now_ms started budget : ℕ) (r : Round Proof)
      (rounds : List (Round Proof))
      → retry_budget timing target now_ms ≡ ok budget
      → Timeline started 1 (r ∷ rounds)
      → budget ≤ 80 * (1 + length rounds)
      → prove_with_retry_at timing target now_ms started (r ∷ rounds) ≢ none
  unfolding prove_with_retry_at
  prove_with_retry_at-ends timing target now_ms started budget r rounds granted t enough =
      rw (granted, prove_with_retry_at)
        (retry_loop-ne timing target (started + budget) started 1 r rounds t
          (omega (arith, enough)))
