-- ===== src/Tests/ProverRetry.antt =====
-- crates/eez-composer/src/prover_retry.rs: two failed attempts and the one that succeeds.
use eez_rollup.Base.{ℕ, ◌≤◌, ◌≡◌, ◌≢◌, refl, [], ◌∷◌, none, some, arith}
use eez_rollup.Base.Results.{ok, err}
use eez_rollup.HeldPool.{HeldTx, inbound}
use eez_rollup.Timing.{RollupTiming}
use eez_rollup.ProverRetry.{
  retryable, unavailable, deadline_exceeded, next_block, exact, inbound_failure, Round, owner_of,
  find_tx, actionable_held_tx, partition_retryable, proof_start_cutoff_ms,
  prover_retry_backoff_with_seed, retry_budget, timed, retry_loop, prove_with_retry_at,
}
use eez_rollup.ProverRetry.Ends.{backoff_bounds, prove_with_retry_at-ends}

abbrev timing : RollupTiming
timing = record {
  l1_block_time_ms = 12000;
  l2_block_time_ms = 1000;
  proof_time_ms = 160;
  submission_slack_ms = 500;
}

abbrev fails : Round ℕ
fails = record {
  answer = err (retryable unavailable);
  took_ms = 10;
  jitter_seed = 0;
  answered_at = 10;
  woke_at = 90;
}

abbrev proves : Round ℕ
proves = record { answer = ok 42; took_ms = 20; jitter_seed = 0; answered_at = 110; woke_at = 300 }

proves_at_second : prove_with_retry_at timing next_block 0 0 (fails ∷ proves ∷ []) ≡ some (ok 42)
unfolding prove_with_retry_at retry_budget proof_start_cutoff_ms retry_loop timed
    prover_retry_backoff_with_seed
proves_at_second = refl

cutoff_passed :
    prove_with_retry_at timing (exact 5 12) 11341 0 (fails ∷ proves ∷ [])
    ≡ some (err (retryable deadline_exceeded))
unfolding prove_with_retry_at retry_budget proof_start_cutoff_ms
cutoff_passed = refl

abbrev tx_of : ℕ → ℕ → HeldTx
tx_of hash nonce = record {
  raw_tx = [];
  hash = hash;
  attempts = 0;
  sender = 1;
  nonce = nonce;
  direction = inbound;
  max_fee_per_gas = 0;
  priority_fee_per_gas = 0;
}

names_second_composition :
    actionable_held_tx
      (inbound_failure 4 0)
      (tx_of 50 0 ∷ tx_of 60 1 ∷ [])
      1
      ((2, 50) ∷ (1, 60) ∷ [])
    ≡ some (tx_of 60 1)
unfolding actionable_held_tx owner_of find_tx
names_second_composition = refl

keeps_lower_nonces :
    partition_retryable (tx_of 50 0 ∷ tx_of 60 1 ∷ tx_of 70 2 ∷ []) (tx_of 60 1)
    ≡ (tx_of 50 0 ∷ [], tx_of 60 1 ∷ tx_of 70 2 ∷ [])
unfolding partition_retryable
keeps_lower_nonces = refl

backoff_bounds_example :
    (80 ≤ prover_retry_backoff_with_seed 3 7) × (prover_retry_backoff_with_seed 3 7 ≤ 1200)
backoff_bounds_example = backoff_bounds 3 7

prove_with_retry_at-ends_example :
    prove_with_retry_at timing next_block 0 0 (fails ∷ proves ∷ []) ≢ none
unfolding retry_budget proof_start_cutoff_ms prover_retry_backoff_with_seed
prove_with_retry_at-ends_example =
    prove_with_retry_at-ends timing next_block 0 0 160 fails (proves ∷ []) refl
      (omega arith, omega arith, (omega arith, omega arith, tt)) (omega arith)
