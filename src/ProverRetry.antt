-- ===== src/ProverRetry.antt =====
-- crates/eez-composer/src/prover_retry.rs, with the errors of crates/eez-prover and the targets of
-- crates/eez-l1/src/submitter.rs: which transaction a proof failure names, and the retries of a proof.
-- A composition is the number of its entries. The clock and the prover are parameters: a `Round` is
-- what one attempt meets, on the clock of milliseconds.
pub mod Ends
use eez_rollup.Base.{
  ℕ, ◌+◌, ◌-◌, ◌*◌, ◌/◌, ◌%◌, ◌^◌, min, List, [], ◌∷◌, Bool, true, false, not, ltb, leb, ◌==◌, ◌&&◌,
  ◌||◌, if◌then◌else◌, Option, none, some,
}
use eez_rollup.Base.Results.{Result, ok, err, ◌>>=◌}
use eez_rollup.HeldPool.{HeldTx, Direction, inbound, outbound, dir_eq}
use eez_rollup.Timing.{RollupTiming, u64_max}

abbrev pub initial_prover_retry_backoff_ms : ℕ
initial_prover_retry_backoff_ms = 100

abbrev pub max_prover_retry_backoff_ms : ℕ
max_prover_retry_backoff_ms = 1000

-- An index and a hash.
pub data ActionableProverFailure : Type 0 where
  outbound_failure inbound_failure : ℕ → ℕ → ActionableProverFailure

pub data RetryableProverError : Type 0 where
  unavailable deadline_exceeded aborted : RetryableProverError

pub data ProverError : Type 0 where
  backend : ProverError
  actionable : ActionableProverFailure → ProverError
  retryable : RetryableProverError → ProverError

abbrev pub retryable_kind : ProverError → Option RetryableProverError
retryable_kind backend = none
retryable_kind (actionable f) = none
retryable_kind (retryable k) = some k

pub data BundleTarget : Type 0 where
  next_block : BundleTarget
  exact_block : ℕ → BundleTarget
  -- block, timestamp
  exact : ℕ → ℕ → BundleTarget

-- The hash of the composition that owns the entry.
unfoldable pub owner_of : ℕ → List (ℕ × ℕ) → Option ℕ
owner_of index [] = none
owner_of index ((entry_count, held_hash) ∷ compositions) =
    let rest = owner_of (index - entry_count) compositions in
    if ltb index entry_count then some held_hash else rest

unfoldable pub find_tx : Direction → ℕ → List HeldTx → Option HeldTx
find_tx d hash [] = none
find_tx d hash (tx ∷ txs) =
    let rest = find_tx d hash txs in
    if dir_eq tx.direction d && tx.hash == hash then some tx else rest

abbrev pub find_owned : Option ℕ → List HeldTx → Option HeldTx
find_owned none survivors = none
find_owned (some hash) survivors = find_tx inbound hash survivors

unfoldable pub actionable_held_tx :
    ActionableProverFailure → List HeldTx → ℕ → List (ℕ × ℕ) → Option HeldTx
actionable_held_tx (outbound_failure index hash) survivors outbound_entry_count compositions =
    find_tx outbound hash survivors
actionable_held_tx (inbound_failure index hash) survivors outbound_entry_count compositions =
    if ltb index (1 + outbound_entry_count)
    then none
    else find_owned (owner_of (index - (1 + outbound_entry_count)) compositions) survivors

abbrev pub is_retryable : HeldTx → HeldTx → Bool
is_retryable poison tx =
    not (tx.sender == poison.sender)
    || (not (dir_eq tx.direction poison.direction) || ltb tx.nonce poison.nonce)

unfoldable pub partition_retryable : List HeldTx → HeldTx → List HeldTx × List HeldTx
partition_retryable [] poison = ([], [])
partition_retryable (tx ∷ txs) poison =
    let rest = partition_retryable txs poison in
    if is_retryable poison tx then (tx ∷ rest.0, rest.1) else (rest.0, tx ∷ rest.1)

unfoldable pub proof_start_cutoff_ms : RollupTiming → BundleTarget → Option ℕ
proof_start_cutoff_ms timing next_block = none
proof_start_cutoff_ms timing (exact_block b) = none
proof_start_cutoff_ms timing (exact b timestamp) =
    some (min (timestamp * 1000) u64_max - timing.submission_slack_ms - timing.proof_time_ms)

unfoldable pub prover_retry_backoff_with_seed : ℕ → ℕ → ℕ
prover_retry_backoff_with_seed failed_attempt jitter_seed =
    let shift = min (failed_attempt - 1) 31 in
    let base_ms = min (initial_prover_retry_backoff_ms * 2 ^ shift) max_prover_retry_backoff_ms in
    let jitter = base_ms / 5 in base_ms - jitter + jitter_seed % (jitter * 2 + 1)

abbrev pub budget_until : ℕ → ℕ → Result ProverError ℕ
budget_until cutoff_ms now_ms =
    if ltb cutoff_ms now_ms then err (retryable deadline_exceeded) else ok (cutoff_ms - now_ms)

unfoldable pub retry_budget : RollupTiming → BundleTarget → ℕ → Result ProverError ℕ
retry_budget timing target now_ms = elim (proof_start_cutoff_ms timing target) [
  | none ↦ ok timing.proof_time_ms
  | some cutoff_ms ↦ budget_until cutoff_ms now_ms
]

-- One attempt: what the prover answers and how long it takes, the jitter, and when the answer and
-- the end of the sleep come.
pub record Round (Proof : Type 0) : Type 0 where
  pub answer : Result ProverError Proof
  pub took_ms : ℕ
  pub jitter_seed : ℕ
  pub answered_at : ℕ
  pub woke_at : ℕ

abbrev pub attempt_timeout : RollupTiming → BundleTarget → ℕ → ℕ → ℕ
attempt_timeout timing next_block deadline now = deadline - now
attempt_timeout timing (exact_block b) deadline now = deadline - now
attempt_timeout timing (exact b t) deadline now = timing.proof_time_ms

module _ {Proof : Type 0} where
  unfoldable pub timed : ℕ → Round Proof → Result ProverError Proof
  timed limit r = if ltb limit r.took_ms then err (retryable deadline_exceeded) else r.answer

  abbrev pub wake_at : ℕ → Round Proof → ℕ
  wake_at attempt r = r.answered_at + prover_retry_backoff_with_seed attempt r.jitter_seed

  -- After a failed attempt; `rest` is what the next attempts give.
  abbrev pub after_failure :
      ℕ
      → ℕ
      → Round Proof
      → Option (Result ProverError Proof)
      → ProverError
      → Option (Result ProverError Proof)
  after_failure deadline attempt r rest e = elim (retryable_kind e) [
    | none ↦ some (err e)
    | some kind ↦ elim (leb deadline (wake_at attempt r) || leb deadline r.woke_at) [
      | true ↦ some (err e)
      | false ↦ rest
    ]
  ]

  -- The loop; `none` is that the rounds given are too few.
  unfoldable pub retry_loop :
      RollupTiming
      → BundleTarget
      → ℕ
      → ℕ
      → ℕ
      → List (Round Proof)
      → Option (Result ProverError Proof)
  retry_loop timing target deadline now attempt [] = none
  retry_loop timing target deadline now attempt (r ∷ rounds) =
      let rest = retry_loop timing target deadline r.woke_at (attempt + 1) rounds in
      elim (timed (attempt_timeout timing target deadline now) r) [
        | ok proof ↦ some (ok proof)
        | err e ↦ after_failure deadline attempt r rest e
      ]

  -- `now_ms` is the wall clock, `started` the clock of the rounds.
  unfoldable pub prove_with_retry_at :
      RollupTiming → BundleTarget → ℕ → ℕ → List (Round Proof) → Option (Result ProverError Proof)
  prove_with_retry_at timing target now_ms started rounds =
      elim (retry_budget timing target now_ms) [
        | err e ↦ some (err e)
        | ok budget ↦ retry_loop timing target (started + budget) started 1 rounds
      ]
