-- ===== src/Settlement/StateChain.antt =====
-- crates/eez-proof-signer/src/settlement/state_chain.rs: one update to each entry, for one rollup,
-- each from the root that the one before it leaves.
use eez_rollup.Base.{ℕ, ◌+◌, List, [], ◌∷◌, Bool, true, false, ◌==◌, length}
use eez_rollup.Base.Results.{Result, ok, err, ◌>>=◌}
use eez_rollup.Settlement.Entries.{RollupUpdate, ExecutionEntry}

pub data RollupUpdateChainError : Type 0 where
  no_entries : RollupUpdateChainError
  -- entry index, actual
  update_count : ℕ → ℕ → RollupUpdateChainError
  -- expected, claimed
  expected_rollup_mismatch : ℕ → ℕ → RollupUpdateChainError
  -- entry index, expected, claimed
  rollup_mismatch : ℕ → ℕ → ℕ → RollupUpdateChainError
  -- validated, claimed
  initial_block_mismatch : ℕ → ℕ → RollupUpdateChainError
  -- entry index, previous claimed candidate, next claimed predecessor
  chain_break : ℕ → ℕ → ℕ → RollupUpdateChainError
  -- validated, claimed
  final_mismatch : ℕ → ℕ → RollupUpdateChainError

pub record VerifiedEntry : Type 0 where
  pub claimed_entry : ExecutionEntry
  pub claimed_update : RollupUpdate

pub record VerifiedChain : Type 0 where
  pub expected_rollup : ℕ
  pub leading : VerifiedEntry
  pub trailing : List VerifiedEntry

abbrev pub ChainResult : Type 0 → Type 0
ChainResult A = Result RollupUpdateChainError A

abbrev pub require : Bool → RollupUpdateChainError → ChainResult (Unit {0})
require true e = ok tt
require false e = err e

unfoldable pub sole_update : List RollupUpdate → ℕ → ChainResult RollupUpdate
sole_update (u ∷ []) entry_index = ok u
sole_update [] entry_index = err (update_count entry_index 0)
sole_update (u ∷ v ∷ us) entry_index = err (update_count entry_index (length (u ∷ v ∷ us)))

abbrev pub verified : ExecutionEntry → RollupUpdate → VerifiedEntry
verified e u = record { claimed_entry = e; claimed_update = u }

-- The loop: the verified entries and the last claimed candidate.
unfoldable pub link_trailing :
    ℕ → ℕ → ℕ → List ExecutionEntry → ChainResult (List VerifiedEntry × ℕ)
link_trailing rollup index previous [] = ok ([], previous)
link_trailing rollup index previous (e ∷ es) = sole_update e.rollup_updates index >>= λ u.
    require (u.rollup_id == rollup) (rollup_mismatch index rollup u.rollup_id) >>= λ same_rollup.
    require (u.current_root == previous) (chain_break index previous u.current_root) >>= λ linked.
    link_trailing rollup (index + 1) u.new_root es >>= λ rest. ok (verified e u ∷ rest.0, rest.1)

unfoldable pub verify_state_update_chain :
    List ExecutionEntry → ℕ → ℕ → ℕ → ChainResult VerifiedChain
verify_state_update_chain [] rollup pre post = err no_entries
verify_state_update_chain (e ∷ es) rollup pre post = sole_update e.rollup_updates 0 >>= λ u.
    require (u.rollup_id == rollup) (expected_rollup_mismatch rollup u.rollup_id) >>= λ same_rollup.
    require (u.current_root == pre) (initial_block_mismatch pre u.current_root) >>= λ opens.
    link_trailing u.rollup_id 1 u.new_root es >>= λ rest.
    require (rest.1 == post) (final_mismatch post rest.1) >>= λ closes.
    ok (record { expected_rollup = rollup; leading = verified e u; trailing = rest.0 })
