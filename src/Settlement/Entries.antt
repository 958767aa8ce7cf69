-- ===== src/Settlement/Entries.antt =====
-- crates/eez-protocol/src/abi.rs: the entries of a batch.
use eez_rollup.Base.{ℕ, List, Bool}

-- The `int192` is its bit pattern.
pub record RollupUpdate : Type 0 where
  pub rollup_id : ℕ
  pub ether_delta : ℕ
  pub current_root : ℕ
  pub new_root : ℕ

pub record L2ToL1Call : Type 0 where
  pub revert_next_n_calls : ℕ
  pub is_static : Bool
  pub gas : ℕ
  pub source_address : ℕ
  pub source_rollup_id : ℕ
  pub target_address : ℕ
  pub value : ℕ
  pub calldata : List ℕ

pub record ExpectedL1ToL2Call : Type 0 where
  pub expected_l1_to_l2_hash : ℕ
  pub l2_to_l1_calls : List L2ToL1Call
  pub reverted_or_static_rolling_hash : ℕ
  pub success : Bool
  pub return_data : List ℕ

pub record ExecutionEntry : Type 0 where
  pub rollup_updates : List RollupUpdate
  pub proxy_entry_hash : ℕ
  pub l2_to_l1_calls : List L2ToL1Call
  pub expected_l1_to_l2_calls : List ExpectedL1ToL2Call
  pub rolling_hash : ℕ
  pub destination_rollup_id : ℕ
  pub success : Bool
  pub return_data : List ℕ
