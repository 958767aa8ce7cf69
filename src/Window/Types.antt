-- ===== src/Window/Types.antt =====
-- The data of crates/eez-proof-signer/src/window.rs, of its wire messages, and of a stream.
use eez_rollup.Base.{ℕ, ◌-◌, ◌^◌, List, Bool, true, false, Option}

abbrev pub Bytes : Type 0
Bytes = List ℕ

abbrev pub usize_max : ℕ
usize_max = 2 ^ 64 - 1

pub record WindowLimits : Type 0 where
  pub blocks : ℕ
  pub payload_bytes : ℕ
  pub witness_items : ℕ

-- The messages of the wire; those of `prost` are structs of options and vectors.
pub record ExecutionWitness : Type 0 where
  pub state : List Bytes
  pub codes : List Bytes
  pub keys : List Bytes
  pub headers : List Bytes

pub record PostBatch : Type 0 where
  pub public_inputs_hash : Bytes
  pub l1_block_hash : Bytes
  pub abi_calldata : Bytes

pub record ProveHeader : Type 0 where
  pub rollup_id : ℕ
  pub from_block : ℕ
  pub to_block : ℕ
  pub post_batch : Option PostBatch

pub record BlockWitness : Type 0 where
  pub number : ℕ
  pub hash : Bytes
  pub parent_hash : Bytes
  pub rlp : Bytes
  pub witness : Option ExecutionWitness

pub data Kind : Type 0 where
  header : ProveHeader → Kind
  block : BlockWitness → Kind

pub record ProveChunk : Type 0 where
  pub kind : Option Kind

pub record AdmittedBlock : Type 0 where
  pub declared_number : ℕ
  pub claimed_hash : Bytes
  pub claimed_parent_hash : Bytes
  pub rlp : Bytes
  pub witness : ExecutionWitness

pub record AdmittedHeader : Type 0 where
  pub declared_from_block : ℕ
  pub declared_to_block : ℕ
  pub submitted_post_batch_calldata : Bytes

pub record AdmittedWindow : Type 0 where
  pub header : AdmittedHeader
  pub blocks : List AdmittedBlock

pub record ParsedHeader : Type 0 where
  pub claimed_rollup_id : ℕ
  pub admitted : AdmittedHeader
  pub declared_block_count : ℕ

-- The numbers of a message in the source's order.
pub data WindowError : Type 0 where
  empty_stream : WindowError
  block_before_header : ℕ → WindowError
  missing_kind : ℕ → WindowError
  duplicate_header : WindowError
  missing_post_batch : WindowError
  nonempty_l1_block_hash : ℕ → WindowError
  invalid_bounds : ℕ → ℕ → WindowError
  block_limit : ℕ → ℕ → ℕ → ℕ → WindowError
  payload_limit : ℕ → ℕ → WindowError
  witness_item_limit : ℕ → ℕ → WindowError
  storage_limit : ℕ → WindowError
  extra_block : ℕ → WindowError
  wrong_block_number : ℕ → ℕ → ℕ → WindowError
  block_hash_length : ℕ → ℕ → WindowError
  parent_hash_length : ℕ → ℕ → WindowError
  missing_witness : ℕ → WindowError
  chain_break : ℕ → ℕ → Bytes → Bytes → WindowError
  incomplete : ℕ → ℕ → ℕ → ℕ → WindowError

unfoldable pub is_resource_exhausted : WindowError → Bool
is_resource_exhausted (block_limit from to span max) = true
is_resource_exhausted (payload_limit attempted max) = true
is_resource_exhausted (witness_item_limit attempted max) = true
is_resource_exhausted (storage_limit attempted_blocks) = true
is_resource_exhausted _ = false

-- The type parameter is the source's constant `IDENTITY_CHECKED`.
pub record WindowAssembler (identity_checked : Bool) : Type 0 where
  pub limits : WindowLimits
  pub accounted_payload_bytes : ℕ
  pub accounted_witness_items : ℕ
  pub claimed_rollup_id : ℕ
  pub header : AdmittedHeader
  pub declared_block_count : ℕ
  pub blocks : List AdmittedBlock

-- gRPC codes of a refused stream.
pub data Status : Type 0 where
  resource_exhausted invalid_argument failed_precondition deadline_exceeded : Status
  other : ℕ → Status

-- What `stream.message()` can give under the timeout; the stream ends with its list.
pub data Received : Type 0 where
  message : ProveChunk → Received
  idle_timeout : Received
  out_of_range : Received
  failed : ℕ → Received
