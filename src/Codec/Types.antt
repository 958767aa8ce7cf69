-- ===== src/Codec/Types.antt =====
-- The data of crates/eez-payload-codec/src/lib.rs. A byte is a number, `[u8; N]` and `Vec<u8>` are
-- lists of bytes, and the label of a field is a text.
use eez_rollup.Base.{ℕ, ◌<◌, ◌^◌, String, List}

pub data CodecError : Type 0 where
  empty : CodecError
  unsupported_version : ℕ → CodecError
  truncated : String → CodecError
  non_canonical_varint : String → CodecError
  empty_span : CodecError
  implausible_count : String → ℕ → ℕ → CodecError
  run_coverage : String → CodecError
  non_maximal_run : String → CodecError
  extra_data_too_long : ℕ → CodecError
  empty_transaction : ℕ → CodecError
  tx_byte_mismatch : ℕ → ℕ → CodecError
  trailing_bytes : ℕ → CodecError
  value_too_long : ℕ → CodecError
  non_minimal_value : CodecError
  unexpected_message : ℕ → CodecError
  unknown_message : ℕ → CodecError
  non_empty_transaction_data : CodecError
  invalid_target_rollup : ℕ → ℕ → CodecError
  action_after_failure : CodecError
  value_too_large : String → ℕ → CodecError

-- `Result<T, CodecError>`. `stuck` is no value of the source: a `while` loop ran out of fuel.
pub data CodecResult (A : Type 0) : Type 0 where
  ok : A → CodecResult A
  err : CodecError → CodecResult A
  stuck : CodecResult A

abbrev pub Bytes : Type 0
Bytes = List ℕ

pub record SpanBlock : Type 0 where
  pub beneficiary : Bytes
  pub extra_data : Bytes
  pub transactions : List Bytes

-- The span as columns.
pub record DecodedSpan : Type 0 where
  pub block_tx_counts : List ℕ
  pub beneficiaries : List Bytes
  pub extra_data : List Bytes
  pub transactions : List Bytes

abbrev pub payload_version_v0 : ℕ
payload_version_v0 = 0x00

abbrev pub max_extra_data : ℕ
max_extra_data = 32

abbrev pub max_uvarint32_bytes : ℕ
max_uvarint32_bytes = 5

abbrev pub IsU32 : ℕ → Type 0
IsU32 v = v < 2 ^ 32

abbrev pub IsU64 : ℕ → Type 0
IsU64 v = v < 2 ^ 64
