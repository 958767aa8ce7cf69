-- ===== src/Window/Assembler.antt =====
-- The assembler of crates/eez-proof-signer/src/window.rs and the loop of service/stream.rs.
use eez_rollup.Base.{
  ℕ, ◌+◌, ◌-◌, min, List, [], ◌∷◌, ◌++◌, Bool, true, false, not, ltb, leb, ◌==◌, ◌||◌,
  if◌then◌else◌, length, bytes_eq, Option, some, none,
}
use eez_rollup.Base.Results.{Result, ok, err, ◌>>=◌}
use eez_rollup.Window.Types.{
  Bytes, usize_max, WindowLimits, ExecutionWitness, ProveHeader, BlockWitness, ProveChunk,
  AdmittedBlock, AdmittedWindow, ParsedHeader, WindowError, is_resource_exhausted, WindowAssembler,
  Status, Received, empty_stream, block_before_header, missing_kind, duplicate_header,
  missing_post_batch, nonempty_l1_block_hash, invalid_bounds, block_limit, payload_limit,
  witness_item_limit, storage_limit, extra_block, wrong_block_number, block_hash_length,
  parent_hash_length, missing_witness, chain_break, incomplete, header, block, resource_exhausted,
  invalid_argument, failed_precondition, deadline_exceeded, other, message, idle_timeout,
  out_of_range, failed,
}

-- The counter after a charge.
unfoldable pub charge : ℕ → ℕ → ℕ → (ℕ → ℕ → WindowError) → Result WindowError ℕ
charge current add max over =
    if ltb usize_max (current + add)
    then err (over usize_max max)
    else if ltb max (current + add)
    then err (over (current + add) max)
    else ok (current + add)

-- The conversion keeps the bytes of every item.
unfoldable pub into_execution_witness : ExecutionWitness → ExecutionWitness
into_execution_witness w = record {
  state = w.state;
  codes = w.codes;
  keys = w.keys;
  headers = w.headers;
}

-- `ok_or`
abbrev pub ok_or {ℓ} : {A : Type ℓ} → Option A → WindowError → Result WindowError A
ok_or none e = err e
ok_or (some a) e = ok a

-- `B256::try_from` of a slice.
abbrev pub hash_of : Bytes → WindowError → Result WindowError Bytes
hash_of bytes e = if length bytes == 32 then ok bytes else err e

unfoldable pub wire_witness_item_count : ExecutionWitness → ℕ
wire_witness_item_count w =
    min
      (min (min (length w.state + length w.codes) usize_max + length w.keys) usize_max
        + length w.headers)
      usize_max

unfoldable pub check_bounds : ProveHeader → WindowLimits → Bytes → Result WindowError ParsedHeader
check_bounds h limits calldata =
    let span = h.to_block - h.from_block + 1 in
    if h.from_block == 0 || ltb h.to_block h.from_block
    then err (invalid_bounds h.from_block h.to_block)
    else if ltb limits.blocks span
    then err (block_limit h.from_block h.to_block span limits.blocks)
    else ok (record {
      claimed_rollup_id = h.rollup_id;
      admitted = record {
        declared_from_block = h.from_block;
        declared_to_block = h.to_block;
        submitted_post_batch_calldata = calldata;
      };
      declared_block_count = span;
    })

unfoldable pub check_header : ProveHeader → WindowLimits → Result WindowError ParsedHeader
check_header h limits = ok_or h.post_batch missing_post_batch >>= λ batch.
    if not (length batch.l1_block_hash == 0)
    then err (nonempty_l1_block_hash (length batch.l1_block_hash))
    else check_bounds h limits batch.abi_calldata

-- The last block's claimed hash against the next block's parent.
unfoldable pub check_link : List AdmittedBlock → BlockWitness → Result WindowError (Unit {0})
check_link [] b = ok tt
check_link (p ∷ []) b =
    if bytes_eq b.parent_hash p.claimed_hash
    then ok tt
    else err (chain_break b.number p.declared_number p.claimed_hash b.parent_hash)
check_link (p ∷ q ∷ ps) b = check_link (q ∷ ps) b

-- `RangeInclusive::nth`
abbrev pub range_nth : ℕ → ℕ → ℕ → Option ℕ
range_nth from to i = if leb (from + i) to then some (from + i) else none

unfoldable pub verify_rollup_identity :
    WindowAssembler false → ℕ → Result (ℕ × ℕ) (WindowAssembler true)
verify_rollup_identity a expected =
    if not (a.claimed_rollup_id == expected)
    then err (a.claimed_rollup_id, expected)
    else ok (record {
      limits = a.limits;
      accounted_payload_bytes = a.accounted_payload_bytes;
      accounted_witness_items = a.accounted_witness_items;
      claimed_rollup_id = expected;
      header = a.header;
      declared_block_count = a.declared_block_count;
      blocks = a.blocks;
    })

unfoldable pub finish : WindowAssembler true → Result WindowError AdmittedWindow
finish a =
    if not (length a.blocks == a.declared_block_count)
    then err (
        incomplete a.header.declared_from_block a.header.declared_to_block a.declared_block_count
          (length a.blocks))
    else ok (record { header = a.header; blocks = a.blocks })

unfoldable pub next_message : Received → Result Status ProveChunk
next_message (message c) = ok c
next_message idle_timeout = err deadline_exceeded
next_message out_of_range = err resource_exhausted
next_message (failed code) = err (other code)

abbrev pub window_status {ℓ} : {A : Type ℓ} → Result WindowError A → Result Status A
window_status (ok a) = ok a
window_status (err e) =
    err (if is_resource_exhausted e then resource_exhausted else invalid_argument)

abbrev pub identity_status {ℓ} : {A : Type ℓ} → Result (ℕ × ℕ) A → Result Status A
identity_status (ok a) = ok a
identity_status (err e) = err failed_precondition

module _ (encoded_len : ProveChunk → ℕ) (reserves : ℕ → Bool) where
  unfoldable pub start : WindowLimits → ProveChunk → Result WindowError (WindowAssembler false)
  start limits first =
      charge 0 (encoded_len first) limits.payload_bytes payload_limit >>= λ charged.
      (elim first.kind [
        | none ↦ err (missing_kind 0)
        | some (block b) ↦ err (block_before_header b.number)
        | some (header h) ↦ check_header h limits
      ])
      >>= λ parsed. ok (record {
        limits = limits;
        accounted_payload_bytes = charged;
        accounted_witness_items = 0;
        claimed_rollup_id = parsed.claimed_rollup_id;
        header = parsed.admitted;
        declared_block_count = parsed.declared_block_count;
        blocks = [];
      })

  unfoldable pub push_block :
      WindowAssembler true → BlockWitness → Result WindowError (WindowAssembler true)
  push_block a b =
      let block_index = length a.blocks in
      ok_or (range_nth a.header.declared_from_block a.header.declared_to_block block_index)
        (extra_block a.declared_block_count)
      >>= λ expected.
          (if b.number == expected
            then ok (tt {0})
            else err (wrong_block_number block_index expected b.number))
          >>= λ _. hash_of b.hash (block_hash_length b.number (length b.hash)) >>= λ claimed_hash.
              hash_of b.parent_hash (parent_hash_length b.number (length b.parent_hash))
              >>= λ claimed_parent_hash.
                  ok_or b.witness (missing_witness b.number) >>= λ wire_witness.
                  charge a.accounted_witness_items (wire_witness_item_count wire_witness)
                    a.limits.witness_items witness_item_limit
                  >>= λ items. check_link a.blocks b >>= λ _.
                      if not (reserves block_index)
                      then err (storage_limit (min (block_index + 1) usize_max))
                      else ok (record a {
                        accounted_witness_items = items;
                        blocks =
                            a.blocks
                            ++ (record {
                              declared_number = b.number;
                              claimed_hash = claimed_hash;
                              claimed_parent_hash = claimed_parent_hash;
                              rlp = b.rlp;
                              witness = into_execution_witness wire_witness;
                            }
                                ∷ []);
                      })

  unfoldable pub push :
      WindowAssembler true → ProveChunk → Result WindowError (WindowAssembler true)
  push a chunk =
      charge a.accounted_payload_bytes (encoded_len chunk) a.limits.payload_bytes payload_limit
      >>= λ charged. elim chunk.kind [
        | none ↦ err (missing_kind (1 + length a.blocks))
        | some (header h) ↦ err duplicate_header
        | some (block b) ↦ push_block (record a { accounted_payload_bytes = charged }) b
      ]

  -- `while let Some(chunk) = next_message(..)`, and `finish` at the end of the stream.
  unfoldable pub read_rest : WindowAssembler true → List Received → Result Status AdmittedWindow
  read_rest a [] = window_status (finish a)
  read_rest a (r ∷ rs) =
      next_message r >>= λ chunk. window_status (push a chunk) >>= λ a'. read_rest a' rs

  unfoldable pub read_window : ℕ → WindowLimits → List Received → Result Status AdmittedWindow
  read_window expected_rollup_id limits [] = window_status (err empty_stream)
  read_window expected_rollup_id limits (r ∷ rs) = next_message r >>= λ first.
      window_status (start limits first) >>= λ a.
      identity_status (verify_rollup_identity a expected_rollup_id) >>= λ checked.
      read_rest checked rs
