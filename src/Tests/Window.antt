-- ===== src/Tests/Window.antt =====
-- crates/eez-proof-signer/src/window.rs on a stream of a header and two blocks.
use eez_rollup.Base.{ℕ, ◌≡◌, refl, List, [], ◌∷◌, map, replicate, true, some, Bool, bytes_eq}
use eez_rollup.Base.Results.{ok, err}
use eez_rollup.Window.{
  WindowLimits, ProveHeader, ProveChunk, header, block, ExecutionWitness, AdmittedBlock,
  AdmittedWindow, Received, message, idle_timeout, deadline_exceeded, invalid_argument, charge,
  push, push_block, start, finish, verify_rollup_identity, check_header, check_bounds, check_link,
  read_rest, read_window, next_message, wire_witness_item_count, into_execution_witness,
  is_resource_exhausted,
}
use eez_rollup.Window.Stream.{IsWindow, read_window-IsWindow}

-- 100 bytes for each chunk, and an allocator that never fails.
abbrev chunk_bytes : ProveChunk → ℕ
chunk_bytes c = 100

abbrev always : ℕ → Bool
always n = true

abbrev two_block_limits : WindowLimits
two_block_limits = record { blocks = 2; payload_bytes = 300; witness_items = 4 }

abbrev header_chunk : ProveChunk
header_chunk = record {
  kind = some (
      header (record {
        rollup_id = 7;
        from_block = 10;
        to_block = 11;
        post_batch =
            some (record { public_inputs_hash = []; l1_block_hash = []; abi_calldata = 0xde ∷ [] });
      }));
}

abbrev two_items : ExecutionWitness
two_items = record { state = (1 ∷ []) ∷ []; codes = []; keys = (2 ∷ []) ∷ []; headers = [] }

abbrev block_chunk : ℕ → ℕ → ℕ → ProveChunk
block_chunk n parent hash = record {
  kind = some (
      block (record {
        number = n;
        hash = replicate 32 hash;
        parent_hash = replicate 32 parent;
        rlp = n ∷ [];
        witness = some two_items;
      }));
}

abbrev admitted_block : ℕ → ℕ → ℕ → AdmittedBlock
admitted_block n parent hash = record {
  declared_number = n;
  claimed_hash = replicate 32 hash;
  claimed_parent_hash = replicate 32 parent;
  rlp = n ∷ [];
  witness = two_items;
}

abbrev honest_stream : List Received
honest_stream = map message (header_chunk ∷ block_chunk 10 1 2 ∷ block_chunk 11 2 3 ∷ [])

abbrev honest_window : AdmittedWindow
honest_window = record {
  header = record {
    declared_from_block = 10;
    declared_to_block = 11;
    submitted_post_batch_calldata = 0xde ∷ [];
  };
  blocks = admitted_block 10 1 2 ∷ admitted_block 11 2 3 ∷ [];
}

honest_read : read_window chunk_bytes always 7 two_block_limits honest_stream ≡ ok honest_window
unfolding read_window read_rest next_message start charge check_header check_bounds
    verify_rollup_identity push push_block check_link finish wire_witness_item_count
    into_execution_witness bytes_eq
honest_read = refl

-- A second block that does not link, and a stream that stops.
broken_read :
    read_window chunk_bytes always 7 two_block_limits
      (map message (header_chunk ∷ block_chunk 10 1 2 ∷ block_chunk 11 9 3 ∷ []))
    ≡ err invalid_argument
unfolding read_window read_rest next_message start charge check_header check_bounds
    verify_rollup_identity push push_block check_link finish wire_witness_item_count
    into_execution_witness bytes_eq is_resource_exhausted
broken_read = refl

stopped_read :
    read_window chunk_bytes always 7 two_block_limits (message header_chunk ∷ idle_timeout ∷ [])
    ≡ err deadline_exceeded
unfolding read_window read_rest next_message start charge check_header check_bounds
    verify_rollup_identity
stopped_read = refl

read_window-IsWindow_example :
    (first : ProveChunk) × (h : ProveHeader) × (cs : List ProveChunk) × (honest_stream
      ≡ map message (first ∷ cs))
    × IsWindow chunk_bytes two_block_limits 7 first h cs honest_window
read_window-IsWindow_example =
    read_window-IsWindow chunk_bytes always 7 two_block_limits honest_stream honest_window
      honest_read
