-- ===== src/Lib.antt =====
-- A verification library of the cross-chain rollup in this repository: the parts of its Rust
-- crates that decide, beside the input and output, as executable definitions, and the theorems
-- that make them correct.
--
-- The parts and their files:
-- - Codec: crates/eez-payload-codec, the payload of a settlement. Codec.Encode and Codec.Decode
--   are `encode` and `decode` of src/lib.rs (a span of L2 blocks as columns), Codec.Container is
--   src/container.rs (the message stream around the span and the actions), Codec.Varint and
--   Codec.Cursor are what both read and write with. Proofs: Codec.Span, Codec.Container.RoundTrip,
--   Codec.Varint.RoundTrip, Codec.Varint.Canonical and Codec.Total.
-- - HeldPool: crates/eez-composer/src/held_pool.rs, the pool of cross-chain transactions that wait
--   for a Sync slot. HeldPool.State, HeldPool.Push and HeldPool.Drain hold one function per
--   method, from a state to a state; the mutex of the source makes each method one step. Proofs:
--   HeldPool.Sets, HeldPool.Consistent, HeldPool.History, HeldPool.Admission, HeldPool.Recovery
--   and HeldPool.Eviction.
-- - Timing: crates/eez-driver/src/timing.rs, the block layout of a sync slot, what a trigger
--   produces and where a settlement chunk ends. Proofs: Timing.Layout, Timing.Trigger and
--   Timing.Boundary.
-- - Window: crates/eez-proof-signer/src/window.rs and src/service/stream.rs, the admission of one
--   stream of blocks to be proved. The stream is the list of what each wait for a message gives.
--   Proofs: Window.Push, Window.Sound and Window.Stream.
-- - ProofPlan: crates/eez-protocol/src/proof_plan.rs, the shape check of a batch's proof plan.
--   Proofs: ProofPlan.Invariants.
-- - HeadTracker: crates/eez-seq-sig/src/tracker.rs, the latest head of each signer process. Proofs:
--   HeadTracker.Bounded.
-- - L1Head: crates/eez-l1/src/l1_canonical_head.rs, the head that L1 has confirmed and the index of
--   its posts. Proofs: L1Head.Ordered, Reachable (the invariant), Reorg, Replay, Processed.
-- - Optimistic: crates/eez-composer/src/optimistic.rs, the ledger of the batches whose bundle has not
--   settled or is not final. Proofs: Optimistic.Sorted, History (the invariant), Verdicts, Gate,
--   Recovery and Rollback.
-- - UnsafeHead: crates/eez-follower/src/unsafe_head.rs, how a follower adopts a signed head. It uses
--   L1Head and HeadTracker. Proofs: UnsafeHead.Fetched, Served, Safe, Adopted.
-- - Settlement: crates/eez-proof-signer/src/settlement/state_chain.rs and effect_binding.rs, the
--   continuity of a batch's entries and their binding to the settling block. Proofs:
--   Settlement.Continuity, Bound, Settled, InRange.
-- - OutboundGate: crates/eez-protocol/src/outbound_gate.rs, which matches the outbound entries with the
--   events of the Sync block. It uses the entries of Settlement. Proofs: OutboundGate.Counts, Shape,
--   Authorized.
-- - Scan: crates/eez-l1/src/scan/model.rs, the parser of one transaction's EEZ logs. Proofs:
--   Scan.Grammar, Sound.
-- - ProverRetry: crates/eez-composer/src/prover_retry.rs, the retries of a proof and the transaction
--   that a failure names. It uses HeldPool and Timing. Proofs: ProverRetry.Ends.
-- - Base holds what the parts share: Boolean tests, lists over the native numbers, bit fields and
--   results. Tests applies the theorems at concrete inputs.
--
-- How the parts meet: the pool's transactions go into Sync blocks, whose heights Timing sets; the
-- blocks are streamed to the prover through Window, under a batch that ProofPlan describes, and are
-- posted as a payload of Codec. Scan reads the posts back from the logs of L1, L1Head indexes them, and
-- the ledger of Optimistic is told of them by the cursor. Settlement and OutboundGate are what a signer
-- requires of a batch. A follower takes the heads that HeadTracker keeps, and UnsafeHead adopts one.
--
-- Conventions: integers are natural numbers, with saturation, checked operations and truncation
-- written out; bytes are numbers, and a hash, an address or a byte array is a list of bytes or a
-- number. `while` loops of the decoders run on fuel: `decode_runs` takes one unit for each block,
-- and each round covers a block at least; `decode_actions` takes one for each byte left, and each
-- action takes several. Running out is a value of its own, `stuck`. `fetch_loop` has one unit more than
-- `MAX_ANCESTRY_WALK`, and each round fetches a block until the code itself refuses at that many; running
-- out is the error `out_of_fuel`. A hash map is an association list.
--
-- Not modelled: logging, metrics and tracing; RPC, databases, the EVM and signatures, which are
-- libraries that the source calls; reading the environment. The size of a message on the wire and the
-- success of an allocation are parameters of Window.
pub mod Base
pub mod Codec
mod Tests
pub mod HeldPool
pub mod OutboundGate
pub mod Settlement
pub mod UnsafeHead
pub mod Optimistic
pub mod L1Head
pub mod ProverRetry
pub mod Scan
pub mod Timing
pub mod Window
pub mod ProofPlan
pub mod HeadTracker
