-- ===== src/Tests.antt =====
-- The theorems applied at concrete inputs.
mod Codec
mod HeldPool
mod OutboundGate
mod Settlement
mod UnsafeHead
mod Optimistic
mod L1Head
mod ProverRetry
mod Scan
mod Timing
mod Window
mod ProofPlan
mod HeadTracker
