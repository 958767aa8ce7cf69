-- ===== src/Codec/Span.antt =====
-- The columns that a span of blocks stands for, and the proofs on `encode` and `decode`.
pub mod Columns
pub mod Runs
pub mod RoundTrip
