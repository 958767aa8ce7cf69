-- ===== src/Settlement.antt =====
-- crates/eez-proof-signer/src/settlement: what the signer requires of the entries of a batch. A hash
-- and an address are numbers; `keccak` is a parameter, and so are the checkpoints that the backend
-- computed.
pub mod Entries
pub mod StateChain
pub mod Effects
pub mod Continuity
pub mod Bound
pub mod Settled
pub mod InRange
unfoldable pub use Entries.*
unfoldable pub use StateChain.*
unfoldable pub use Effects.*
