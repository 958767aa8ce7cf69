-- ===== src/HeldPool.antt =====
-- crates/eez-composer/src/held_pool.rs: the pool of cross-chain transactions that wait for a Sync
-- slot. A hash and an address are numbers. The mutex makes each method one step of the state.
pub mod Sets
pub mod Consistent
pub mod History
pub mod Admission
pub mod Recovery
pub mod Eviction
mod State
mod Push
mod Drain
unfoldable pub use State.*
unfoldable pub use Push.*
unfoldable pub use Drain.*
