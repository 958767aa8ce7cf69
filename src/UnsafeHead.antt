-- ===== src/UnsafeHead.antt =====
-- crates/eez-follower/src/unsafe_head.rs: how a follower adopts a signed head. The local chain reader
-- and the block source are parameters: a `View` is what the reader answers at one moment, and a
-- source answers a request by the blocks fetched so far, the hash and the count, so that it may
-- answer a later request otherwise. A block is its number, its hash and its parent's hash; the texts
-- of errors are parameters.
pub mod Types
pub mod Walk
pub mod Follow
pub mod Fetched
pub mod Served
pub mod Safe
pub mod Adopted
unfoldable pub use Types.*
unfoldable pub use Walk.*
unfoldable pub use Follow.*
