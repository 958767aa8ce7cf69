-- ===== src/Window.antt =====
-- crates/eez-proof-signer/src/window.rs and service/stream.rs: the admission of one `Prove` stream.
-- `usize` has 64 bits. The assembler's methods return its next state; an error ends the stream.
-- The size of a chunk on the wire and the allocator are parameters.
pub mod Push
pub mod Sound
pub mod Stream
mod Types
mod Assembler
unfoldable pub use Types.*
unfoldable pub use Assembler.*
