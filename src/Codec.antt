-- ===== src/Codec.antt =====
-- crates/eez-payload-codec: the block span and the message stream that carries it.
pub mod Types
pub mod Cursor
pub mod Varint
pub mod Encode
pub mod Decode
pub mod Span
pub mod Container
pub mod Total
