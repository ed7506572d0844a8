-- ===== src/Transport.antt =====
-- The wire protocol: crates/transport/src.
pub mod Error
pub mod Buf
pub mod Primitives
pub mod Calm
pub mod Opcode
pub mod Request
pub mod Frame
pub mod Codec
pub mod Response
