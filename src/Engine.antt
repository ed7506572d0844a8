-- ===== src/Engine.antt =====
-- The storage engine: crates/engine/src/engine and crates/engine/src/store/wal.rs.
pub mod Integer
pub mod Error
pub mod Store
pub mod State
pub mod Command
pub mod Wildcard
pub mod Scan
pub mod Transaction
pub mod Log
pub mod Batch
pub mod Direct
pub mod Follower
pub mod Recovery
pub mod Wal
