-- ===== src/Replication.antt =====
-- The consensus runtime of crates/server/src/replication: its state, the quorum arithmetic, and the
-- handlers that change the state. The children are used by their own names.
pub mod State
pub mod Quorum
pub mod Progress
pub mod Vote
pub mod Leadership
pub mod Run
