-- ===== src/Language.antt =====
-- The command language of the clients: crates/command/src.
pub mod Error
pub mod Lexer
pub mod Words
pub mod Parser
pub mod Sent
