-- ===== src/Auth.antt =====
-- Authorization in crates/server/src/auth and crates/server/src/server/authorization.rs.
pub mod Pattern
pub mod Error
pub mod Grants
pub mod Store
pub mod Operations
pub mod Bootstrap
pub mod Authorize
