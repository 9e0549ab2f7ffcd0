-- ===== src/Hammer.antt =====
-- server/src/hammer.rs: the load generator and its audit.
pub mod Rng
pub mod Statements
pub mod Boot
pub mod Load
pub mod Journal
pub mod Claim
pub mod Audit
mod Tests
