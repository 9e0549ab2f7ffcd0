-- ===== src/Cli.antt =====
-- server/src/main.rs: the command line, and that of the load generator, of server/src/hammer.rs.
pub mod Options
pub mod Spawned
pub mod Query
pub mod Run
mod Tests
