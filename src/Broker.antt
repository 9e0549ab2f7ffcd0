-- ===== src/Broker.antt =====
-- server/src/broker.rs: the one process that owns the database file.
pub mod Brief
pub mod Replies
pub mod Engine
pub mod Sqlite
pub mod Statement
pub mod Execute
pub mod Prepare
pub mod Storage
pub mod Start
pub mod Worker
pub mod Clients
