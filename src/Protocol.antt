-- ===== src/Protocol.antt =====
-- protocol/src/lib.rs: the messages between the shim and the broker.
pub mod Message
pub mod Base64
pub mod Render
pub mod Stub
pub mod Frame
mod Tests
