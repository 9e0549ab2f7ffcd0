-- ===== src/Client.antt =====
-- server/src/capi.rs: the client side, by which the command line and the load generator use a database.
pub mod Program
pub mod Capi
pub mod Shimmed
