-- ===== src/Shim.antt =====
-- shim/src: the library that stands in front of libsqlite3 in the application's process.
pub mod State
pub mod Proxy
pub mod Rows
pub mod Statement
pub mod Open
pub mod Ownership
pub mod Handles
pub mod Reach
pub mod Bind
pub mod Calls
pub mod Keyword
pub mod Columns
pub mod Exec
pub mod Settings
pub mod Extensions
pub mod Forwarding
pub mod Toy
mod Tests
