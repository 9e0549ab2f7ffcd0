-- ===== src/Shim/Forwarding/Foreign.antt =====
-- No handle of the shim's gets to the real libsqlite3.
use sqlite_broker.Shim.State.{Shim}
