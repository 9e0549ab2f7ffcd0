-- ===== src/Broker/Storage.antt =====
-- `open_storage` of server/src/broker.rs, and the worker's view of SQLite.
pub mod Responds
use sqlite_broker.Prelude.{ℕ, zero, suc, Bool, ◌||◌, if◌then◌else◌, Option, none, some}
use sqlite_broker.Prelude.Result.{Result, ok, err}
use sqlite_broker.Text.{Bytes, codes}
use sqlite_broker.Text.Search.{contains, to_ascii_lowercase}
use sqlite_broker.Broker.Engine.{Engine}
use sqlite_broker.Broker.Sqlite.{Sqlite}
use sqlite_broker.Broker.Execute.{execute}
use sqlite_broker.Broker.Prepare.{prepare_meta}

-- Another process holds the file: the opening is worth another try.
unfoldable pub is_locked : Bytes → Bool
is_locked message =
    let msg = to_ascii_lowercase message in
    contains (codes "locked") msg || contains (codes "busy") msg

abbrev pub last_error : Option Bytes → Bytes
last_error none = codes "unable to open storage"
last_error (some e) = e

module _ (db : Sqlite) where
  -- A connection whose timeout cannot be set is closed.
  unfoldable pub opened :
      db.Conn → Result Bytes (Unit {0}) × db.World → Result Bytes db.Conn × db.World
  opened conn (ok u, w) = (ok conn, w)
  opened conn (err e, w) = (err e, db.connection_close conn w)

  unfoldable pub open_try :
      (Option Bytes → db.World → Result Bytes db.Conn × db.World)
      → Result Bytes db.Conn × db.World
      → Result Bytes db.Conn × db.World
  unfolding opened
  open_try again (ok conn, w) = opened conn (db.busy_timeout 0 conn w)
  open_try again (err e, w) =
      let retried = again (some e) w in if is_locked e then retried else (err e, w)

  unfoldable pub open_loop : ℕ → Bytes → Option Bytes → db.World → Result Bytes db.Conn × db.World
  open_loop zero path last w = (err (last_error last), w)
  open_loop (suc tries) path last w = open_try (open_loop tries path) (db.connection_open path w)

  unfoldable pub open_storage : Bytes → db.World → Result Bytes db.Conn × db.World
  open_storage path w = open_loop 50 path none w

  -- The interface of the worker, filled by the code of this file and its neighbours.
  abbrev pub sqlite_engine : ℕ → Engine
  sqlite_engine patience = record {
    Conn = db.Conn;
    World = db.World;
    open_storage = open_storage;
    execute = execute db patience;
    prepare_meta = λ conn sql w. some (prepare_meta db conn sql w);
    disconnect = db.connection_close;
  }
