-- ===== src/Broker/Engine.antt =====
-- What the worker of server/src/broker.rs asks of the code that talks to SQLite (`open_storage`,
-- `execute`, `prepare_meta`, and the drop of a `Connection`). `World` is all that SQLite keeps: the
-- file and its connections. `none` means that the call does not return.
use sqlite_broker.Prelude.{List, Option}
use sqlite_broker.Prelude.Result.{Result}
use sqlite_broker.Text.{Bytes}
use sqlite_broker.Protocol.Message.{Param, Response}

pub record Engine : Type 1 where
  pub Conn : Type 0
  pub World : Type 0
  pub open_storage : Bytes → World → Result Bytes Conn × World
  pub execute : Conn → Bytes → List Param → World → Option (Response × World)
  pub prepare_meta : Conn → Bytes → World → Option (Response × World)
  pub disconnect : Conn → World → World
