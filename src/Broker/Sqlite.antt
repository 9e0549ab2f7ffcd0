-- ===== src/Broker/Sqlite.antt =====
-- The calls of libsqlite3 and rusqlite that server/src/broker.rs makes. SQLite is not part of the
-- repository, so they are a parameter. `World` is all that SQLite keeps. A C string is its bytes
-- without the NUL; a null pointer is `none`.
use sqlite_broker.Prelude.{ℕ, ℤ, Bool, Option}
use sqlite_broker.Prelude.Result.{Result}
use sqlite_broker.Text.{Bytes}

-- What `sqlite3_prepare_v2` gives back: `tail` counts from the start of the text that it was given.
pub record Prepared (Stmt : Type 0) : Type 0 where
  pub rc : ℤ
  pub stmt : Option Stmt
  pub tail : Option ℕ

-- The `sqlite3_bind_*` calls.
pub data Bound : Type 0 where
  bind_null : Bound
  bind_int64 : ℤ → Bound
  bind_double : ℕ → Bound
  bind_text : Bytes → Bound
  bind_blob : Option Bytes → Bound

pub record Sqlite : Type 1 where
  pub Conn : Type 0
  pub Stmt : Type 0
  pub World : Type 0
  pub connection_open : Bytes → World → Result Bytes Conn × World
  pub busy_timeout : ℕ → Conn → World → Result Bytes (Unit {0}) × World
  pub connection_close : Conn → World → World
  pub is_autocommit : Conn → World → Bool
  pub changes : Conn → World → ℤ
  pub total_changes : Conn → World → ℤ
  pub last_insert_rowid : Conn → World → ℤ
  pub errcode : Conn → World → ℤ
  pub errmsg : Conn → World → Option Bytes
  pub prepare_v2 : Conn → Bytes → World → Prepared Stmt × World
  pub bind : Stmt → ℤ → Bound → World → ℤ × World
  pub step : Stmt → World → ℤ × World
  pub finalize : Stmt → World → World
  pub column_count : Stmt → World → ℕ
  pub column_name : Stmt → ℕ → World → Option Bytes
  pub column_decltype : Stmt → ℕ → World → Option Bytes
  pub bind_parameter_count : Stmt → World → ℕ
  pub bind_parameter_name : Stmt → ℕ → World → Option Bytes
  pub column_type : Stmt → ℕ → World → ℤ
  pub column_int64 : Stmt → ℕ → World → ℤ
  pub column_double : Stmt → ℕ → World → ℕ
  pub column_bytes : Stmt → ℕ → World → ℤ
  pub column_blob : Stmt → ℕ → World → Option Bytes
  pub column_text : Stmt → ℕ → World → Option Bytes
