-- ===== src/Shim/State.antt =====
-- The globals of shim/src/lib.rs and what stands behind the handles. A pointer is its address, a null
-- pointer is 0. `dbs` and `stmts` hold, for each address in `DBS` and `STMTS`, the value in the box
-- at that address: the two are always inserted and removed together.
use sqlite_broker.Prelude.{ℕ, ℤ, pos, Bool, List, Option, none, ◌==◌, if◌then◌else◌}
use sqlite_broker.Prelude.Assoc.{Assoc}
use sqlite_broker.Prelude.Assoc
use sqlite_broker.Prelude.Result.{Result}
use sqlite_broker.Text.{Bytes}
use sqlite_broker.Protocol.Message.{Cell, Param, Hello, Request, Response}

-- What the shim asks of the rest of the world: the connection to the broker (`send` is `write_msg`,
-- `receive` and `receive_hello` are `read_msg`, on that stream), the file system, the allocator, and how Rust
-- prints an `f64`.
pub record Net : Type 1 where
  pub World : Type 0
  pub Stream : Type 0
  pub connect : Bytes → World → Result Bytes Stream × World
  pub receive_hello : Stream → World → Result Bytes Hello × World
  pub send : Stream → Request → World → Result Bytes (Unit {0}) × World
  pub receive : Stream → World → Result Bytes Response × World
  pub read_file : Bytes → World → Option Bytes
  pub allocate : World → ℕ × World
  pub malloc : ℕ → World → ℕ × World
  pub display_real : ℕ → Bytes

pub record ProxyDb (net : Net) : Type 0 where
  pub stream : net.Stream
  pub filename : Bytes
  pub errmsg : Bytes
  pub changes : ℤ
  pub total_changes : ℤ
  pub last_rowid : ℤ
  pub autocommit : ℤ
  pub errcode : ℤ
  pub stmts : List ℕ
  pub closed : Bool

pub record ProxyStmt : Type 0 where
  pub db : ℕ
  pub sql : Bytes
  pub sql_c : Bytes
  pub params : List Param
  pub columns : List Bytes
  pub decltypes : List (Option Bytes)
  pub param_names : List (Option Bytes)
  pub param_count : ℤ
  pub rows : List (List Cell)
  pub texts : List Bytes
  pub blobs : List Bytes
  pub pos : ℕ
  pub started : Bool
  pub failed : Bool
  pub last_step : ℤ

pub record Shim (net : Net) : Type 0 where
  pub dbs : Assoc (ProxyDb net)
  pub stmts : Assoc ProxyStmt
  pub allocated : List ℕ
  pub world : net.World

-- What an exported function does with a call: it answers itself, or it hands the call to the
-- function of that name in libsqlite3 with the arguments that it was given. `missing` is its answer
-- where that library has no such function.
pub data Reply {ℓ} (A : Type ℓ) : Type ℓ where
  mine : A → Reply A
  forward : (symbol : Bytes) (missing : A) → Reply A

abbrev pub sqlite_ok : ℤ
sqlite_ok = pos 0

abbrev pub sqlite_error : ℤ
sqlite_error = pos 1

abbrev pub sqlite_abort : ℤ
sqlite_abort = pos 4

abbrev pub sqlite_busy : ℤ
sqlite_busy = pos 5

abbrev pub sqlite_cantopen : ℤ
sqlite_cantopen = pos 14

abbrev pub sqlite_toobig : ℤ
sqlite_toobig = pos 18

abbrev pub sqlite_misuse : ℤ
sqlite_misuse = pos 21

abbrev pub sqlite_row : ℤ
sqlite_row = pos 100

abbrev pub sqlite_done : ℤ
sqlite_done = pos 101

module _ {net : Net} where
  -- `as_db` and `as_stmt`: a null pointer is never in the sets.
  unfoldable pub as_db : ℕ → Shim net → Option (ProxyDb net)
  as_db db s = if db == 0 then none else Assoc.get db s.dbs

  unfoldable pub as_stmt : ℕ → Shim net → Option ProxyStmt
  as_stmt stmt s = if stmt == 0 then none else Assoc.get stmt s.stmts

  -- A write through the reference.
  unfoldable pub put_db : ℕ → ProxyDb net → Shim net → Shim net
  put_db db p s = record s { dbs = Assoc.insert db p s.dbs }

  unfoldable pub put_stmt : ℕ → ProxyStmt → Shim net → Shim net
  put_stmt stmt p s = record s { stmts = Assoc.insert stmt p s.stmts }
