-- ===== src/Shim/Proxy.antt =====
-- The methods of `ProxyDb` in shim/src/lib.rs, and `cstring_lossy`.
pub mod Codes
pub mod Lists
use sqlite_broker.Prelude.{
  ℕ, ℤ, pos, int_eq, false, not, ◌==◌, List, [], ◌∷◌, ◌++◌, map, if◌then◌else◌, Option, none, some,
  is_empty,
}
use sqlite_broker.Prelude.Result.{Result, ok, err}
use sqlite_broker.Text.{Bytes, codes}
use sqlite_broker.Protocol.Message.{Hello, Request, close, Response}
use sqlite_broker.Shim.State.{Net, ProxyDb, sqlite_error}

-- A NUL inside the text becomes a space.
unfoldable pub cstring_lossy : Bytes → Bytes
cstring_lossy = map λ b. if b == 0 then b' ' else b

abbrev pub or_error : ℤ → ℤ
or_error code = if int_eq code (pos 0) then sqlite_error else code

abbrev pub rejected : Option Bytes → Bytes
rejected none = codes "broker rejected session"
rejected (some e) = e

-- `retain(|item| *item != stmt)`
unfoldable pub without : ℕ → List ℕ → List ℕ
without stmt [] = []
without stmt (x ∷ xs) = let rest = without stmt xs in if x == stmt then rest else x ∷ rest

module _ {net : Net} where
  unfoldable pub new_proxy : net.Stream → Bytes → ProxyDb net
  unfolding cstring_lossy
  new_proxy stream path = record {
    stream = stream;
    filename = cstring_lossy path;
    errmsg = codes "not an error";
    changes = pos 0;
    total_changes = pos 0;
    last_rowid = pos 0;
    autocommit = pos 1;
    errcode = pos 0;
    stmts = [];
    closed = false;
  }

  unfoldable pub greet :
      net.Stream → Bytes → Result Bytes Hello × net.World → Result Bytes (ProxyDb net) × net.World
  greet stream path (err e, w) = (err e, w)
  greet stream path (ok hello, w) =
      if not hello.ok then (err (rejected hello.error), w) else (ok (new_proxy stream path), w)

  unfoldable pub welcome :
      Bytes → Bytes → Result Bytes net.Stream × net.World → Result Bytes (ProxyDb net) × net.World
  unfolding greet new_proxy
  welcome addr path (err e, w) = (err (codes "connect " ++ (addr ++ (codes ": " ++ e))), w)
  welcome addr path (ok stream, w) = greet stream path (net.receive_hello stream w)

  -- `ProxyDb::connect`
  unfoldable pub connect : Bytes → Bytes → net.World → Result Bytes (ProxyDb net) × net.World
  unfolding welcome
  connect addr path w = welcome addr path (net.connect addr w)

  unfoldable pub apply : Response → ProxyDb net → ProxyDb net
  unfolding cstring_lossy
  apply resp p = record p {
    changes = resp.changes;
    total_changes = resp.total_changes;
    last_rowid = resp.last_insert_rowid;
    autocommit = if resp.autocommit then pos 1 else pos 0;
    errcode = if resp.ok then pos 0 else or_error resp.code;
    errmsg = if resp.ok then codes "not an error" else cstring_lossy resp.message;
  }

  unfoldable pub fail : Bytes → ProxyDb net → ProxyDb net
  unfolding cstring_lossy
  fail message p = record p { errcode = sqlite_error; errmsg = cstring_lossy message }

  unfoldable pub answered :
      ProxyDb net → Result Bytes (Unit {0}) × net.World → Result Bytes Response × net.World
  answered p (err e, w) = (err e, w)
  answered p (ok u, w) = net.receive p.stream w

  -- A request and its answer.
  unfoldable pub exchange : ProxyDb net → Request → net.World → Result Bytes Response × net.World
  unfolding answered
  exchange p req w = answered p (net.send p.stream req w)

  unfoldable pub digest :
      ProxyDb net
      → Result Bytes Response × net.World
      → Result Bytes Response × ProxyDb net × net.World
  unfolding apply fail
  digest p (err e, w) = (err e, fail e p, w)
  digest p (ok resp, w) = (
    if resp.ok
        then ok resp
        else err (if is_empty resp.message then codes "sql error" else resp.message),
    apply resp p,
    w,
  )

  unfoldable pub rpc :
      Request → ProxyDb net → net.World → Result Bytes Response × ProxyDb net × net.World
  unfolding digest exchange fail
  rpc req p w =
      if p.closed
      then (err (codes "connection is closed"), fail (codes "connection is closed") p, w)
      else digest p (exchange p req w)

  -- The broker is told, and its answer is read and dropped.
  unfoldable pub shutdown : ProxyDb net → net.World → net.World
  shutdown p w = (net.receive p.stream (net.send p.stream close w).1).1

  unfoldable pub link_stmt : ℕ → ProxyDb net → ProxyDb net
  link_stmt stmt p = record p { stmts = p.stmts ++ (stmt ∷ []) }

  unfoldable pub unlink_stmt : ℕ → ProxyDb net → ProxyDb net
  unfolding without
  unlink_stmt stmt p = record p { stmts = without stmt p.stmts }
