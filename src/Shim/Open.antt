-- ===== src/Shim/Open.antt =====
-- `stub_addr` and `open_v2` of shim/src/lib.rs.
use sqlite_broker.Prelude.{
  ℕ, ℤ, Bool, ◌||◌, if◌then◌else◌, Option, none, some, is_empty, bytes_eq, ◌>>=◌,
}
use sqlite_broker.Prelude.Assoc
use sqlite_broker.Prelude.Result.{Result, ok, err}
use sqlite_broker.Text.{Bytes, codes}
use sqlite_broker.Text.Utf8.{from_utf8_lossy}
use sqlite_broker.Text.Search.{until_nul}
use sqlite_broker.Protocol.Stub.{parse_stub}
use sqlite_broker.Shim.State.{
  Net, ProxyDb, Shim, Reply, mine, forward, sqlite_ok, sqlite_error, sqlite_cantopen, sqlite_misuse,
}
use sqlite_broker.Shim.Proxy.{connect}

-- `read` is what `fs::read` gives.
unfoldable pub stub_addr : (read : Bytes → Option Bytes) → Bytes → Option Bytes
stub_addr read path =
    if is_empty path || bytes_eq path (codes ":memory:") then none else (read path >>= parse_stub)

module _ {net : Net} where
  -- The answer, and what stands in `*ppdb`.
  unfoldable pub opened : Result Bytes (ProxyDb net) × net.World → Shim net → Reply ℤ × ℕ × Shim net
  opened (err e, w) s = (mine sqlite_cantopen, 0, record s { world = w })
  opened (ok proxy, w) s =
      let (raw, w') = net.allocate w in
      (mine sqlite_ok, raw, record s { dbs = Assoc.insert raw proxy s.dbs; world = w' })

  unfoldable pub open_addr : Bytes → Option Bytes → Shim net → Reply ℤ × ℕ × Shim net
  unfolding opened
  open_addr path none s = (forward (codes "sqlite3_open_v2") sqlite_error, 0, s)
  open_addr path (some addr) s = opened (connect addr path s.world) s

  unfoldable pub open_path : Option Bytes → Shim net → Reply ℤ × ℕ × Shim net
  unfolding open_addr stub_addr
  open_path none s = (mine sqlite_misuse, 0, s)
  open_path (some filename) s =
      let path = from_utf8_lossy (until_nul filename) in
      open_addr path (stub_addr (λ name. net.read_file name s.world) path) s

  -- `has_db`: `ppdb` is not null.
  unfoldable pub open_v2 : Bool → Option Bytes → Shim net → Reply ℤ × ℕ × Shim net
  unfolding open_path
  open_v2 has_db filename s = if has_db then open_path filename s else (mine sqlite_misuse, 0, s)
