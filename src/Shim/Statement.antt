-- ===== src/Shim/Statement.antt =====
-- `prepare_v2`, `step_stmt`, `finalize_stmt`, `sqlite3_reset`, and `close_db` and `destroy_db` of
-- shim/src/lib.rs. Where the code follows the pointer `stmt.db`, `none` is a pointer to a connection
-- that is no more: what the program does then is undefined.
use sqlite_broker.Prelude.{
  ℕ, ◌==◌, min, ℤ, pos, is_negative, Bool, true, false, not, ◌&&◌, if◌then◌else◌, [], map, Option,
  none, some, length, take, is_empty,
}
use sqlite_broker.Prelude.Assoc
use sqlite_broker.Prelude.Result.{Result, ok, err}
use sqlite_broker.Text.{Bytes, codes}
use sqlite_broker.Text.Utf8.{from_utf8_lossy}
use sqlite_broker.Text.Search.{until_nul, is_char_boundary}
use sqlite_broker.Protocol.Message.{Request, exec, prepare, Response}
use sqlite_broker.Shim.State.{
  Net, ProxyDb, ProxyStmt, Shim, Reply, mine, forward, as_db, as_stmt, put_db, put_stmt, sqlite_ok,
  sqlite_error, sqlite_busy, sqlite_misuse,
}
use sqlite_broker.Shim.Proxy.{cstring_lossy, or_error, rpc, shutdown, link_stmt, unlink_stmt}
use sqlite_broker.Shim.Rows.{fill, break, next_row, cleared}

-- `sql_from`, over the bytes at the pointer.
unfoldable pub sql_from : Option Bytes → ℤ → Bytes
sql_from none nbytes = []
sql_from (some bytes) (pos n) = from_utf8_lossy (until_nul (take n bytes))
sql_from (some bytes) nbytes = from_utf8_lossy (until_nul bytes)

-- An empty name stands for none.
abbrev pub named : Bytes → Option Bytes
named name = if is_empty name then none else some (cstring_lossy name)

-- The statement before its first step.
unfoldable pub new_stmt : ℕ → Bytes → Response → ProxyStmt
unfolding cstring_lossy
new_stmt db sql resp = record {
  db = db;
  sql = sql;
  sql_c = cstring_lossy sql;
  params = [];
  columns = map cstring_lossy resp.columns;
  decltypes = map named resp.decltypes;
  param_names = map named resp.param_names;
  param_count = resp.param_count;
  rows = [];
  texts = [];
  blobs = [];
  pos = 0;
  started = false;
  failed = false;
  last_step = pos 0;
}

-- The answer of `prepare_v2`, what it leaves in `*ppstmt`, and where in the text `*pztail` points, if
-- it is written.
pub record Prepared : Type 0 where
  pub rc : Reply ℤ
  pub stmt : ℕ
  pub tail : Option ℕ

-- What the caller passes: the address of the connection, the text, whether the two pointers for the
-- results are there.
pub record PrepareCall : Type 0 where
  pub db : ℕ
  pub sql : Option Bytes
  pub nbytes : ℤ
  pub has_stmt : Bool
  pub has_tail : Bool

abbrev pub no_stmt : ℤ → Option ℕ → Prepared
no_stmt code tail = record { rc = mine code; stmt = 0; tail = tail }

-- `*pztail` before the broker has answered.
abbrev pub early_tail : PrepareCall → Bytes → Option ℕ
early_tail c bytes =
    if c.has_tail && is_negative c.nbytes then some (length (until_nul bytes)) else none

module _ {net : Net} where
  -- A request over the connection at this address: the answer, the connection after it, the state.
  unfoldable pub call :
      ℕ → Request → ProxyDb net → Shim net → Result Bytes Response × ProxyDb net × Shim net
  call db req p s =
      let (r, p', w) = rpc req p s.world in (r, p', put_db db p' (record s { world = w }))

  unfoldable pub destroy_db : ℕ → Shim net → Shim net
  destroy_db db s = elim (Assoc.get db s.dbs) [
    | none ↦ s
    | some p ↦ record s { dbs = Assoc.remove db s.dbs; world = shutdown p s.world }
  ]

  -- The connection is marked, and goes at once where it has no statement.
  unfoldable pub close_now : ℕ → ProxyDb net → Shim net → Shim net
  unfolding destroy_db
  close_now db p s =
      let marked = put_db db (record p { closed = true }) s in
      if is_empty p.stmts then destroy_db db marked else marked

  unfoldable pub close_proxy : ℕ → Bool → Option (ProxyDb net) → Shim net → Reply ℤ × Shim net
  unfolding close_now
  close_proxy db v2 none s =
      (forward (codes (if v2 then "sqlite3_close_v2" else "sqlite3_close")) sqlite_error, s)
  close_proxy db v2 (some p) s =
      if not v2 && not (is_empty p.stmts)
      then (mine sqlite_busy, s)
      else (mine sqlite_ok, close_now db p s)

  unfoldable pub close_db : ℕ → Bool → Shim net → Reply ℤ × Shim net
  unfolding close_proxy
  close_db db v2 s = if db == 0 then (mine sqlite_ok, s) else close_proxy db v2 (as_db db s) s

  -- The new statement gets its address, and is registered at both ends.
  unfoldable pub add_stmt :
      ℕ → Bytes → Response → ProxyDb net → Option ℕ → Shim net → Prepared × Shim net
  unfolding new_stmt
  add_stmt db sql resp p tail s =
      let (raw, w) = net.allocate s.world in
      (
        record { rc = mine sqlite_ok; stmt = raw; tail = tail },
        put_db db (link_stmt raw p) (put_stmt raw (new_stmt db sql resp) (record s { world = w })),
      )

  -- `text[..tail]` panics inside a character, and `guard` makes an error of it.
  unfoldable pub compiled :
      PrepareCall → Bytes → ℕ → Response → ProxyDb net → Option ℕ → Shim net → Prepared × Shim net
  unfolding add_stmt
  compiled c text tail resp p written s =
      if resp.empty
      then (no_stmt sqlite_ok written, s)
      else if tail == 0
      then add_stmt c.db text resp p written s
      else if is_char_boundary text tail
      then add_stmt c.db (take tail text) resp p written s
      else (no_stmt sqlite_error written, s)

  unfoldable pub described :
      PrepareCall
      → Bytes
      → Option ℕ
      → Result Bytes Response × ProxyDb net × Shim net
      → Prepared × Shim net
  unfolding compiled
  described c text early (err e, p, s) = (no_stmt p.errcode early, s)
  described c text early (ok resp, p, s) =
      let tail = min resp.tail (length text) in
      compiled c text tail resp p (if c.has_tail then some tail else early) s

  unfoldable pub prepare_proxy :
      PrepareCall → Option (ProxyDb net) → Option Bytes → Shim net → Prepared × Shim net
  unfolding described call
  prepare_proxy c none sql s =
      (record { rc = forward (codes "sqlite3_prepare_v2") sqlite_error; stmt = 0; tail = none }, s)
  prepare_proxy c (some p) none s = (no_stmt sqlite_misuse none, s)
  prepare_proxy c (some p) (some bytes) s =
      let text = sql_from (some bytes) c.nbytes in
      described c text (early_tail c bytes) (call c.db (prepare text) p s)

  -- Where `ppstmt` is null nothing is written.
  unfoldable pub prepare_v2 : PrepareCall → Shim net → Prepared × Shim net
  unfolding prepare_proxy
  prepare_v2 c s =
      if c.has_stmt then prepare_proxy c (as_db c.db s) c.sql s else (no_stmt sqlite_misuse none, s)

  -- The statement goes on with its rows.
  unfoldable pub advance : ℕ → ProxyStmt → Shim net → Reply ℤ × Shim net
  advance stmt p s = let (rc, p') = next_row net.display_real p in (mine rc, put_stmt stmt p' s)

  unfoldable pub executed :
      ℕ → ProxyStmt → Result Bytes Response × ProxyDb net × Shim net → Reply ℤ × Shim net
  unfolding advance
  executed stmt p (ok resp, d, s) = advance stmt (fill resp p) s
  executed stmt p (err e, d, s) =
      let code = or_error d.errcode in (mine code, put_stmt stmt (break code p) s)

  unfoldable pub execute_stmt :
      ℕ → ProxyStmt → Option (ProxyDb net) → Shim net → Option (Reply ℤ × Shim net)
  unfolding executed call
  execute_stmt stmt p none s = none
  execute_stmt stmt p (some d) s = some (executed stmt p (call p.db (exec p.sql p.params) d s))

  unfoldable pub step_registered : ℕ → Option ProxyStmt → Shim net → Option (Reply ℤ × Shim net)
  unfolding execute_stmt advance
  step_registered stmt none s = some (forward (codes "sqlite3_step") sqlite_error, s)
  step_registered stmt (some p) s =
      if p.started then some (advance stmt p s) else execute_stmt stmt p (Assoc.get p.db s.dbs) s

  unfoldable pub step_stmt : ℕ → Shim net → Option (Reply ℤ × Shim net)
  unfolding step_registered
  step_stmt stmt s = step_registered stmt (as_stmt stmt s) s

  unfoldable pub reset_registered : ℕ → Option ProxyStmt → Shim net → Reply ℤ × Shim net
  reset_registered stmt none s = (forward (codes "sqlite3_reset") sqlite_error, s)
  reset_registered stmt (some p) s = (mine sqlite_ok, put_stmt stmt (cleared p) s)

  -- `sqlite3_reset`
  unfoldable pub reset : ℕ → Shim net → Reply ℤ × Shim net
  unfolding reset_registered
  reset stmt s = reset_registered stmt (as_stmt stmt s) s

  -- The statement is off its connection's list; a connection that waited for that goes.
  unfoldable pub unlinked : ℕ → ProxyDb net → Shim net → Shim net
  unfolding destroy_db
  unlinked db p s =
      let listed = put_db db p s in
      if p.closed && is_empty p.stmts then destroy_db db listed else listed

  unfoldable pub finalize_linked :
      ℕ → ProxyStmt → Option (ProxyDb net) → Shim net → Option (Reply ℤ × Shim net)
  unfolding unlinked
  finalize_linked stmt p none s = none
  finalize_linked stmt p (some d) s = some (mine sqlite_ok, unlinked p.db (unlink_stmt stmt d) s)

  unfoldable pub finalize_registered : ℕ → Option ProxyStmt → Shim net → Option (Reply ℤ × Shim net)
  unfolding finalize_linked
  finalize_registered stmt none s = some (forward (codes "sqlite3_finalize") sqlite_error, s)
  finalize_registered stmt (some p) s =
      finalize_linked stmt p (Assoc.get p.db s.dbs) (record s { stmts = Assoc.remove stmt s.stmts })

  unfoldable pub finalize_stmt : ℕ → Shim net → Option (Reply ℤ × Shim net)
  unfolding finalize_registered
  finalize_stmt stmt s =
      if stmt == 0
      then some (mine sqlite_ok, s)
      else finalize_registered stmt (Assoc.get stmt s.stmts) s
