-- ===== src/Shim/Exec.antt =====
-- `malloc_cstr`, `exec_sql` and `sqlite3_free` of shim/src/lib.rs. The callback is the program's: it
-- gets the texts and the names of a row, and acts on the world.
pub mod Laws
use sqlite_broker.Prelude.{
  ℕ, zero, suc, ◌+◌, ◌-◌, ◌==◌, ℤ, pos, int_eq, Bool, true, false, if◌then◌else◌, List, [], ◌∷◌,
  ◌++◌, map, has, Option, none, some, length,
}
use sqlite_broker.Prelude.Result.{Result, ok, err}
use sqlite_broker.Text.{Bytes, codes}
use sqlite_broker.Protocol.Message.{Cell, exec, Response}
use sqlite_broker.Protocol.Render.{render}
use sqlite_broker.Shim.State.{
  Net, ProxyDb, Shim, Reply, mine, forward, as_db, put_db, sqlite_ok, sqlite_error, sqlite_abort,
  sqlite_misuse,
}
use sqlite_broker.Shim.Proxy.{cstring_lossy, or_error, apply, without}
use sqlite_broker.Shim.Statement.{sql_from, call}

-- `names.resize_with`: there is a name for every value.
abbrev pub blanks : ℕ → List Bytes
blanks zero = []
blanks (suc n) = [] ∷ blanks n

unfoldable pub padded : ℕ → List Bytes → List Bytes
padded n names = names ++ blanks (n - length names)

-- The answer that a callback's refusal leaves on the connection.
abbrev pub aborted : Response → Response
aborted resp = record {
  ok = false;
  message = codes "callback aborted";
  code = sqlite_abort;
  columns = [];
  rows = [];
  changes = resp.changes;
  last_insert_rowid = resp.last_insert_rowid;
  autocommit = resp.autocommit;
  tail = 0;
  param_count = pos 0;
  param_names = [];
  decltypes = [];
  total_changes = resp.total_changes;
  empty = false;
}

module _ (net : Net) where
  abbrev pub Callback : Type 0
  Callback = (values names : List Bytes) → net.World → ℤ × net.World

  -- The loop over the rows: does the callback refuse one?
  unfoldable pub show_rows : Callback → List Bytes → List (List Cell) → net.World → Bool × net.World
  unfolding padded
  show_rows callback columns [] w = (false, w)
  show_rows callback columns (row ∷ rows) w =
      let values = map (λ cell. cstring_lossy (render net.display_real cell)) row in
      let (rc, w') = callback values (padded (length values) (map cstring_lossy columns)) w in
      let rest = show_rows callback columns rows w' in
      if int_eq rc (pos 0) then rest else (true, w')

  abbrev pub run_callback : Option Callback → Response → net.World → Bool × net.World
  run_callback none resp w = (false, w)
  run_callback (some callback) resp w = show_rows callback resp.columns resp.rows w

module _ {net : Net} where
  -- The address is 0 where there is no memory.
  unfoldable pub malloc_cstr : Bytes → Shim net → ℕ × Shim net
  malloc_cstr text s =
      let (raw, w) = net.malloc (length text + 1) s.world in
      if raw == 0
      then (0, record s { world = w })
      else (raw, record s { world = w; allocated = raw ∷ s.allocated })

  -- `sqlite3_free`
  unfoldable pub free : ℕ → Shim net → Reply (Unit {0}) × Shim net
  free raw s =
      if raw == 0
      then (mine tt, s)
      else if has raw s.allocated
      then (mine tt, record s { allocated = without raw s.allocated })
      else (forward (codes "sqlite3_free") tt, s)

  -- `*errmsg_out = malloc_cstr(..)`, if the pointer is there.
  unfoldable pub report : Bool → Bytes → ℤ → Shim net → Reply ℤ × Option ℕ × Shim net
  unfolding malloc_cstr
  report has_errmsg text code s =
      let (raw, s') = malloc_cstr text s in
      if has_errmsg then (mine code, some raw, s') else (mine code, none, s)

  unfoldable pub shown :
      ℕ
      → Bool
      → Response
      → ProxyDb net
      → Bool × net.World
      → Shim net
      → Reply ℤ × Option ℕ × Shim net
  unfolding report
  shown db has_errmsg resp p (false, w) s =
      (mine sqlite_ok, (if has_errmsg then some 0 else none), record s { world = w })
  shown db has_errmsg resp p (true, w) s =
      report has_errmsg (codes "callback aborted") sqlite_abort
        (put_db db (apply (aborted resp) p) (record s { world = w }))

  unfoldable pub answered_exec :
      ℕ
      → Option (Callback net)
      → Bool
      → Result Bytes Response × ProxyDb net × Shim net
      → Reply ℤ × Option ℕ × Shim net
  unfolding shown report
  answered_exec db callback has_errmsg (ok resp, p, s) =
      shown db has_errmsg resp p (run_callback net callback resp s.world) s
  answered_exec db callback has_errmsg (err message, p, s) =
      report has_errmsg message (or_error p.errcode) s

  unfoldable pub exec_proxy :
      ℕ
      → Option Bytes
      → Option (Callback net)
      → Bool
      → Option (ProxyDb net)
      → Shim net
      → Reply ℤ × Option ℕ × Shim net
  unfolding answered_exec call
  exec_proxy db sql callback has_errmsg none s =
      (forward (codes "sqlite3_exec") sqlite_error, none, s)
  exec_proxy db none callback has_errmsg (some p) s = (mine sqlite_misuse, none, s)
  exec_proxy db (some bytes) callback has_errmsg (some p) s =
      answered_exec db callback has_errmsg
        (call db (exec (sql_from (some bytes) (ℤ.negsuc 0)) []) p s)

  -- The answer, and what is written to `*errmsg_out`, if anything is.
  unfoldable pub exec_sql :
      ℕ → Option Bytes → Option (Callback net) → Bool → Shim net → Reply ℤ × Option ℕ × Shim net
  unfolding exec_proxy
  exec_sql db sql callback has_errmsg s = exec_proxy db sql callback has_errmsg (as_db db s) s
