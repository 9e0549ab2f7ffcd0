-- ===== src/Client/Shimmed.antt =====
-- `Db` of server/src/capi.rs in a process that has the shim loaded: every call of libsqlite3 is a call
-- of the shim's. A call that the shim hands on finds no other library.
pub mod Cells
pub mod Rows
use sqlite_broker.Prelude.{ℕ, ℤ, negsuc, Bool, true, false, Option, none, some}
use sqlite_broker.Text.{Bytes}
use sqlite_broker.Shim.State.{Net, Shim, Reply, mine, forward, sqlite_misuse}
use sqlite_broker.Shim.Statement.{
  PrepareCall, Prepared, close_db, prepare_v2, step_stmt, finalize_stmt,
}
use sqlite_broker.Shim.Open.{open_v2}
use sqlite_broker.Shim.Exec.{exec_sql}
use sqlite_broker.Shim.Columns.{column_count, column_text, changes, last_insert_rowid, errmsg}
use sqlite_broker.Client.Capi.{Api}

abbrev pub answer {ℓ} : {A : Type ℓ} → Reply A → A
answer (mine a) = a
answer (forward symbol missing) = missing

abbrev pub whole_text : ℕ → Bytes → PrepareCall
whole_text db sql = record {
  db = db;
  sql = some sql;
  nbytes = negsuc 0;
  has_stmt = true;
  has_tail = false;
}

module _ (net : Net) where
  -- A call on a statement. What a dangling pointer does is not defined; SQLITE_MISUSE stands for it.
  abbrev pub settled : Option (Reply ℤ × Shim net) → Shim net → ℤ × Shim net
  settled none s = (sqlite_misuse, s)
  settled (some (r, s')) s = (answer r, s')

  abbrev pub shim_api : Api
  shim_api = record {
    World = Shim net;
    sqlite3_open = λ path s. let (r, db, s') = open_v2 true (some path) s in ((answer r, db), s');
    sqlite3_close = λ db s. (close_db db false s).1;
    sqlite3_exec =
        λ db sql s. let (r, message, s') = exec_sql db (some sql) none false s in (answer r, s');
    sqlite3_prepare_v2 =
        λ db sql s. let (r, s') = prepare_v2 (whole_text db sql) s in ((answer r.rc, r.stmt), s');
    sqlite3_step = λ stmt s. settled (step_stmt stmt s) s;
    sqlite3_finalize = λ stmt s. (settled (finalize_stmt stmt s) s).1;
    sqlite3_column_count = λ stmt s. answer (column_count stmt s);
    sqlite3_column_text = λ stmt i s. answer (column_text stmt i s);
    sqlite3_changes = λ db s. answer (changes db s);
    sqlite3_last_insert_rowid = λ db s. answer (last_insert_rowid db s);
    sqlite3_errmsg = λ db s. some (answer (errmsg db s));
  }
