-- ===== src/Shim/Forwarding.antt =====
-- Which calls the exported functions of shim/src/lib.rs and shim/src/api.rs hand to the real
-- libsqlite3, which would take a pointer of the shim's for a pointer to a struct of its own.
pub mod Foreign
use sqlite_broker.Prelude.{
  ℕ, ℤ, Bool, true, false, ◌||◌, ◌==◌, ◌≡◌, Option, none, some, has, if◌then◌else◌, ◌>>=◌,
}
use sqlite_broker.Text.{Bytes}
use sqlite_broker.Shim.State.{Net, ProxyDb, Shim, Reply, mine, forward, as_db, as_stmt}
use sqlite_broker.Shim.Statement.{
  PrepareCall, close_db, prepare_v2, step_stmt, reset, finalize_stmt,
}
use sqlite_broker.Shim.Exec.{Callback, exec_sql, free}
use sqlite_broker.Shim.Bind.{
  BindCall, bind_stmt, bind_parameter_count, bind_parameter_name, bind_parameter_index,
}
use sqlite_broker.Shim.Columns.{
  Floats, column_count, column_text, column_name, column_type, column_int64, column_double,
  column_bytes, column_blob, column_decltype, data_count, stmt_busy, stmt_readonly, db_handle,
  sql_text, next_stmt, changes, total_changes, last_insert_rowid, errmsg, errcode, get_autocommit,
}
use sqlite_broker.Shim.Settings.{
  changes64, total_changes64, extended_errcode, column_int, column_table_name, column_database_name,
  column_origin_name, expanded_sql, busy_timeout, busy_handler, extended_result_codes, limit,
  db_config, db_filename, db_readonly,
}
use sqlite_broker.Shim.Extensions.{
  set_authorizer, trace_v2, progress_handler, interrupt, create_function, create_function_v2,
  create_window_function, create_collation, create_collation_v2, enable_load_extension,
  load_extension, blob_open, backup_init, serialize, deserialize,
}

-- The questions about a statement.
pub data StmtQuestion : Type 0 where
  asks_column_count asks_data_count asks_busy asks_readonly asks_db asks_sql : StmtQuestion
  asks_text asks_name asks_type asks_int64 asks_int asks_double asks_bytes asks_blob asks_decltype :
      (i : ℤ) → StmtQuestion
  asks_table asks_database asks_origin : StmtQuestion
  asks_parameter_count : StmtQuestion
  asks_parameter_name : (index : ℤ) → StmtQuestion
  asks_parameter_index : (name : Option Bytes) → StmtQuestion

-- The questions about a connection, and its settings.
pub data DbQuestion : Type 0 where
  asks_changes asks_changes64 asks_total asks_total64 asks_rowid asks_errmsg asks_errcode :
      DbQuestion
  asks_extended asks_autocommit interrupts : DbQuestion
  asks_next : (stmt : ℕ) → DbQuestion
  asks_filename asks_db_readonly : (name : Option Bytes) → DbQuestion
  sets_timeout sets_result_codes enables_extension : (n : ℤ) → DbQuestion
  sets_busy_handler sets_authorizer : (callback arg : ℕ) → DbQuestion
  sets_trace : (mask callback arg : ℕ) → DbQuestion
  sets_progress : (n : ℤ) (callback arg : ℕ) → DbQuestion
  sets_limit : (id new_val : ℤ) → DbQuestion
  sets_config : (op a : ℤ) (has_b : Bool) → DbQuestion
  adds_function adds_function_v2 adds_window adds_collation adds_collation_v2 : DbQuestion
  serializes : (has_size : Bool) → DbQuestion

-- The calls that change something.
pub data ApiCall (net : Net) : Type 0 where
  about_stmt : (q : StmtQuestion) (stmt : ℕ) → ApiCall net
  about_db : (q : DbQuestion) (db : ℕ) → ApiCall net
  closes_db : (db : ℕ) (v2 : Bool) → ApiCall net
  prepares : PrepareCall → ApiCall net
  binds : (c : BindCall) (stmt : ℕ) → ApiCall net
  execs :
      (db : ℕ) (sql : Option Bytes) (callback : Option (Callback net)) (has_errmsg : Bool)
      → ApiCall net
  steps resets finalizes expands : (stmt : ℕ) → ApiCall net
  frees : (raw : ℕ) → ApiCall net
  loads : (db : ℕ) (has_err : Bool) → ApiCall net
  opens_blob : (db : ℕ) (has_out : Bool) → ApiCall net
  backs_up : (dest source : ℕ) → ApiCall net
  deserializes : (db : ℕ) → ApiCall net

abbrev pub is_forward {ℓ} : {A : Type ℓ} → Reply A → Bool
is_forward (mine a) = false
is_forward (forward symbol missing) = true

abbrev pub is_some {ℓ} : {A : Type ℓ} → Option A → Bool
is_some none = false
is_some (some a) = true

module _ {net : Net} (floats : Floats) where
  -- Is the question handed on?
  unfoldable pub asks_stmt : StmtQuestion → ℕ → Shim net → Bool
  asks_stmt asks_column_count stmt s = is_forward (column_count stmt s)
  asks_stmt asks_data_count stmt s = is_forward (data_count stmt s)
  asks_stmt asks_busy stmt s = is_forward (stmt_busy stmt s)
  asks_stmt asks_readonly stmt s = is_forward (stmt_readonly stmt s)
  asks_stmt asks_db stmt s = is_forward (db_handle stmt s)
  asks_stmt asks_sql stmt s = is_forward (sql_text stmt s)
  asks_stmt (asks_text i) stmt s = is_forward (column_text stmt i s)
  asks_stmt (asks_name i) stmt s = is_forward (column_name stmt i s)
  asks_stmt (asks_type i) stmt s = is_forward (column_type stmt i s)
  asks_stmt (asks_int64 i) stmt s = is_forward (column_int64 floats stmt i s)
  asks_stmt (asks_int i) stmt s = is_forward (column_int floats stmt i s)
  asks_stmt (asks_double i) stmt s = is_forward (column_double floats stmt i s)
  asks_stmt (asks_bytes i) stmt s = is_forward (column_bytes stmt i s)
  asks_stmt (asks_blob i) stmt s = is_forward (column_blob stmt i s)
  asks_stmt (asks_decltype i) stmt s = is_forward (column_decltype stmt i s)
  asks_stmt asks_table stmt s = is_forward (column_table_name stmt s)
  asks_stmt asks_database stmt s = is_forward (column_database_name stmt s)
  asks_stmt asks_origin stmt s = is_forward (column_origin_name stmt s)
  asks_stmt asks_parameter_count stmt s = is_forward (bind_parameter_count stmt s)
  asks_stmt (asks_parameter_name index) stmt s = is_forward (bind_parameter_name stmt index s)
  asks_stmt (asks_parameter_index name) stmt s = is_forward (bind_parameter_index stmt name s)

module _ {net : Net} where
  unfoldable pub asks_connection : DbQuestion → ℕ → Shim net → Bool
  asks_connection asks_changes db s = is_forward (changes db s)
  asks_connection asks_changes64 db s = is_forward (changes64 db s)
  asks_connection asks_total db s = is_forward (total_changes db s)
  asks_connection asks_total64 db s = is_forward (total_changes64 db s)
  asks_connection asks_rowid db s = is_forward (last_insert_rowid db s)
  asks_connection asks_errmsg db s = is_forward (errmsg db s)
  asks_connection asks_errcode db s = is_forward (errcode db s)
  asks_connection asks_extended db s = is_forward (extended_errcode db s)
  asks_connection asks_autocommit db s = is_forward (get_autocommit db s)
  asks_connection interrupts db s = is_forward (interrupt db s)
  asks_connection (asks_next stmt) db s = is_forward (next_stmt db stmt s)
  asks_connection (asks_filename name) db s = is_forward (db_filename db name s)
  asks_connection (asks_db_readonly name) db s = is_forward (db_readonly db name s)
  asks_connection (sets_timeout ms) db s = is_forward (busy_timeout db ms s)
  asks_connection (sets_result_codes on) db s = is_forward (extended_result_codes db on s)
  asks_connection (enables_extension on) db s = is_forward (enable_load_extension db on s)
  asks_connection (sets_busy_handler callback arg) db s =
      is_forward (busy_handler db callback arg s)
  asks_connection (sets_authorizer callback arg) db s =
      is_forward (set_authorizer db callback arg s)
  asks_connection (sets_trace mask callback arg) db s = is_forward (trace_v2 db mask callback arg s)
  asks_connection (sets_progress n callback arg) db s =
      is_forward (progress_handler db n callback arg s)
  asks_connection (sets_limit id new_val) db s = is_forward (limit db id new_val s)
  asks_connection (sets_config op a has_b) db s = is_forward (db_config db op a has_b s).0
  asks_connection adds_function db s = is_forward (create_function db s)
  asks_connection adds_function_v2 db s = is_forward (create_function_v2 db s)
  asks_connection adds_window db s = is_forward (create_window_function db s)
  asks_connection adds_collation db s = is_forward (create_collation db s)
  asks_connection adds_collation_v2 db s = is_forward (create_collation_v2 db s)
  asks_connection (serializes has_size) db s = is_forward (serialize db has_size s).0

  abbrev pub told {ℓ} : {A : Type ℓ} → Reply A × Shim net → Bool × Shim net
  told r = (is_forward r.0, r.1)

  abbrev pub told_more {ℓ κ} : {A : Type ℓ} {B : Type κ} → Reply A × B × Shim net → Bool × Shim net
  told_more r = (is_forward r.0, r.2)

module _ {net : Net} (floats : Floats) where
  -- Is the call handed on, and the state after it? `none` is a call that follows a pointer to a
  -- connection that is no more.
  unfoldable pub outcome : ApiCall net → Shim net → Option (Bool × Shim net)
  unfolding asks_stmt asks_connection
  outcome (about_stmt q stmt) s = some (asks_stmt floats q stmt s, s)
  outcome (about_db q db) s = some (asks_connection q db s, s)
  outcome (closes_db db v2) s = some (told (close_db db v2 s))
  outcome (prepares c) s = let (r, s') = prepare_v2 c s in some (is_forward r.rc, s')
  outcome (binds c stmt) s = some (told_more (bind_stmt c stmt s))
  outcome (execs db sql callback has_errmsg) s =
      some (told_more (exec_sql db sql callback has_errmsg s))
  outcome (steps stmt) s = (step_stmt stmt s >>= λ r. some (told r))
  outcome (resets stmt) s = some (told (reset stmt s))
  outcome (finalizes stmt) s = (finalize_stmt stmt s >>= λ r. some (told r))
  outcome (expands stmt) s = some (told (expanded_sql stmt s))
  outcome (frees raw) s = some (told (free raw s))
  outcome (loads db has_err) s = some (told_more (load_extension db has_err s))
  outcome (opens_blob db has_out) s = some (told_more (blob_open db has_out s))
  outcome (backs_up dest source) s = some (told (backup_init dest source s))
  outcome (deserializes db) s = some (told (deserialize db s))

module _ {net : Net} where
  -- Is the statement that a question about a connection is given, which `sqlite3_next_stmt` alone is,
  -- the shim's own?
  abbrev pub asks_own : DbQuestion → Shim net → Bool
  asks_own (asks_next stmt) s = is_some (as_stmt stmt s)
  asks_own q s = false

  -- Is a connection, a statement or an address that the call is given, where it takes one, the shim's own?
  abbrev pub is_own : ApiCall net → Shim net → Bool
  is_own (about_stmt q stmt) s = is_some (as_stmt stmt s)
  is_own (about_db q db) s = is_some (as_db db s) || asks_own q s
  is_own (closes_db db v2) s = is_some (as_db db s)
  is_own (prepares c) s = is_some (as_db c.db s)
  is_own (binds c stmt) s = is_some (as_stmt stmt s)
  is_own (execs db sql callback has_errmsg) s = is_some (as_db db s)
  is_own (steps stmt) s = is_some (as_stmt stmt s)
  is_own (resets stmt) s = is_some (as_stmt stmt s)
  is_own (finalizes stmt) s = is_some (as_stmt stmt s)
  is_own (expands stmt) s = is_some (as_stmt stmt s)
  is_own (frees raw) s = has raw s.allocated
  is_own (loads db has_err) s = is_some (as_db db s)
  is_own (opens_blob db has_out) s = is_some (as_db db s)
  is_own (backs_up dest source) s = is_some (as_db dest s) || is_some (as_db source s)
  is_own (deserializes db) s = is_some (as_db db s)

  -- As SQLite asks: a statement for `sqlite3_next_stmt` belongs to the connection beside it, so a
  -- statement of the shim's stands beside a connection of the shim's.
  abbrev pub IsPaired : ApiCall net → Shim net → Type 0
  IsPaired (about_db q db) s = asks_own q s ≡ true → is_some (as_db db s) ≡ true
  IsPaired c s = Unit
