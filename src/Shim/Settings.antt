-- ===== src/Shim/Settings.antt =====
-- The questions about a connection, and its settings, in shim/src/api.rs. A connection of the shim
-- takes a setting without an effect.
use sqlite_broker.Prelude.{
  ℕ, ℤ, pos, negsuc, Bool, ◌||◌, if◌then◌else◌, [], Option, none, some, is_empty, bytes_eq,
}
use sqlite_broker.Text.{Bytes, codes}
use sqlite_broker.Text.Utf8.{from_utf8}
use sqlite_broker.Text.Search.{until_nul}
use sqlite_broker.Shim.State.{
  Net, Shim, Reply, mine, forward, as_db, as_stmt, sqlite_ok, sqlite_error,
}
use sqlite_broker.Shim.Columns.{
  ask, ask_db, changes, total_changes, errcode, column_int64, Floats, as_i32,
}
use sqlite_broker.Shim.Exec.{malloc_cstr}
use sqlite_broker.Shim.Keyword.{limit_value}

-- `as i32`, and the widening `as i64`, of an answer.
abbrev pub map_reply {ℓ κ} : {A : Type ℓ} {B : Type κ} → (A → B) → Reply A → Reply B
map_reply f (mine a) = mine (f a)
map_reply f (forward symbol missing) = forward symbol (f missing)

abbrev pub or_empty_text : Option Bytes → Bytes
or_empty_text none = []
or_empty_text (some text) = text

-- The name of a schema: what is no UTF-8 counts as no name.
unfoldable pub schema_name : Option Bytes → Bytes
schema_name none = []
schema_name (some name) = or_empty_text (from_utf8 (until_nul name))

module _ {net : Net} where
  unfoldable pub changes64 : ℕ → Shim net → Reply ℤ
  unfolding changes
  changes64 db s = changes db s

  unfoldable pub total_changes64 : ℕ → Shim net → Reply ℤ
  unfolding total_changes
  total_changes64 db s = total_changes db s

  unfoldable pub extended_errcode : ℕ → Shim net → Reply ℤ
  unfolding errcode
  extended_errcode db s = errcode db s

  -- A call of `sqlite3_column_int64`, and what comes back cut to 32 bits.
  unfoldable pub column_int : Floats → ℕ → ℤ → Shim net → Reply ℤ
  unfolding column_int64 as_i32
  column_int floats stmt i s = map_reply as_i32 (column_int64 floats stmt i s)

  -- The names of a column's table, database and origin: the shim knows none.
  unfoldable pub column_name_forward : ℕ → Bytes → Shim net → Reply (Option Bytes)
  unfolding ask
  column_name_forward stmt symbol s = ask symbol none (λ p. none) stmt s

  unfoldable pub column_table_name : ℕ → Shim net → Reply (Option Bytes)
  unfolding column_name_forward
  column_table_name stmt = column_name_forward stmt (codes "sqlite3_column_table_name")

  unfoldable pub column_database_name : ℕ → Shim net → Reply (Option Bytes)
  unfolding column_name_forward
  column_database_name stmt = column_name_forward stmt (codes "sqlite3_column_database_name")

  unfoldable pub column_origin_name : ℕ → Shim net → Reply (Option Bytes)
  unfolding column_name_forward
  column_origin_name stmt = column_name_forward stmt (codes "sqlite3_column_origin_name")

  -- A copy of the text as it was prepared, the parameters not put in, or 0 where there is no memory.
  unfoldable pub expanded_sql : ℕ → Shim net → Reply ℕ × Shim net
  unfolding malloc_cstr
  expanded_sql stmt s = elim (as_stmt stmt s) [
    | none ↦ (forward (codes "sqlite3_expanded_sql") 0, s)
    | some p ↦ let (raw, s') = malloc_cstr p.sql s in (mine raw, s')
  ]

  -- What a connection of the shim answers with SQLITE_OK, whatever it is set to.
  unfoldable pub take_setting : Bytes → ℕ → Shim net → Reply ℤ
  unfolding ask_db
  take_setting symbol = ask_db symbol sqlite_error λ d. sqlite_ok

  unfoldable pub busy_timeout : (db : ℕ) (ms : ℤ) → Shim net → Reply ℤ
  unfolding take_setting
  busy_timeout db ms = take_setting (codes "sqlite3_busy_timeout") db

  unfoldable pub busy_handler : (db handler arg : ℕ) → Shim net → Reply ℤ
  unfolding take_setting
  busy_handler db handler arg = take_setting (codes "sqlite3_busy_handler") db

  unfoldable pub extended_result_codes : (db : ℕ) (on : ℤ) → Shim net → Reply ℤ
  unfolding take_setting
  extended_result_codes db on = take_setting (codes "sqlite3_extended_result_codes") db

  -- The limits do not change.
  unfoldable pub limit : (db : ℕ) (id new_val : ℤ) → Shim net → Reply ℕ
  unfolding ask_db
  limit db id new_val = ask_db (codes "sqlite3_limit") (limit_value id) (λ d. limit_value id) db

  -- The answer, and what is written through `b`, if anything is.
  unfoldable pub db_config : (db : ℕ) (op a : ℤ) (has_b : Bool) → Shim net → Reply ℤ × Option ℤ
  db_config db op a has_b s = elim (as_db db s) [
    | none ↦ (forward (codes "sqlite3_db_config") sqlite_error, none)
    | some d ↦ (mine sqlite_ok, if has_b then some a else none)
  ]

  unfoldable pub db_filename : ℕ → Option Bytes → Shim net → Reply (Option Bytes)
  unfolding schema_name
  db_filename db name s = elim (as_db db s) [
    | none ↦ forward (codes "sqlite3_db_filename") none
    | some d ↦
        let schema = schema_name name in
        mine (if is_empty schema || bytes_eq schema (codes "main") then some d.filename else none)
  ]

  unfoldable pub db_readonly : ℕ → Option Bytes → Shim net → Reply ℤ
  unfolding ask_db
  db_readonly db name = ask_db (codes "sqlite3_db_readonly") (negsuc 0) (λ d. pos 0) db
