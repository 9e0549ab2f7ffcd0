-- ===== src/Shim/Extensions.antt =====
-- The functions of shim/src/api.rs by which a program adds to SQLite or reaches behind it. On a
-- connection of the shim they have no effect, or they are refused.
pub mod Refused
pub mod Owned
use mathlib.Core.Option
use sqlite_broker.Prelude.{ℕ, ℤ, Bool, if◌then◌else◌, Option, none, some}
use sqlite_broker.Text.{Bytes, codes}
use sqlite_broker.Shim.State.{Net, ProxyDb, Shim, Reply, mine, forward, as_db, put_db, sqlite_error}
use sqlite_broker.Shim.Proxy.{fail}
use sqlite_broker.Shim.Columns.{ask_db}
use sqlite_broker.Shim.Exec.{report, free}
use sqlite_broker.Shim.Settings.{take_setting, expanded_sql}

abbrev pub no_extensions : Bytes
no_extensions = codes "sqlite-broker does not load extensions"

abbrev pub no_blobs : Bytes
no_blobs = codes "sqlite-broker does not support incremental blobs"

abbrev pub no_deserialize : Bytes
no_deserialize = codes "sqlite-broker does not support deserialize"

abbrev pub no_backup : Bytes
no_backup = codes "sqlite-broker does not support backup"

module _ {net : Net} where
  unfoldable pub set_authorizer : (db callback arg : ℕ) → Shim net → Reply ℤ
  unfolding take_setting
  set_authorizer db callback arg = take_setting (codes "sqlite3_set_authorizer") db

  unfoldable pub trace_v2 : (db mask callback arg : ℕ) → Shim net → Reply ℤ
  unfolding take_setting
  trace_v2 db mask callback arg = take_setting (codes "sqlite3_trace_v2") db

  unfoldable pub progress_handler :
      (db : ℕ) (n : ℤ) (callback arg : ℕ) → Shim net → Reply (Unit {0})
  unfolding ask_db
  progress_handler db n callback arg = ask_db (codes "sqlite3_progress_handler") tt (λ d. tt) db

  unfoldable pub interrupt : (db : ℕ) → Shim net → Reply (Unit {0})
  unfolding ask_db
  interrupt db = ask_db (codes "sqlite3_interrupt") tt (λ d. tt) db

  unfoldable pub create_function : (db : ℕ) → Shim net → Reply ℤ
  unfolding take_setting
  create_function = take_setting (codes "sqlite3_create_function")

  unfoldable pub create_function_v2 : (db : ℕ) → Shim net → Reply ℤ
  unfolding take_setting
  create_function_v2 = take_setting (codes "sqlite3_create_function_v2")

  unfoldable pub create_window_function : (db : ℕ) → Shim net → Reply ℤ
  unfolding take_setting
  create_window_function = take_setting (codes "sqlite3_create_window_function")

  unfoldable pub create_collation : (db : ℕ) → Shim net → Reply ℤ
  unfolding take_setting
  create_collation = take_setting (codes "sqlite3_create_collation")

  unfoldable pub create_collation_v2 : (db : ℕ) → Shim net → Reply ℤ
  unfolding take_setting
  create_collation_v2 = take_setting (codes "sqlite3_create_collation_v2")

  unfoldable pub enable_load_extension : (db : ℕ) (on : ℤ) → Shim net → Reply ℤ
  unfolding take_setting
  enable_load_extension db on = take_setting (codes "sqlite3_enable_load_extension") db

  -- `proxy.fail(..)`
  unfoldable pub failed : ℕ → Bytes → ProxyDb net → Shim net → Shim net
  unfolding fail put_db
  failed db message p s = put_db db (fail message p) s

  -- The answer, and what is written to `*err`, if anything is.
  unfoldable pub load_extension : ℕ → Bool → Shim net → Reply ℤ × Option ℕ × Shim net
  unfolding failed report
  load_extension db has_err s = elim (as_db db s) [
    | none ↦ (forward (codes "sqlite3_load_extension") sqlite_error, none, s)
    | some p ↦ report has_err no_extensions sqlite_error (failed db no_extensions p s)
  ]

  -- The answer, and what is written to `*out`, if anything is.
  unfoldable pub blob_open : ℕ → Bool → Shim net → Reply ℤ × Option ℕ × Shim net
  unfolding failed
  blob_open db has_out s = elim (as_db db s) [
    | none ↦ (forward (codes "sqlite3_blob_open") sqlite_error, none, s)
    | some p ↦ (mine sqlite_error, if has_out then some 0 else none, failed db no_blobs p s)
  ]

  -- The error is the destination's, or the source's where the destination is none of the shim's.
  unfoldable pub backup_between :
      ℕ → ℕ → Option (ProxyDb net) → Option (ProxyDb net) → Shim net → Reply ℕ × Shim net
  unfolding failed
  backup_between dest source (some p) q s = (mine 0, failed dest no_backup p s)
  backup_between dest source none (some q) s = (mine 0, failed source no_backup q s)
  backup_between dest source none none s = (forward (codes "sqlite3_backup_init") 0, s)

  unfoldable pub backup_init : (dest source : ℕ) → Shim net → Reply ℕ × Shim net
  unfolding backup_between
  backup_init dest source s = backup_between dest source (as_db dest s) (as_db source s) s

  -- The answer, and what is written to `*size`, if anything is.
  unfoldable pub serialize : ℕ → Bool → Shim net → Reply ℕ × Option ℕ
  serialize db has_size s = elim (as_db db s) [
    | none ↦ (forward (codes "sqlite3_serialize") 0, none)
    | some p ↦ (mine 0, if has_size then some 0 else none)
  ]

  unfoldable pub deserialize : ℕ → Shim net → Reply ℤ × Shim net
  unfolding failed
  deserialize db s = elim (as_db db s) [
    | none ↦ (forward (codes "sqlite3_deserialize") sqlite_error, s)
    | some p ↦ (mine sqlite_error, failed db no_deserialize p s)
  ]

-- The calls here and in Exec.antt and Settings.antt that change something besides what a statement or
-- the transaction of a connection holds.
pub data SideCall : Type 0 where
  loads : (db : ℕ) (has_err : Bool) → SideCall
  opens_blob : (db : ℕ) (has_out : Bool) → SideCall
  backs_up : (dest source : ℕ) → SideCall
  deserializes : (db : ℕ) → SideCall
  expands : (stmt : ℕ) → SideCall
  frees : (raw : ℕ) → SideCall

module _ {net : Net} where
  unfoldable pub side_call : SideCall → Shim net → Shim net
  side_call (loads db has_err) s = (load_extension db has_err s).2
  side_call (opens_blob db has_out) s = (blob_open db has_out s).2
  side_call (backs_up dest source) s = (backup_init dest source s).1
  side_call (deserializes db) s = (deserialize db s).1
  side_call (expands stmt) s = (expanded_sql stmt s).1
  side_call (frees raw) s = (free raw s).1

  -- The connection of the shim's whose error a call that is refused sets.
  abbrev pub refused_at : SideCall → Shim net → Option ℕ
  refused_at (loads db has_err) s = Option.map (λ d. db) (as_db db s)
  refused_at (opens_blob db has_out) s = Option.map (λ d. db) (as_db db s)
  refused_at (backs_up dest source) s = elim (as_db dest s) [
    | some d ↦ some dest
    | none ↦ Option.map (λ d. source) (as_db source s)
  ]
  refused_at (deserializes db) s = Option.map (λ d. db) (as_db db s)
  refused_at (expands stmt) s = none
  refused_at (frees raw) s = none
