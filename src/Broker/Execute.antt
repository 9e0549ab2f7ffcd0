-- ===== src/Broker/Execute.antt =====
-- `execute` and `execute_inner` of server/src/broker.rs. SQLite decides how many rows a statement
-- has: `patience` bounds the calls of `sqlite3_step` for one statement, and `none` says that there
-- would be more.
pub mod Returns
pub mod Finalized
mod Tests
use sqlite_broker.Prelude.{
  ℕ, zero, suc, ◌+◌, ℤ, pos, int_eq, List, [], ◌∷◌, ◌++◌, Bool, true, false, not, ◌&&◌, ◌||◌, ◌==◌,
  ltb, if◌then◌else◌, Option, none, some, is_empty, length, drop,
}
use sqlite_broker.Prelude.Result.{Result, ok, err}
use sqlite_broker.Text.{Bytes, codes}
use sqlite_broker.Text.Decimal.{decimal}
use sqlite_broker.Protocol.Message.{Cell, Param, Response}
use sqlite_broker.Broker.Sqlite.{Sqlite, Prepared}
use sqlite_broker.Broker.Statement.{
  sqlite_ok, sqlite_row, sqlite_done, c_string, c_text, sqlite_error, bind_all, read_row,
  tail_has_sql,
}

abbrev pub Failure : Type 0
Failure = ℤ × Bytes

pub record Table : Type 0 where
  pub columns : List Bytes
  pub rows : List (List Cell)

-- Where the loop over the statements goes after one of them.
pub data Turn : Type 0 where
  finished : Turn
  refused : Turn
  goes : (position : ℕ) → Turn

-- `offset` counts from the start of `sql`; the tail is at `position + t`.
unfoldable pub turn : Bytes → List Param → ℕ → Option ℕ → Turn
turn sql params position none = finished
turn sql params position (some t) =
    let tail = drop (position + t) sql in
    if is_empty tail
    then finished
    else if not (is_empty params)
    then (if tail_has_sql tail then refused else finished)
    else if (t == 0) || ltb (length sql + 1) (position + t)
    then finished
    else goes (position + t)

module _ (db : Sqlite) (patience : ℕ) where
  abbrev pub SqlOutcome {ℓ} : Type ℓ → Type ℓ
  SqlOutcome A = Option (Result Failure A × db.World)

  unfoldable pub name_columns : db.Stmt → ℕ → ℕ → db.World → List Bytes
  name_columns stmt zero i w = []
  name_columns stmt (suc left) i w =
      (elim (db.column_name stmt i w) [ none ↦ codes "col" ++ decimal i | some n ↦ c_text n ])
      ∷ name_columns stmt left (i + 1) w

  -- The columns of the result are those of the first statement that has any.
  unfoldable pub add_columns : db.Stmt → ℕ → List Bytes → db.World → List Bytes
  unfolding name_columns
  add_columns stmt ncols columns w =
      if is_empty columns && ltb 0 ncols then name_columns stmt ncols 0 w else columns

  -- The loop over `sqlite3_step`.
  unfoldable pub step_loop :
      ℕ → db.Conn → db.Stmt → ℕ → List (List Cell) → db.World → SqlOutcome (List (List Cell))
  step_loop zero conn stmt ncols rows w = none
  step_loop (suc more) conn stmt ncols rows w =
      let (rc, w') = db.step stmt w in
      let next = step_loop more conn stmt ncols (rows ++ (read_row db stmt ncols w' ∷ [])) w' in
      if int_eq rc sqlite_row
      then next
      else if int_eq rc sqlite_done
      then some (ok rows, w')
      else some (err (sqlite_error db conn w'), w')

  -- After the steps the statement is finalized, whether they failed or not.
  unfoldable pub finalized {ℓ} : {A : Type ℓ} → db.Stmt → SqlOutcome A → SqlOutcome A
  finalized stmt none = none
  finalized stmt (some (r, w)) = some (r, db.finalize stmt w)

  unfoldable pub run_bound :
      db.Conn → db.Stmt → Table → Result Bytes (Unit {0}) × db.World → SqlOutcome Table
  unfolding step_loop add_columns
  run_bound conn stmt table (err e, w) = some (err (pos 1, e), w)
  run_bound conn stmt table (ok u, w) =
      let ncols = db.column_count stmt w in
      let columns = add_columns stmt ncols table.columns w in
      elim (step_loop patience conn stmt ncols table.rows w) [
        | none ↦ none
        | some (r, w') ↦ some (
          (elim r [ ok rows ↦ ok (record { columns = columns; rows = rows }) | err f ↦ err f ]),
          w',
        )
      ]

  unfoldable pub bind_some : db.Stmt → List Param → db.World → Result Bytes (Unit {0}) × db.World
  bind_some stmt params w = if is_empty params then (ok tt, w) else bind_all db stmt params w

  unfoldable pub run_statement :
      db.Conn → db.Stmt → List Param → Table → db.World → SqlOutcome Table
  unfolding run_bound finalized bind_some
  run_statement conn stmt params table w =
      finalized stmt (run_bound conn stmt table (bind_some stmt params w))

  -- What comes after a statement that ran.
  unfoldable pub continue :
      (ℕ → Table → db.World → SqlOutcome Table) → Turn → Table → db.World → SqlOutcome Table
  continue loop finished table w = some (ok table, w)
  continue loop refused table w =
      some (err (pos 1, codes "bound parameters require a single statement"), w)
  continue loop (goes position) table w = loop position table w

  unfoldable pub after_statement :
      (ℕ → Table → db.World → SqlOutcome Table) → Turn → SqlOutcome Table → SqlOutcome Table
  unfolding continue
  after_statement loop t none = none
  after_statement loop t (some (err f, w)) = some (err f, w)
  after_statement loop t (some (ok table, w)) = continue loop t table w

  -- Where nothing but comments and space was left, the loop ends.
  unfoldable pub run_compiled :
      (ℕ → Table → db.World → SqlOutcome Table)
      → db.Conn
      → Bytes
      → List Param
      → ℕ
      → Table
      → Option ℕ
      → db.World
      → Option db.Stmt
      → SqlOutcome Table
  run_compiled loop conn sql params position table tail w none = some (ok table, w)
  run_compiled loop conn sql params position table tail w (some stmt) =
      after_statement loop (turn sql params position tail) (run_statement conn stmt params table w)

  unfoldable pub run_prepared :
      (ℕ → Table → db.World → SqlOutcome Table)
      → db.Conn
      → Bytes
      → List Param
      → ℕ
      → Table
      → Prepared db.Stmt
      → db.World
      → SqlOutcome Table
  run_prepared loop conn sql params position table p w =
      if int_eq p.rc sqlite_ok
      then run_compiled loop conn sql params position table p.tail w p.stmt
      else some (err (sqlite_error db conn w), w)

  -- The loop over the statements; `rounds` bounds them.
  unfoldable pub statement_loop :
      ℕ → db.Conn → Bytes → List Param → ℕ → Table → db.World → SqlOutcome Table
  statement_loop zero conn sql params position table w = none
  statement_loop (suc rounds) conn sql params position table w =
      let (p, w') = db.prepare_v2 conn (drop position sql) w in
      run_prepared (statement_loop rounds conn sql params) conn sql params position table p w'

  -- Every round but the first starts further on, and none starts further than one past the end.
  unfoldable pub execute_inner : db.Conn → Bytes → List Param → db.World → SqlOutcome Table
  execute_inner conn sql params w = elim (c_string sql) [
    | err e ↦ some (err (pos 1, e), w)
    | ok c ↦ statement_loop (length c + 2) conn c params 0 (record { columns = []; rows = [] }) w
  ]

  unfoldable pub execute_response : db.Conn → Result Failure Table → db.World → Response
  execute_response conn (ok table) w = record {
    ok = true;
    message = [];
    code = pos 0;
    columns = table.columns;
    rows = table.rows;
    changes = db.changes conn w;
    last_insert_rowid = db.last_insert_rowid conn w;
    autocommit = db.is_autocommit conn w;
    tail = 0;
    param_count = pos 0;
    param_names = [];
    decltypes = [];
    total_changes = db.total_changes conn w;
    empty = false;
  }
  execute_response conn (err (code, message)) w = record {
    ok = false;
    message = message;
    code = code;
    columns = [];
    rows = [];
    changes = pos 0;
    last_insert_rowid = db.last_insert_rowid conn w;
    autocommit = db.is_autocommit conn w;
    tail = 0;
    param_count = pos 0;
    param_names = [];
    decltypes = [];
    total_changes = db.total_changes conn w;
    empty = false;
  }

  unfoldable pub execute : db.Conn → Bytes → List Param → db.World → Option (Response × db.World)
  execute conn sql params w = elim (execute_inner conn sql params w) [
    | none ↦ none
    | some (r, w') ↦ some (execute_response conn r w', w')
  ]
