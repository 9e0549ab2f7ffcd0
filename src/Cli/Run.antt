-- ===== src/Cli/Run.antt =====
-- `call_cli` and `session_cli` of server/src/main.rs, from where they open the database, and `emit_line`.
pub mod Dialogue
pub mod Written
pub mod Spoken
use sqlite_broker.Prelude.{
  ℕ, ℤ, Bool, true, false, if◌then◌else◌, List, [], ◌∷◌, ◌++◌, Option, none, some, bytes_eq,
  is_empty,
}
use sqlite_broker.Prelude.Result.{Result, ok, err}
use sqlite_broker.Text.{Bytes, codes, join}
use sqlite_broker.Text.Decimal.{decimal_int}
use sqlite_broker.Text.Space.{trim}
use sqlite_broker.Text.Search.{strip_prefix}
use sqlite_broker.Client.Program.{Action, after, ◌>>=◌, ◌>>◌, return, failing, or_else, DbClient}
use sqlite_broker.Hammer.Statements.{format}
use sqlite_broker.Cli.Query.{is_query}

-- How a command ended: by a result, or by `process::exit(1)`.
pub data Ending : Type 0 where
  returned exited : Ending

-- What comes after a line of a session.
pub data Next : Type 0 where
  go_on hold stop : Next

-- The line of a row that `call` and `session` write.
unfoldable pub cells_line : List Bytes → Bytes
cells_line row = codes "cell:" ++ join (codes ",") row

unfoldable pub row_line : List Bytes → Bytes
row_line row = codes "ROW " ++ join (codes "\t") row

abbrev pub cells_lines : List (List Bytes) → List Bytes
cells_lines [] = []
cells_lines (row ∷ rows) = cells_line row ∷ cells_lines rows

abbrev pub row_lines : List (List Bytes) → List Bytes
row_lines [] = []
row_lines (row ∷ rows) = row_line row ∷ row_lines rows

unfoldable pub done_line : (changes rowid : ℤ) → Bytes
unfolding format
done_line changes rowid =
    format (codes "OK changes=" ∷ decimal_int changes ∷ codes " rowid=" ∷ decimal_int rowid ∷ [])

-- The `error` line of a session's statement.
abbrev pub err_line : Bytes → Bytes
err_line e = codes "ERR " ++ e

-- `stdout` says whether the standard output takes a line after these.
module _ (client : DbClient) (stdout : List Bytes → Bytes → Result Bytes (Unit {0})) where
  open client use {Db, open_db, exec, query, changes, last_insert_rowid, close}

  -- The database, and the lines that were written.
  pub record Screen : Type 0 where
    pub world : client.World
    pub output : List Bytes

  abbrev pub wrote :
      Bytes → Screen → Result Bytes (Unit {0}) → Option (Result Bytes (Unit {0}) × Screen)
  wrote line s (ok x) = some (ok tt, record s { output = s.output ++ (line ∷ []) })
  wrote line s (err e) = some (err e, s)

  unfoldable pub emit_line : Bytes → Action Screen (Unit {0})
  emit_line line s = wrote line s (stdout s.output line)

  abbrev pub on_screen {ℓ} :
      {A : Type ℓ}
      → Screen
      → Option (Result Bytes A × client.World)
      → Option (Result Bytes A × Screen)
  on_screen s none = none
  on_screen s (some (r, w)) = some (r, record s { world = w })

  -- A call of the database.
  abbrev pub on_db {ℓ} : {A : Type ℓ} → Action client.World A → Action Screen A
  on_db m s = on_screen s (m s.world)

  unfoldable pub emit_lines : List Bytes → Action Screen (Unit {0})
  unfolding emit_line
  emit_lines [] = return tt
  emit_lines (line ∷ lines) = emit_line line >> emit_lines lines

  unfoldable pub call_one : Db → Bytes → Action Screen (Unit {0})
  unfolding is_query emit_lines emit_line
  call_one db sql =
      if is_query sql
      then (on_db (query db sql) >>= λ rows. emit_lines (cells_lines rows))
      else (on_db (exec db sql) >> emit_line (codes "ok"))

  unfoldable pub call_loop : Db → List Bytes → Action Screen (Unit {0})
  unfolding call_one
  call_loop db [] = return tt
  call_loop db (sql ∷ sqls) = call_one db sql >> call_loop db sqls

  -- The connection is dropped whether the command returned or failed, but not where it exited.
  abbrev pub closing :
      Db → Option (Result Bytes Ending × Screen) → Option (Result Bytes Ending × Screen)
  closing db none = none
  closing db (some (ok exited, s)) = some (ok exited, s)
  closing db (some (r, s)) = some (r, record s { world = close db s.world })

  unfoldable pub run_call : Bytes → List Bytes → Action Screen Ending
  unfolding call_loop
  run_call db_path sqls = do
    db ← on_db (open_db db_path)
    (λ s. closing db ((call_loop db sqls >> return returned) s))

  -- `Err(err) => { emit_line(..)?; process::exit(1) }`
  abbrev pub exiting : Bytes → Action Screen Next
  exiting e = emit_line (err_line e) >> return stop

  -- What follows `START`, by what the database answered.
  abbrev pub exec_answer :
      Db
      → Screen
      → Option (Result Bytes (Unit {0}) × client.World)
      → Option (Result Bytes Next × Screen)
  exec_answer db s none = none
  exec_answer db s (some (err e, w)) = exiting e (record s { world = w })
  exec_answer db s (some (ok x, w)) =
      (emit_line (done_line (changes db w) (last_insert_rowid db w)) >> return go_on)
        (record s { world = w })

  unfoldable pub exec_command : Db → Bytes → Action Screen Next
  unfolding emit_line done_line
  exec_command db sql = do emit_line (codes "START"); (λ s. exec_answer db s (exec db sql s.world))

  abbrev pub query_answer :
      Screen
      → Option (Result Bytes (List (List Bytes)) × client.World)
      → Option (Result Bytes Next × Screen)
  query_answer s none = none
  query_answer s (some (err e, w)) = exiting e (record s { world = w })
  query_answer s (some (ok rows, w)) =
      (emit_lines (row_lines rows) >> (emit_line (codes "END") >> return go_on))
        (record s { world = w })

  unfoldable pub query_command : Db → Bytes → Action Screen Next
  unfolding emit_line emit_lines
  query_command db sql = do emit_line (codes "START"); (λ s. query_answer s (query db sql s.world))

  abbrev pub query_or_bad : Db → Bytes → Option Bytes → Action Screen Next
  query_or_bad db line (some sql) = query_command db sql
  query_or_bad db line none = failing (codes "bad command " ++ line)

  abbrev pub exec_or : Db → Bytes → Option Bytes → Action Screen Next
  exec_or db line (some sql) = exec_command db sql
  exec_or db line none = query_or_bad db line (strip_prefix (codes "QUERY ") line)

  -- One line of a session.
  unfoldable pub session_line : Db → Bytes → Action Screen Next
  unfolding emit_line exec_command query_command
  session_line db line =
      if is_empty line
      then return go_on
      else if bytes_eq line (codes "HOLD")
      then emit_line (codes "HOLDING") >> return hold
      else exec_or db line (strip_prefix (codes "EXEC ") line)

  abbrev pub go_from : (Bool → Action Screen Ending) → Next → Action Screen Ending
  go_from loop go_on = loop false
  go_from loop hold = loop true
  go_from loop stop = return exited

  -- The lines of the standard input, or errors in reading them. After `HOLD` the next line must be `GO`.
  unfoldable pub session_loop :
      Db → List (Result Bytes Bytes) → (holding : Bool) → Action Screen Ending
  unfolding session_line
  session_loop db [] false = return returned
  session_loop db [] true = failing (codes "stdin closed while holding")
  session_loop db (err e ∷ lines) holding = failing e
  session_loop db (ok line ∷ lines) false = session_line db line >>= go_from (session_loop db lines)
  session_loop db (ok go ∷ lines) true =
      if bytes_eq (trim go) (codes "GO")
      then session_loop db lines false
      else failing (codes "expected GO, got " ++ go)

  unfoldable pub session : Bytes → List (Result Bytes Bytes) → Action Screen Ending
  unfolding session_loop emit_line
  session db_path input = do
    db ← on_db (open_db db_path)
    (λ s. closing db ((emit_line (codes "READY") >> session_loop db input false) s))
