-- ===== src/Cli/Run/Dialogue.antt =====
-- The protocol of a session: what a client reads for what it writes, with the database's part in it.
use sqlite_broker.Prelude.{
  ℤ, ◌≡◌, Bool, true, false, List, [], ◌∷◌, ◌++◌, none, some, bytes_eq, is_empty,
}
use sqlite_broker.Prelude.Result.{Result, ok, err}
use sqlite_broker.Text.{Bytes, codes, join}
use sqlite_broker.Text.Decimal.{decimal_int}
use sqlite_broker.Text.Space.{trim}
use sqlite_broker.Text.Search.{strip_prefix}
use sqlite_broker.Client.Program.{DbClient}
use sqlite_broker.Cli.Run.{Ending, returned, exited}

-- The line for a statement that was executed.
abbrev pub ok_text : (changes rowid : ℤ) → Bytes
ok_text changes rowid =
    codes "OK changes=" ++ (decimal_int changes ++ (codes " rowid=" ++ decimal_int rowid))

-- The lines for the rows of a query, their cells with tabs between them.
abbrev pub row_texts : List (List Bytes) → List Bytes
row_texts [] = []
row_texts (row ∷ rows) = (codes "ROW " ++ join (codes "\t") row) ∷ row_texts rows

module _ (client : DbClient) (db : client.Db) where
  -- The lines that are read, the state of the database, the lines that are written in answer, the end and
  -- the state of the database then. A statement is run on the state that the lines before it have left,
  -- its answer tells the outcome of that run, and the lines after it are answered from the state that
  -- it has left.
  pub data Dialogue
      : (holding : Bool)
        → List (Result Bytes Bytes)
        → client.World
        → List Bytes
        → Result Bytes Ending
        → client.World
        → Type 0 where
    closed : {w : client.World} → Dialogue false [] w [] (ok returned) w
    closed_holding :
        {w : client.World} → Dialogue true [] w [] (err (codes "stdin closed while holding")) w
    unread :
        {holding : Bool} {e : Bytes} {input : List (Result Bytes Bytes)} {w : client.World}
        → Dialogue holding (err e ∷ input) w [] (err e) w
    skipped :
        {input : List (Result Bytes Bytes)} {output : List Bytes} {r : Result Bytes Ending}
        {w v : client.World}
        → Dialogue false input w output r v
        → Dialogue false (ok [] ∷ input) w output r v
    holds :
        {input : List (Result Bytes Bytes)} {output : List Bytes} {r : Result Bytes Ending}
        {w v : client.World}
        → Dialogue true input w output r v
        → Dialogue false (ok (codes "HOLD") ∷ input) w (codes "HOLDING" ∷ output) r v
    goes :
        {go : Bytes} {input : List (Result Bytes Bytes)} {output : List Bytes}
        {r : Result Bytes Ending} {w v : client.World}
        → trim go ≡ codes "GO"
        → Dialogue false input w output r v
        → Dialogue true (ok go ∷ input) w output r v
    not_go :
        {go : Bytes} {input : List (Result Bytes Bytes)} {w : client.World}
        → bytes_eq (trim go) (codes "GO") ≡ false
        → Dialogue true (ok go ∷ input) w [] (err (codes "expected GO, got " ++ go)) w
    executed :
        {sql : Bytes} {input : List (Result Bytes Bytes)} {output : List Bytes}
        {r : Result Bytes Ending} {w u v : client.World}
        → client.exec db sql w ≡ some (ok tt, u)
        → Dialogue false input u output r v
        → Dialogue false
            (ok (codes "EXEC " ++ sql) ∷ input)
            w
            (codes "START" ∷ ok_text (client.changes db u) (client.last_insert_rowid db u) ∷ output)
            r
            v
    exec_failed :
        {sql e : Bytes} {input : List (Result Bytes Bytes)} {w u : client.World}
        → client.exec db sql w ≡ some (err e, u)
        → Dialogue false
            (ok (codes "EXEC " ++ sql) ∷ input)
            w
            (codes "START" ∷ (codes "ERR " ++ e) ∷ [])
            (ok exited)
            u
    queried :
        {sql : Bytes} {rows : List (List Bytes)} {input : List (Result Bytes Bytes)}
        {output : List Bytes} {r : Result Bytes Ending} {w u v : client.World}
        → client.query db sql w ≡ some (ok rows, u)
        → Dialogue false input u output r v
        → Dialogue false
            (ok (codes "QUERY " ++ sql) ∷ input)
            w
            (codes "START" ∷ (row_texts rows ++ (codes "END" ∷ output)))
            r
            v
    query_failed :
        {sql e : Bytes} {input : List (Result Bytes Bytes)} {w u : client.World}
        → client.query db sql w ≡ some (err e, u)
        → Dialogue false
            (ok (codes "QUERY " ++ sql) ∷ input)
            w
            (codes "START" ∷ (codes "ERR " ++ e) ∷ [])
            (ok exited)
            u
    bad :
        {line : Bytes} {input : List (Result Bytes Bytes)} {w : client.World}
        → is_empty line ≡ false
        → bytes_eq line (codes "HOLD") ≡ false
        → strip_prefix (codes "EXEC ") line ≡ none
        → strip_prefix (codes "QUERY ") line ≡ none
        → Dialogue false (ok line ∷ input) w [] (err (codes "bad command " ++ line)) w
