-- ===== src/Broker/Execute/Returns.antt =====
-- `execute` returns where every statement of SQLite ends: the loop over the statements moves on.
use sqlite_broker.Prelude.{
  ℕ, zero, suc, ◌+◌, ◌≤◌, ◌<◌, ◌≡◌, refl, arith, pos, int_eq, List, [], true, Option, none, some,
  is_empty, length, drop, Bool-cases, inl, inr,
}
use sqlite_broker.Prelude.Result.{Result, ok, err}
use sqlite_broker.Text.{Bytes}
use sqlite_broker.Protocol.Message.{Cell, Param, Response}
use sqlite_broker.Broker.Sqlite.{Sqlite, Prepared}
use sqlite_broker.Broker.Statement.{sqlite_row, sqlite_done, sqlite_ok, c_string}
use sqlite_broker.Broker.Execute.{
  Failure, Table, Turn, finished, refused, goes, turn, SqlOutcome, step_loop, run_bound, bind_some,
  run_statement, after_statement, run_compiled, run_prepared, statement_loop, execute_inner,
  execute_response, execute,
}

-- With parameters no second statement is run; without, the next one starts further on, and not
-- beyond one past the end of the text.
pub turn_progress :
    (sql : Bytes) (params : List Param) (position : ℕ) (tail : Option ℕ) (next : ℕ)
    → turn sql params position tail ≡ goes next
    → (is_empty params ≡ true) × (position < next) × (next ≤ length sql + 1)
unfolding turn
turn_progress sql params position none next h = cc
turn_progress sql params position (some t) next h = ground arith

abbrev pub Returns {ℓ} : {A : Type ℓ} → Option A → Type ℓ
Returns {A} o = (r : A) × (o ≡ some r)

module _ (db : Sqlite) where
  -- `sqlite3_step` gives at most `n` times a row before it gives something else.
  abbrev pub Ends : ℕ → db.Stmt → db.World → Type 0
  Ends zero stmt w = ⊥
  Ends (suc n) stmt w = int_eq (db.step stmt w).0 sqlite_row ≡ true → Ends n stmt (db.step stmt w).1

  module _ (patience : ℕ) where
    step_loop-Returns :
        (n : ℕ) (conn : db.Conn) (stmt : db.Stmt) (ncols : ℕ) (rows : List (List Cell))
        (w : db.World)
        → Ends n stmt w
        → Returns (step_loop db patience n conn stmt ncols rows w)
    unfolding step_loop
    step_loop-Returns zero conn stmt ncols rows w h = absurd h
    step_loop-Returns (suc n) conn stmt ncols rows w h =
        elim (Bool-cases (int_eq (db.step stmt w).0 sqlite_row)) [
          | inl row ↦ rw row (step_loop-Returns n conn stmt ncols _ _ (h row))
          | inr other ↦ rw other (elim (Bool-cases (int_eq (db.step stmt w).0 sqlite_done)) [
            | inl done ↦ rw done (_, refl)
            | inr bad ↦ rw bad (_, refl)
          ])
        ]

    module _ (ends : (stmt : db.Stmt) (w : db.World) → Ends patience stmt w) where
      run_bound-Returns :
          (conn : db.Conn) (stmt : db.Stmt) (table : Table) (r : Result Bytes (Unit {0}))
          (w : db.World)
          → Returns (run_bound db patience conn stmt table (r, w))
      unfolding run_bound
      run_bound-Returns conn stmt table (err e) w = (_, refl)
      run_bound-Returns conn stmt table (ok u) w =
          let (r, e) =
            step_loop-Returns patience conn stmt (db.column_count stmt w) table.rows w
              (ends stmt w) in
          rw (e, run_bound) (_, refl)

      run_statement-Returns :
          (conn : db.Conn) (stmt : db.Stmt) (params : List Param) (table : Table) (w : db.World)
          → Returns (run_statement db patience conn stmt params table w)
      unfolding run_statement
      run_statement-Returns conn stmt params table w =
          let (b, w') = bind_some db patience stmt params w in
          let (r, e) = run_bound-Returns conn stmt table b w' in rw e (_, refl)

      after_statement-Returns :
          (loop : ℕ → Table → db.World → SqlOutcome db patience Table) (t : Turn)
          (o : SqlOutcome db patience Table)
          → ((next : ℕ) (table : Table) (w : db.World)
              → t ≡ goes next
              → Returns (loop next table w))
          → Returns o
          → Returns (after_statement db patience loop t o)
      unfolding after_statement
      after_statement-Returns loop t none more (r, e) = cc
      after_statement-Returns loop t (some (err f, w)) more h = (_, refl)
      after_statement-Returns loop finished (some (ok table, w)) more h = (_, refl)
      after_statement-Returns loop refused (some (ok table, w)) more h = (_, refl)
      after_statement-Returns loop (goes next) (some (ok table, w)) more h = more next table w refl

      run_prepared-Returns :
          (loop : ℕ → Table → db.World → SqlOutcome db patience Table) (conn : db.Conn)
          (sql : Bytes) (params : List Param) (position : ℕ) (table : Table) (p : Prepared db.Stmt)
          (w : db.World)
          → ((next : ℕ) (u : Table) (v : db.World)
              → position < next
              → next ≤ length sql + 1
              → Returns (loop next u v))
          → Returns (run_prepared db patience loop conn sql params position table p w)
      unfolding run_prepared run_compiled
      run_prepared-Returns loop conn sql params position table p w more =
          elim (Bool-cases (int_eq p.rc sqlite_ok)) [
            | inr bad ↦ rw bad (_, refl)
            | inl good ↦ rw good (compiled p.stmt)
          ]
        where
          compiled :
              (s : Option db.Stmt)
              → Returns (run_compiled db patience loop conn sql params position table p.tail w s)
          compiled none = (_, refl)
          compiled (some stmt) =
              after_statement-Returns loop (turn sql params position p.tail)
                (run_statement db patience conn stmt params table w)
                (λ next u v e.
                  let (_, on, within) = turn_progress sql params position p.tail next e in
                  more next u v on within)
                (run_statement-Returns conn stmt params table w)

      statement_loop-Returns :
          (rounds : ℕ) (conn : db.Conn) (sql : Bytes) (params : List Param) (position : ℕ)
          (table : Table) (w : db.World)
          → position ≤ length sql + 1
          → length sql + 2 ≤ position + rounds
          → Returns (statement_loop db patience rounds conn sql params position table w)
      unfolding statement_loop
      statement_loop-Returns zero conn sql params position table w within enough =
          absurd (omega arith)
      statement_loop-Returns (suc rounds) conn sql params position table w within enough =
          run_prepared-Returns (statement_loop db patience rounds conn sql params) conn sql params
            position table (db.prepare_v2 conn (drop position sql) w).0
            (db.prepare_v2 conn (drop position sql) w).1
            (λ next u v on within'.
              statement_loop-Returns rounds conn sql params next u v within' (omega arith))

      execute_inner-Returns :
          (conn : db.Conn) (sql : Bytes) (params : List Param) (w : db.World)
          → Returns (execute_inner db patience conn sql params w)
      unfolding execute_inner
      execute_inner-Returns conn sql params w = go (c_string sql)
        where
          go :
              (c : Result Bytes Bytes)
              → Returns (elim c [
                | err e ↦ some (err (pos 1, e), w)
                | ok c ↦
                    statement_loop db patience
                      (length c + 2)
                      conn
                      c
                      params
                      0
                      (record { columns = []; rows = [] })
                      w
              ])
          go (err e) = (_, refl)
          go (ok c) =
              statement_loop-Returns (length c + 2) conn c params 0 _ w (omega arith) (omega arith)

      -- If every statement of SQLite ends, `execute` returns, and its answer tells whether the
      -- connection is in autocommit then.
      pub execute-Returns :
          (conn : db.Conn) (sql : Bytes) (params : List Param) (w : db.World)
          → (r : Response) × (w' : db.World) × (execute db patience conn sql params w
              ≡ some (r, w'))
            × (r.autocommit ≡ db.is_autocommit conn w')
      unfolding execute execute_response
      execute-Returns conn sql params w =
          let ((r, w'), e) = execute_inner-Returns conn sql params w in
          rw (e, execute) (_, w', refl, answer r w')
        where
          answer :
              (r : Result Failure Table) (w' : db.World)
              → (execute_response db patience conn r w').autocommit ≡ db.is_autocommit conn w'
          answer (ok table) w' = refl
          answer (err f) w' = refl
