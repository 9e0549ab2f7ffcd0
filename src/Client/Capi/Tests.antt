-- ===== src/Client/Capi/Tests.antt =====
-- The client run over the shim, against a broker that answers every request with two rows of one column.
use sqlite_broker.Prelude.{
  ℕ, zero, suc, ◌+◌, ◌-◌, ◌≡◌, refl, arith, pos, [], ◌∷◌, Option, none, some, map,
}
use sqlite_broker.Prelude.Result.{Result, ok}
use sqlite_broker.Prelude.Assoc
use sqlite_broker.Text.{Bytes, codes}
use sqlite_broker.Text.Search.{nul_position}
use sqlite_broker.Broker.Statement.{c_string, sqlite_ok, sqlite_row, sqlite_done}
use sqlite_broker.Shim.State.{ProxyDb, Shim}
use sqlite_broker.Shim.Statement.{call}
use sqlite_broker.Protocol.Message.{exec, Response}
use sqlite_broker.Shim.Toy.{two_rows, toy, fresh_stmt, proxy, opened_state, prepared_state, code}
use sqlite_broker.Client.Capi.{Api, query}
use sqlite_broker.Client.Capi.Finalized.{handles, CountsStatements, Leaves, query_finalizes}
use sqlite_broker.Client.Capi.Rows.{no_more, one_more, query_rows}
use sqlite_broker.Client.Shimmed.{shim_api}
use sqlite_broker.Client.Shimmed.Cells.{row_shown}
use sqlite_broker.Client.Shimmed.Rows.{query-shim_api}

abbrev or_proxy : Option (ProxyDb toy) → ProxyDb toy
or_proxy none = proxy
or_proxy (some d) = d

-- The connection when the statement is after_prepare, and the call that executes it.
abbrev registered : ProxyDb toy
registered = or_proxy (Assoc.get 1 prepared_state.dbs)

abbrev run : Result Bytes Response × ProxyDb toy × Shim toy
run = call 1 (exec (codes "SELECT") []) registered prepared_state

-- The first statement that the toy allocator places is at 2.
query-shim_api_example :
    (w' : Shim toy) × (query (shim_api toy) 3 1 (codes "SELECT") opened_state
      ≡ some (ok (map (row_shown toy) two_rows.rows), w'))
unfolding code c_string nul_position
query-shim_api_example =
    query-shim_api toy 3 1 2 (codes "SELECT") (codes "SELECT") fresh_stmt registered run.1 two_rows
      opened_state prepared_state run.2 refl refl refl refl refl refl (refl, (refl, tt))
      (omega arith) (omega arith)

-- A library whose statements have one row of one column: the world is the number of statements alive and
-- the steps yet to come.
abbrev one_row : Api
one_row = record {
  World = ℕ × ℕ;
  sqlite3_open = λ path w. ((sqlite_ok, 1), w);
  sqlite3_close = λ db w. w;
  sqlite3_exec = λ db sql w. (sqlite_ok, w);
  sqlite3_prepare_v2 = λ db sql w. ((sqlite_ok, 1), (w.0 + 1, 1));
  sqlite3_step = λ stmt w. elim w.1 [ zero ↦ (sqlite_done, w) | suc n ↦ (sqlite_row, (w.0, n)) ];
  sqlite3_finalize = λ stmt w. (elim stmt [ zero ↦ w.0 | suc n ↦ w.0 - 1 ], w.1);
  sqlite3_column_count = λ stmt w. pos 1;
  sqlite3_column_text = λ stmt i w. some (codes "x");
  sqlite3_changes = λ db w. pos 0;
  sqlite3_last_insert_rowid = λ db w. pos 0;
  sqlite3_errmsg = λ db w. none;
}

steps_keep : (stmt : ℕ) (w : one_row.World) → (one_row.sqlite3_step stmt w).1.0 ≡ w.0
steps_keep stmt (n, zero) = refl
steps_keep stmt (n, suc k) = refl

finalize_takes :
    (stmt : ℕ) (w : one_row.World) {n : ℕ}
    → w.0 ≡ n + handles stmt
    → (one_row.sqlite3_finalize stmt w).0 ≡ n
finalize_takes zero w h = omega arith
finalize_takes (suc k) w h = ground arith

one_row-CountsStatements : CountsStatements one_row
one_row-CountsStatements = record {
  live = λ w. w.0;
  prepares = λ db sql w. refl;
  fails = λ db sql w h. absurd (cc);
  steps = steps_keep;
  finalizes = finalize_takes;
}

query_finalizes_example :
    Leaves one_row one_row-CountsStatements 4 (query one_row 3 1 (codes "SELECT") (4, 0))
unfolding one_row-CountsStatements
query_finalizes_example =
    query_finalizes one_row one_row-CountsStatements 3 1 (codes "SELECT") (4, 0)

query_rows_example :
    query one_row 3 1 (codes "SELECT") (4, 0)
    ≡ some (ok ((codes "x" ∷ []) ∷ []), one_row.sqlite3_finalize 1 (5, 0))
unfolding c_string nul_position code
query_rows_example =
    query_rows one_row 3 1 1 (codes "SELECT") (codes "SELECT") ((codes "x" ∷ []) ∷ []) (4, 0) (5, 1)
      (5, 0) refl refl (one_more refl (refl, (refl, tt)) (no_more refl)) (omega arith)
