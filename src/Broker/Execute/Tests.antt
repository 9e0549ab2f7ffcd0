-- ===== src/Broker/Execute/Tests.antt =====
-- `execute` over an engine in which every byte of the text is a statement that has one row.
use sqlite_broker.Prelude.{
  ℕ, ◌+◌, ◌-◌, ◌≡◌, refl, arith, ℤ, pos, int_eq, [], ◌∷◌, Bool, true, false, ◌==◌, if◌then◌else◌,
  none, some, Bool-cases, inl, inr,
}
use sqlite_broker.Prelude.Result.{ok, err}
use sqlite_broker.Text.{Bytes, codes, join}
use sqlite_broker.Text.Space.{split_whitespace, space_len, is_ascii_space}
use sqlite_broker.Protocol.Message.{exec, Response}
use sqlite_broker.Broker.Sqlite.{Sqlite, Prepared}
use sqlite_broker.Broker.Statement.{
  sqlite_ok, tail_has_sql, sqlite_error, read_row, read_cells, read_cell, c_string,
}
use sqlite_broker.Broker.Execute.{
  execute, execute_inner, statement_loop, run_prepared, run_compiled, run_statement, run_bound,
  bind_some, step_loop, add_columns, name_columns, finalized, after_statement, continue, turn,
  execute_response,
}
use sqlite_broker.Text.Search.{nul_position, until_nul}
use sqlite_broker.Text.Utf8.{from_utf8_lossy, lossy_from, decode_byte, first, start}
use sqlite_broker.Broker.Brief.{sql_brief}
use sqlite_broker.Broker.Storage.{sqlite_engine}
use sqlite_broker.Broker.Storage.Responds.{handle-Goes_sqlite}
use sqlite_broker.Broker.Worker.{Worker, req_job, handle, new_worker}
use sqlite_broker.Broker.Worker.Total.{Goes}
use sqlite_broker.Text.Search.{is_char_boundary}
use sqlite_broker.Broker.Prepare.{prepare_meta}
use sqlite_broker.Broker.Execute.Returns.{Ends, execute-Returns}
use sqlite_broker.Broker.Execute.Finalized.{
  made, CountsStatements, execute_finalizes, prepare_meta_finalizes,
}

-- How many statements there are, and whether the one that runs has a row left.
abbrev Kept : Type 0
Kept = ℕ × Bool

abbrev compile : Bytes → Kept → Prepared (Unit {0}) × Kept
compile [] w = (record { rc = pos 0; stmt = none; tail = some 0 }, w)
compile (b ∷ bs) (live, row) =
    if b == b'?'
    then (record { rc = pos 1; stmt = none; tail = some 0 }, (live, row))
    else (record { rc = pos 0; stmt = some tt; tail = some 1 }, (live + 1, true))

abbrev one_step : Kept → ℤ × Kept
one_step (live, true) = (pos 100, (live, false))
one_step (live, false) = (pos 101, (live, false))

abbrev one_row : Sqlite
one_row = record {
  Conn = Unit {0};
  Stmt = Unit {0};
  World = Kept;
  connection_open = λ path w. (ok tt, w);
  busy_timeout = λ ms conn w. (ok tt, w);
  connection_close = λ conn w. w;
  is_autocommit = λ conn w. true;
  changes = λ conn w. pos 0;
  total_changes = λ conn w. pos 0;
  last_insert_rowid = λ conn w. pos 0;
  errcode = λ conn w. pos 1;
  errmsg = λ conn w. some (codes "syntax error");
  prepare_v2 = λ conn sql w. compile sql w;
  bind = λ stmt index b w. (pos 0, w);
  step = λ stmt w. one_step w;
  finalize = λ stmt w. (w.0 - 1, w.1);
  column_count = λ stmt w. 1;
  column_name = λ stmt i w. some (codes "a");
  column_decltype = λ stmt i w. none;
  bind_parameter_count = λ stmt w. 0;
  bind_parameter_name = λ stmt i w. none;
  column_type = λ stmt i w. pos 5;
  column_int64 = λ stmt i w. pos 0;
  column_double = λ stmt i w. 0;
  column_bytes = λ stmt i w. pos 0;
  column_blob = λ stmt i w. none;
  column_text = λ stmt i w. none;
}

one_row-Ends : (stmt : Unit {0}) (w : Kept) → Ends one_row 2 stmt w
one_row-Ends stmt (live, true) = λ row again. let k : false ≡ true = again in absurd (cc)
one_row-Ends stmt (live, false) = λ row. let k : false ≡ true = row in absurd (cc)

compile-made : (sql : Bytes) (w : Kept) → (compile sql w).1.0 ≡ w.0 + made (compile sql w).0.stmt
compile-made [] w = omega arith
compile-made (b ∷ bs) (live, row) = elim (Bool-cases (b == b'?')) [
  | inl e ↦ rw e (omega arith)
  | inr e ↦ rw e refl
]

compile-fails :
    (sql : Bytes) (w : Kept)
    → int_eq (compile sql w).0.rc sqlite_ok ≡ false
    → (compile sql w).0.stmt ≡ none
compile-fails [] w h = refl
compile-fails (b ∷ bs) (live, row) h = elim (Bool-cases (b == b'?')) [
  | inl e ↦ rw e refl
  | inr e ↦ let k = rw e at h in cc
]

one_step-live : (w : Kept) → (one_step w).1.0 ≡ w.0
one_step-live (live, true) = refl
one_step-live (live, false) = refl

abbrev one_row_counts : CountsStatements one_row
one_row_counts = record {
  live = λ w. w.0;
  prepares = λ conn sql w. compile-made sql w;
  fails = λ conn sql w h. compile-fails sql w h;
  binds = λ stmt index b w. refl;
  steps = λ stmt w. one_step-live w;
  finalizes = λ stmt w h. omega (arith, h);
}

execute-Returns_example :
    (r : Response) × (w' : Kept) × (execute one_row 2 tt (codes "ab") [] (0, false) ≡ some (r, w'))
    × (r.autocommit ≡ true)
execute-Returns_example = execute-Returns one_row 2 one_row-Ends tt (codes "ab") [] (0, false)

-- The second statement fails.
abbrev after : Kept
after = (0, false)

abbrev failure : Response
failure = execute_response one_row 2 tt (err (pos 1, codes "syntax error")) after

execute_finalizes_example : after.0 ≡ 0
unfolding execute execute_inner statement_loop run_prepared run_compiled run_statement run_bound
    bind_some step_loop add_columns name_columns finalized after_statement continue turn
    tail_has_sql sqlite_error read_row read_cells read_cell c_string nul_position until_nul
    from_utf8_lossy lossy_from decode_byte first start
execute_finalizes_example =
    execute_finalizes one_row one_row_counts 2 tt (codes "a?") [] (0, false) after failure refl

prepare_meta_finalizes_example : (prepare_meta one_row tt (codes "ab") (3, false)).1.0 ≡ 3
prepare_meta_finalizes_example =
    prepare_meta_finalizes one_row one_row_counts tt (codes "ab") (3, false)

abbrev start_worker : Worker (sqlite_engine one_row 2)
start_worker = new_worker [] (0, false)

handle-Goes_sqlite_example : Goes (handle (req_job 1 (exec (codes "ab") []) 7) start_worker)
unfolding new_worker sql_brief is_char_boundary join split_whitespace space_len is_ascii_space
handle-Goes_sqlite_example =
    handle-Goes_sqlite one_row 2 one_row-Ends (req_job 1 (exec (codes "ab") []) 7) start_worker
      (_, refl) tt
