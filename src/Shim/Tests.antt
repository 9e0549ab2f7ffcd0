-- ===== src/Shim/Tests.antt =====
-- The shim run against a broker that answers every request with two rows of one column.
use sqlite_broker.Prelude.{
  ℕ, suc, ◌≡◌, refl, arith, ℤ, pos, negsuc, int_eq, true, false, List, [], ◌∷◌, none, some,
  get_elem?, ◌<◌, ◌⊎◌, bytes_eq, if◌then◌else◌,
}
use sqlite_broker.Text.{codes, join}
use sqlite_broker.Protocol.Message.{Cell, exec}
use sqlite_broker.Text.Utf8.{from_utf8_lossy, lossy_from, decode_byte, first, start}
use sqlite_broker.Text.Search.{starts_with}
use sqlite_broker.Shim.State.{ProxyStmt, Shim, Reply, mine, sqlite_row, sqlite_done, sqlite_abort}
use sqlite_broker.Shim.Proxy.{rpc}
use sqlite_broker.Shim.Proxy.Codes.{is_ok, rpc_errcode}
use sqlite_broker.Shim.Rows.{param_index, name_position, prefixed_position, fill, cell_at}
use sqlite_broker.Shim.Rows.Params.{IsName, IsIndex, param_index-IsIndex}
use sqlite_broker.Shim.Rows.Order
use sqlite_broker.Shim.Rows.Order.{Shows, steps_rows}
use sqlite_broker.Shim.Statement.{close_db, step_stmt, finalize_stmt}
use sqlite_broker.Shim.Ownership.{IsOwned}
use sqlite_broker.Shim.Calls.{
  no_handles, Reach, here, opens, closes, prepares, binds, steps, finalizes, Reach-IsSafe,
}
use sqlite_broker.Shim.Bind.{BindCall, text_at, bind, bind_stmt}
use sqlite_broker.Shim.Bind.Effect.{after_bind, Binds, bind-Binds}
use sqlite_broker.Shim.Keyword.{
  keyword_loop, keyword, round, skip_line, skip_block, word_round, letters,
}
use sqlite_broker.Shim.Exec.{
  Callback, exec_sql, exec_proxy, answered_exec, shown, show_rows, padded, report,
}
use sqlite_broker.Text.Search.{starts_with, to_ascii_uppercase}
use sqlite_broker.Text.Decimal.{decimal_int, decimal}
use sqlite_broker.Shim.Keyword.Ends.{keyword_loop-ends}
use sqlite_broker.Shim.Columns.{Floats}
use sqlite_broker.Shim.Extensions.{loads, load_extension, side_call}
use sqlite_broker.Shim.Extensions.Refused.{Refused, side_call-Refused}
use sqlite_broker.Shim.Toy.{
  two_rows, toy, fresh_stmt, proxy, opened_state, select, prepared_state, or_none, code,
}

steps_rows_example :
    let r = Order.steps (toy.display_real) 1 (fill two_rows fresh_stmt) in
    ((row : List Cell)
      → get_elem? two_rows.rows 1 ≡ some row
      → (r.0 ≡ sqlite_row) × Shows (toy.display_real) row r.1)
    × (get_elem? two_rows.rows 1 ≡ none → (r.0 ≡ sqlite_done) × ((i : ℤ) → cell_at r.1 i ≡ none))
steps_rows_example = steps_rows (toy.display_real) two_rows fresh_stmt 1

abbrev bind_text_1 : BindCall
bind_text_1 = text_at (pos 1) (some (codes "x")) (negsuc 0) (negsuc 0)

bind-Binds_example : Binds (after_bind bind_text_1) fresh_stmt (bind bind_text_1 fresh_stmt)
bind-Binds_example = bind-Binds bind_text_1 fresh_stmt

keyword_loop-ends_example :
    keyword_loop 20 (codes "/* a */ select") ≡ some (keyword (codes "/* a */ select"))
keyword_loop-ends_example = keyword_loop-ends 20 (codes "/* a */ select") (omega arith)

rpc_errcode_example :
    is_ok (rpc (exec (codes "SELECT") []) proxy 0).0
    ≡ int_eq (rpc (exec (codes "SELECT") []) proxy 0).1.errcode (pos 0)
rpc_errcode_example = rpc_errcode (exec (codes "SELECT") []) proxy 0

abbrev bound_state : Shim toy
bound_state = (bind_stmt bind_text_1 2 prepared_state).2

abbrev stepped : Reply ℤ × Shim toy
stepped = or_none (step_stmt 2 bound_state)

abbrev closed_state : Shim toy
closed_state = (close_db 1 true stepped.1).1

abbrev last_call : Reply ℤ × Shim toy
last_call = or_none (finalize_stmt 2 closed_state)

stepped_row : stepped.0 ≡ mine sqlite_row
unfolding code
stepped_row = refl

finalized_all : (last_call.1.dbs ≡ []) × (last_call.1.stmts ≡ [])
unfolding code
finalized_all = (refl, refl)

calls : Reach (no_handles 0) last_call.1
unfolding code
calls =
    finalizes
      (closes
        (steps
          (binds (prepares (opens here true (some (codes "db")) refl) select refl) bind_text_1 2) 2
          stepped refl)
        1 true)
      2 last_call refl

Reach-IsSafe_example :
    IsOwned last_call.1.dbs last_call.1.stmts
    × ((stmt : ℕ) → (r : Reply ℤ × Shim toy) × (step_stmt stmt last_call.1 ≡ some r))
    × ((stmt : ℕ) → (r : Reply ℤ × Shim toy) × (finalize_stmt stmt last_call.1 ≡ some r))
Reach-IsSafe_example = Reach-IsSafe {net = toy} 0 calls

keyword_test : keyword (codes "-- a\n /* b */ select 1") ≡ some (codes "SELECT")
unfolding keyword keyword_loop round skip_line skip_block word_round letters to_ascii_uppercase
keyword_test = refl

-- The callback refuses the second row.
abbrev refuse_x : Callback toy
refuse_x values names w = (if bytes_eq (join [] values) (codes "x") then pos 1 else pos 0, w)

exec_test :
    (exec_sql 1 (some (codes "SELECT")) (some refuse_x) false opened_state).0 ≡ mine sqlite_abort
unfolding code exec_sql exec_proxy answered_exec shown show_rows padded report join decimal_int
    decimal
exec_test = refl

abbrev two_names : ProxyStmt
two_names = record fresh_stmt { param_names = none ∷ some (codes ":a") ∷ [] }

param_index_test : param_index two_names (codes "a") ≡ 2
unfolding param_index name_position prefixed_position from_utf8_lossy lossy_from decode_byte first
    start starts_with
param_index_test = refl

param_index-IsIndex_example :
    ((param_index two_names (codes "a") ≡ 0)
      ⊎ IsIndex two_names.param_names (codes "a") (param_index two_names (codes "a")))
    × ((k : ℕ)
        → IsName two_names.param_names (codes "a") k
        → ((j : ℕ) → j < k → IsName two_names.param_names (codes "a") j → ⊥)
        → param_index two_names (codes "a") ≡ suc k)
param_index-IsIndex_example = param_index-IsIndex two_names (codes "a")

-- A handle that is none of the shim's.
abbrev no_floats : Floats
no_floats = record { as_i64 = λ v. pos 0; of_i64 = λ v. 0; parse = λ v. none }

side_call-Refused_example :
    Refused 1
      (codes "sqlite-broker does not load extensions")
      proxy
      opened_state
      (side_call (loads 1 true) opened_state)
    × ((load_extension 1 true opened_state).0 ≡ mine (pos 1))
unfolding code
side_call-Refused_example = side_call-Refused (loads 1 true) 1 proxy opened_state refl refl
