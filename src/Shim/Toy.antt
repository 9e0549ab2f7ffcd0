-- ===== src/Shim/Toy.antt =====
-- A broker that answers every request with two rows of one column, and a program's first calls.
use sqlite_broker.Prelude.{ℕ, suc, ℤ, pos, negsuc, true, false, [], ◌∷◌, Option, none, some}
use sqlite_broker.Prelude.Assoc
use sqlite_broker.Prelude.Result.{ok}
use sqlite_broker.Text.{codes}
use sqlite_broker.Protocol.Message.{int, text, Response}
use sqlite_broker.Protocol.Stub.{format_stub, parse_stub, stub_lines, stub_word}
use sqlite_broker.Protocol.Render.{render}
use sqlite_broker.Text.Utf8.{
  from_utf8, from_utf8_lossy, valid_from, lossy_from, decode_byte, first, start,
}
use sqlite_broker.Text.Space.{
  trim, trim_front, trim_back, space_len, is_ascii_space, is_wide_space, has_space,
}
use sqlite_broker.Text.Lines.{lines, lines_from}
use sqlite_broker.Text.Search.{until_nul, is_char_boundary}
use sqlite_broker.Shim.State.{
  Net, ProxyDb, ProxyStmt, Shim, Reply, mine, as_db, as_stmt, put_db, put_stmt,
}
use sqlite_broker.Shim.Proxy.{
  cstring_lossy, without, new_proxy, greet, welcome, connect, apply, answered, exchange, digest,
  rpc, shutdown, link_stmt, unlink_stmt,
}
use sqlite_broker.Shim.Rows.{fill, next_row, cache_row}
use sqlite_broker.Shim.Statement.{
  new_stmt, sql_from, PrepareCall, call, destroy_db, close_now, close_proxy, close_db, add_stmt,
  compiled, described, prepare_proxy, prepare_v2, advance, executed, execute_stmt, step_registered,
  step_stmt, unlinked, finalize_linked, finalize_registered, finalize_stmt,
}
use sqlite_broker.Shim.Open.{stub_addr, opened, open_addr, open_path, open_v2}
use sqlite_broker.Shim.Calls.{no_handles}
use sqlite_broker.Shim.Bind.{
  bind, bind_text, upsert, release_destructor, bind_registered, bind_stmt,
}

abbrev pub two_rows : Response
two_rows = record {
  ok = true;
  message = [];
  code = pos 0;
  columns = codes "a" ∷ [];
  rows = (int (pos 7) ∷ []) ∷ (text (codes "x") ∷ []) ∷ [];
  changes = pos 0;
  last_insert_rowid = pos 0;
  autocommit = true;
  tail = 6;
  param_count = pos 1;
  param_names = [] ∷ [];
  decltypes = [] ∷ [];
  total_changes = pos 0;
  empty = false;
}

-- The world counts the addresses that were handed out.
abbrev pub toy : Net
toy = record {
  World = ℕ;
  Stream = Unit {0};
  connect = λ addr w. (ok tt, w);
  receive_hello = λ stream w. (ok (record { ok = true; session = 1; error = none }), w);
  send = λ stream req w. (ok tt, w);
  receive = λ stream w. (ok two_rows, w);
  read_file = λ path w. some (format_stub (codes "h:1"));
  allocate = λ w. (suc w, suc w);
  malloc = λ n w. (suc w, suc w);
  display_real = λ bits. codes "0";
}

abbrev pub fresh_stmt : ProxyStmt
unfolding new_stmt
fresh_stmt = new_stmt 1 (codes "SELECT") two_rows

abbrev pub proxy : ProxyDb toy
unfolding new_proxy
proxy = new_proxy tt (codes "db")

-- A program opens the database, prepares a statement, binds, steps, closes and finalizes.
abbrev pub opened_state : Shim toy
opened_state = (open_v2 true (some (codes "db")) (no_handles 0)).2

abbrev pub select : PrepareCall
select = record {
  db = 1;
  sql = some (codes "SELECT");
  nbytes = negsuc 0;
  has_stmt = true;
  has_tail = false;
}

abbrev pub prepared_state : Shim toy
prepared_state = (prepare_v2 select opened_state).1

abbrev pub or_none : Option (Reply ℤ × Shim toy) → Reply ℤ × Shim toy
or_none none = (mine (pos 0), no_handles 0)
or_none (some r) = r

-- All that runs in these calls.
unfoldable pub code : Unit {0}
unfolding open_v2 open_path open_addr opened stub_addr connect welcome greet new_proxy cstring_lossy
    parse_stub stub_lines stub_word format_stub from_utf8 valid_from decode_byte first start
    from_utf8_lossy lossy_from lines lines_from trim trim_front trim_back space_len is_ascii_space
    is_wide_space has_space until_nul prepare_v2 prepare_proxy described compiled add_stmt new_stmt
    call sql_from rpc digest exchange answered apply link_stmt unlink_stmt without put_db put_stmt
    as_db as_stmt is_char_boundary bind_stmt bind_registered bind bind_text upsert
    release_destructor step_stmt step_registered execute_stmt executed advance fill next_row
    cache_row render close_db close_proxy close_now destroy_db finalize_stmt finalize_registered
    finalize_linked unlinked shutdown Assoc.get Assoc.insert Assoc.remove
code = tt
