-- ===== src/Client/Shimmed/Rows.antt =====
-- What a client reads through the shim are the rows of the broker's answer.

use sqlite_broker.Prelude.{
  ℕ, suc, ◌^◌, ◌<◌, ◌≡◌, ◌==◌, refl, sym, ap, ◌∙◌, arith, ℤ, true, false, List, [], ◌∷◌, ◌++◌,
  append-nil, append_assoc, length-append, map, Option, some, length, get_elem?, All,
}
use sqlite_broker.Prelude.Assoc.{get}
use sqlite_broker.Text.{Bytes}
use sqlite_broker.Prelude.Result.{Result, ok}
use sqlite_broker.Protocol.Message.{Cell, exec, Response}
use sqlite_broker.Broker.Statement.{c_string, sqlite_ok}
use sqlite_broker.Shim.State.{
  Net, ProxyDb, ProxyStmt, Shim, Reply, as_stmt, put_stmt, sqlite_row, sqlite_done,
}
use sqlite_broker.Shim.Rows.{fill, next_row}
use sqlite_broker.Shim.Rows.Order.{placed, showing, next_row-row, next_row-done, showing-Shows}
use sqlite_broker.Shim.Statement.{call, advance, executed, execute_stmt, step_registered, step_stmt}
use sqlite_broker.Client.Capi.{query}
use sqlite_broker.Client.Capi.Rows.{query_rows}
use sqlite_broker.Client.Capi.Rows as Capi
use sqlite_broker.Client.Shimmed.{settled, shim_api}
use sqlite_broker.Client.Shimmed.Cells.{
  length-map, get_elem?-at, fill-started, row_shown, as_stmt-nonzero, as_stmt-put_stmt, Shows-IsRow,
}

module _ (net : Net) where
  step_registered-started :
      (stmt : ℕ) (p : ProxyStmt) (s : Shim net)
      → p.started ≡ true
      → step_registered stmt (some p) s ≡ some (advance stmt p s)
  unfolding step_registered
  step_registered-started stmt p s started = ground arith

  step_registered-fresh :
      (stmt : ℕ) (p : ProxyStmt) (s : Shim net)
      → p.started ≡ false
      → step_registered stmt (some p) s ≡ execute_stmt stmt p (get p.db s.dbs) s
  unfolding step_registered
  step_registered-fresh stmt p s fresh = ground arith

  step-placed :
      (stmt : ℕ) (p q : ProxyStmt) (rc : ℤ) (s : Shim net)
      → as_stmt stmt s ≡ some p
      → p.started ≡ true
      → next_row net.display_real p ≡ (rc, q)
      → (shim_api net).sqlite3_step stmt s ≡ (rc, put_stmt stmt q s)
  unfolding step_stmt advance
  step-placed stmt p q rc s h started e =
      ap (λ (o : Option ProxyStmt). settled net (step_registered stmt o s) s) h
      ∙ ap (λ (o : Option (Reply ℤ × Shim net)). settled net o s)
          (step_registered-started stmt p s started)
      ∙ ap (λ (r : ℤ × ProxyStmt). (r.0, put_stmt stmt r.1 s)) e

  -- A first step executes the statement.
  step-first :
      (stmt : ℕ) (p q : ProxyStmt) (d d' : ProxyDb net) (resp : Response) (rc : ℤ) (u v : Shim net)
      → as_stmt stmt u ≡ some p
      → p.started ≡ false
      → get p.db u.dbs ≡ some d
      → call p.db (exec p.sql p.params) d u ≡ (ok resp, d', v)
      → next_row net.display_real (fill resp p) ≡ (rc, q)
      → (shim_api net).sqlite3_step stmt u ≡ (rc, put_stmt stmt q v)
  unfolding step_stmt execute_stmt executed advance
  step-first stmt p q d d' resp rc u v h fresh there run e =
      ap (λ (o : Option ProxyStmt). settled net (step_registered stmt o u) u) h
      ∙ ap (λ (o : Option (Reply ℤ × Shim net)). settled net o u)
          (step_registered-fresh stmt p u fresh
            ∙ ap (λ (o : Option (ProxyDb net)). execute_stmt stmt p o u) there)
      ∙ ap
          (λ (r : Result Bytes Response × ProxyDb net × Shim net).
            settled net (some (executed stmt p r)) u)
          run
      ∙ ap (λ (r : ℤ × ProxyStmt). (r.0, put_stmt stmt r.1 v)) e

  module _ (stmt n : ℕ) (rows : List (List Cell)) (small : n < 2 ^ 31)
      (nonzero : (stmt == 0) ≡ false) where
    -- The rows that a statement has left, after those before, where a step goes on from there.
    Yields-rows :
        (before rest : List (List Cell)) (q : ProxyStmt) (s v : Shim net)
        → rows ≡ before ++ rest
        → All (λ row. length row ≡ n) rest
        → ((rc : ℤ) (q' : ProxyStmt)
            → next_row net.display_real (placed rows (length before) q) ≡ (rc, q')
            → (shim_api net).sqlite3_step stmt s ≡ (rc, put_stmt stmt q' v))
        → q.started ≡ true
        → length q.columns ≡ n
        → (s' : Shim net) × Capi.Yields (shim_api net) stmt (map (row_shown net) rest) s s'
    Yields-rows before [] q s v e wide goes started same =
        let over : length rows ≡ length before = ap length (e ∙ append-nil before) in
        (
          _,
          Capi.Yields.no_more (
              goes sqlite_done _
                (next_row-done net.display_real rows (length before) q (omega arith))),
        )
    Yields-rows before (row ∷ rest) q s v e wide goes started same =
        let k = length before in
        let there : get_elem? rows k ≡ some row =
          ap (λ (rs : List (List Cell)). get_elem? rs k) e ∙ get_elem?-at before rest row in
        let inside : k < length rows =
          omega (arith, ap length e, length-append before (row ∷ rest)) in
        let q' = showing net.display_real rows k q row in
        let s1 = put_stmt stmt q' v in
        let at : as_stmt stmt s1 ≡ some q' = as_stmt-put_stmt net stmt q' v nonzero in
        let k' : length (before ++ (row ∷ [])) ≡ suc k =
          omega (arith, length-append before (row ∷ [])) in
        let at' : as_stmt stmt s1 ≡ some (placed rows (length (before ++ (row ∷ []))) q') =
          at ∙ ap (λ (m : ℕ). some (placed rows m q')) (sym k') in
        let (s', y) =
          Yields-rows (before ++ (row ∷ [])) rest q' s1 s1
            (e ∙ sym (append_assoc before (row ∷ []) rest)) wide.1
            (λ rc x.
              step-placed stmt (placed rows (length (before ++ (row ∷ []))) q') x rc s1 at' started)
            started same in
        (
          s',
          Capi.Yields.one_more
              (goes sqlite_row q' (next_row-row net.display_real rows k q row there inside))
              (Shows-IsRow net stmt row q' s1 at (showing-Shows net.display_real rows k q row there)
                (same ∙ sym wide.0) (omega arith))
              y,
        )

  -- A program queries through the shim, and the broker answers the execution: the program gets the rows
  -- of the answer, in their order, each cell as text and NULL as an empty text.
  pub query-shim_api :
      (patience db stmt : ℕ) (sql c_sql : Bytes) (p : ProxyStmt) (d d' : ProxyDb net)
      (resp : Response) (w u v : Shim net)
      → c_string sql ≡ ok c_sql
      → (shim_api net).sqlite3_prepare_v2 db c_sql w ≡ ((sqlite_ok, stmt), u)
      → as_stmt stmt u ≡ some p
      → p.started ≡ false
      → get p.db u.dbs ≡ some d
      → call p.db (exec p.sql p.params) d u ≡ (ok resp, d', v)
      → All (λ row. length row ≡ length (fill resp p).columns) resp.rows
      → length (fill resp p).columns < 2 ^ 31
      → length resp.rows < patience
      → (w' : Shim net) × (query (shim_api net) patience db sql w
          ≡ some (ok (map (row_shown net) resp.rows), w'))
  unfolding fill
  query-shim_api patience db stmt sql c_sql p d d' resp w u v c made reg fresh there run wide small
        enough =
      let (s', y) =
        Yields-rows stmt (length (fill resp p).columns) resp.rows small
          (as_stmt-nonzero net stmt p u reg) [] resp.rows (fill resp p) u v refl wide
          (λ rc q. step-first stmt p q d d' resp rc u v reg fresh there run) (fill-started resp p)
          refl in
      (
        _,
        query_rows (shim_api net) patience db stmt sql c_sql (map (row_shown net) resp.rows) w u s'
            c made y (omega (arith, length-map (row_shown net) resp.rows)),
      )
