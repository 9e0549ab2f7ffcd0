-- ===== src/Client/Capi/Rows.antt =====
-- `Db::query` gives all rows, in their order.
use sqlite_broker.Prelude.{
  ℕ, zero, suc, ◌<◌, ◌≡◌, refl, ◌∙◌, ap, arith, pos, List, [], ◌∷◌, ◌++◌, append-nil, append_assoc,
  some, length,
}
use sqlite_broker.Prelude.Result.{ok}
use sqlite_broker.Text.{Bytes}
use sqlite_broker.Broker.Statement.{c_string, sqlite_ok, sqlite_row, sqlite_done}
use sqlite_broker.Client.Capi.{
  Api, QueryOutcome, cell, column_texts, read_texts, after_step, query_loop, after_prepare, query,
}

module _ (api : Api) where
  -- The texts of the current row's columns from the i-th on.
  abbrev pub Shows : ℕ → ℕ → api.World → List Bytes → Type 0
  Shows stmt i w [] = Unit
  Shows stmt i w (t ∷ ts) =
      (cell (api.sqlite3_column_text stmt (pos i) w) ≡ t) × Shows stmt (suc i) w ts

  abbrev pub IsRow : ℕ → api.World → List Bytes → Type 0
  IsRow stmt w row = (api.sqlite3_column_count stmt w ≡ pos (length row)) × Shows stmt 0 w row

  -- The statement has these rows yet, and is in the last state when it has shown them all.
  pub data Yields (stmt : ℕ) : List (List Bytes) → api.World → api.World → Type 0 where
    no_more : {w w' : api.World} → api.sqlite3_step stmt w ≡ (sqlite_done, w') → Yields stmt [] w w'
    one_more :
        {row : List Bytes} {rows : List (List Bytes)} {w u w' : api.World}
        → api.sqlite3_step stmt w ≡ (sqlite_row, u)
        → IsRow stmt u row
        → Yields stmt rows u w'
        → Yields stmt (row ∷ rows) w w'

  column_texts-Shows :
      (stmt i : ℕ) (w : api.World) (row : List Bytes)
      → Shows stmt i w row
      → column_texts api (length row) i stmt w ≡ row
  unfolding column_texts
  column_texts-Shows stmt i w [] h = refl
  column_texts-Shows stmt i w (t ∷ ts) h = rw (h.0, column_texts-Shows stmt (suc i) w ts h.1) refl

  after_step-row :
      (loop : List (List Bytes) → api.World → QueryOutcome api.World) (db stmt : ℕ)
      (shown : List (List Bytes)) (row : List Bytes) (u : api.World)
      → IsRow stmt u row
      → after_step api loop db stmt shown (sqlite_row, u) ≡ loop (shown ++ (row ∷ [])) u
  unfolding after_step read_texts
  after_step-row loop db stmt shown row u r =
      rw (r.0, after_step, read_texts) (rw (column_texts-Shows stmt 0 u row r.1) refl)

  query_loop-rows :
      (patience db stmt : ℕ) (rows shown : List (List Bytes)) (w w' : api.World)
      → length rows < patience
      → Yields stmt rows w w'
      → query_loop api patience db stmt shown w
        ≡ some (ok (shown ++ rows), api.sqlite3_finalize stmt w')
  unfolding query_loop
  query_loop-rows zero db stmt rows shown w w' less y = absurd (omega arith)
  query_loop-rows (suc patience) db stmt [] shown w w' less (no_more e) =
      unfold after_step in rw (e, append-nil) refl
  query_loop-rows (suc patience) db stmt (row ∷ rows) shown w w' less (one_more {u = u} e r y) =
      ap (after_step api (query_loop api patience db stmt) db stmt shown) e
      ∙ after_step-row (query_loop api patience db stmt) db stmt shown row u r
      ∙ query_loop-rows patience db stmt rows (shown ++ (row ∷ [])) u w' (omega arith) y
      ∙ ap (λ (t : List (List Bytes)). some (ok t, api.sqlite3_finalize stmt w'))
          (append_assoc shown (row ∷ []) rows)

  -- Where `sqlite3_prepare_v2` succeeds, `query` comes back with all rows of the statement, each with
  -- the texts of its columns, in their order, and has finalized the statement.
  pub query_rows :
      (patience db stmt : ℕ) (sql c_sql : Bytes) (rows : List (List Bytes)) (w u w' : api.World)
      → c_string sql ≡ ok c_sql
      → api.sqlite3_prepare_v2 db c_sql w ≡ ((sqlite_ok, stmt), u)
      → Yields stmt rows u w'
      → length rows < patience
      → query api patience db sql w ≡ some (ok rows, api.sqlite3_finalize stmt w')
  unfolding query after_prepare
  query_rows patience db stmt sql c_sql rows w u w' c p y less =
      rw (c, p) (query_loop-rows patience db stmt rows [] u w' less y)
