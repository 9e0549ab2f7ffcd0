-- ===== src/Client/Capi/Finalized.antt =====
-- `Db::query` leaks no statement.
use sqlite_broker.Prelude.{
  ℕ, zero, suc, ◌+◌, ◌==◌, ◌≡◌, refl, ap, ◌∙◌, arith, ℤ, int_eq, false, if◌then◌else◌, List, [],
  ◌∷◌, ◌++◌, Option, none, some, Bool-cases, inl, inr,
}
use sqlite_broker.Prelude.Result.{Result, ok, err}
use sqlite_broker.Text.{Bytes}
use sqlite_broker.Broker.Statement.{c_string, sqlite_ok, sqlite_row, sqlite_done}
use sqlite_broker.Client.Capi.{
  Api, QueryOutcome, read_texts, after_step, query_loop, after_prepare, query,
}
use sqlite_broker.Client.Program.{after}

abbrev pub handles : ℕ → ℕ
handles stmt = if stmt == 0 then 0 else 1

-- How libsqlite3 counts statements: `sqlite3_prepare_v2` makes one where it gives a handle, and gives
-- none where it fails; `sqlite3_finalize` takes one away, and nothing at a null pointer.
pub record CountsStatements (api : Api) : Type 0 where
  pub live : api.World → ℕ
  pub prepares :
      (db : ℕ) (sql : Bytes) (w : api.World)
      → live (api.sqlite3_prepare_v2 db sql w).1
        ≡ live w + handles (api.sqlite3_prepare_v2 db sql w).0.1
  pub fails :
      (db : ℕ) (sql : Bytes) (w : api.World)
      → int_eq (api.sqlite3_prepare_v2 db sql w).0.0 sqlite_ok ≡ false
      → (api.sqlite3_prepare_v2 db sql w).0.1 ≡ 0
  pub steps : (stmt : ℕ) (w : api.World) → live (api.sqlite3_step stmt w).1 ≡ live w
  pub finalizes :
      (stmt : ℕ) (w : api.World) {n : ℕ}
      → live w ≡ n + handles stmt
      → live (api.sqlite3_finalize stmt w) ≡ n

module _ (api : Api) (laws : CountsStatements api) where
  open laws use {live, prepares, fails, steps, finalizes}

  -- The outcome, if there is one, has as many statements as that.
  abbrev pub Leaves : ℕ → QueryOutcome api.World → Type 0
  Leaves n none = Unit
  Leaves n (some (r, w)) = live w ≡ n

  after_step-Leaves :
      (loop : List (List Bytes) → api.World → QueryOutcome api.World) (db stmt n : ℕ)
      (rows : List (List Bytes)) (rc : ℤ) (w : api.World)
      → ((rows' : List (List Bytes)) (w' : api.World)
          → live w' ≡ n + handles stmt
          → Leaves n (loop rows' w'))
      → live w ≡ n + handles stmt
      → Leaves n (after_step api loop db stmt rows (rc, w))
  unfolding after_step
  after_step-Leaves loop db stmt n rows rc w more h = elim (Bool-cases (int_eq rc sqlite_row)) [
    | inl row ↦ rw row (at_row (read_texts api stmt w (api.sqlite3_column_count stmt w)))
    | inr other ↦ rw other (elim (Bool-cases (int_eq rc sqlite_done)) [
      | inl done ↦ rw done (finalizes stmt w h)
      | inr broken ↦ rw broken (finalizes stmt w h)
    ])
  ]
    where
      at_row :
          (o : Option (List Bytes))
          → Leaves n (elim o [ none ↦ none | some row ↦ loop (rows ++ (row ∷ [])) w ])
      at_row none = tt
      at_row (some row) = more (rows ++ (row ∷ [])) w h

  query_loop-Leaves :
      (patience db stmt n : ℕ) (rows : List (List Bytes)) (w : api.World)
      → live w ≡ n + handles stmt
      → Leaves n (query_loop api patience db stmt rows w)
  unfolding query_loop
  query_loop-Leaves zero db stmt n rows w h = tt
  query_loop-Leaves (suc patience) db stmt n rows w h =
      let (rc, w') = api.sqlite3_step stmt w in
      after_step-Leaves (query_loop api patience db stmt) db stmt n rows rc w'
        (query_loop-Leaves patience db stmt n) (steps stmt w ∙ h)

  after_prepare-Leaves :
      (patience db : ℕ) (sql : Bytes) (w : api.World)
      → Leaves (live w) (after_prepare api patience db (api.sqlite3_prepare_v2 db sql w))
  unfolding after_prepare
  after_prepare-Leaves patience db sql w =
      let ((rc, stmt), w') = api.sqlite3_prepare_v2 db sql w in
      elim (Bool-cases (int_eq rc sqlite_ok)) [
        | inl good ↦ rw good (query_loop-Leaves patience db stmt (live w) [] w' (prepares db sql w))
        | inr bad ↦
            rw bad
              (prepares db sql w ∙ omega (arith, ap (λ (h : ℕ). handles h) (fails db sql w bad)))
      ]

  abbrev then_ : (patience db : ℕ) → Bytes → api.World → QueryOutcome api.World
  then_ patience db c_sql w = after_prepare api patience db (api.sqlite3_prepare_v2 db c_sql w)

  -- Whatever happens on the way, `query` leaves as many statements alive as there were.
  pub query_finalizes :
      (patience db : ℕ) (sql : Bytes) (w : api.World)
      → Leaves (live w) (query api patience db sql w)
  unfolding query
  query_finalizes patience db sql w = go (c_string sql)
    where
      go : (c : Result Bytes Bytes) → Leaves (live w) (after (then_ patience db) (some (c, w)))
      go (ok c_sql) = after_prepare-Leaves patience db c_sql w
      go (err e) = refl
