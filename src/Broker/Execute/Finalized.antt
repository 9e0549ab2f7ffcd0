-- ===== src/Broker/Execute/Finalized.antt =====
-- No statement is leaked: what `execute` and `prepare_meta` compile, they finalize, on every path.
use sqlite_broker.Prelude.{
  ℕ, zero, suc, ◌+◌, ◌≡◌, refl, ap, ◌∙◌, arith, ℤ, int_eq, List, [], ◌∷◌, Bool, true, false, Option,
  none, some, length, drop, Bool-cases, inl, inr,
}
use mathlib.Core.Path.{subst}
use sqlite_broker.Prelude.Result.{Result, ok, err}
use sqlite_broker.Text.{Bytes}
use sqlite_broker.Protocol.Message.{Cell, Param, Response}
use sqlite_broker.Broker.Sqlite.{Sqlite, Prepared, Bound}
use sqlite_broker.Broker.Statement.{
  sqlite_ok, sqlite_row, sqlite_done, c_string, bound, bind_one, bind_next, bind_all,
}
use sqlite_broker.Broker.Execute.{
  Table, Turn, finished, refused, goes, turn, SqlOutcome, step_loop, finalized, run_bound,
  bind_some, run_statement, after_statement, run_compiled, run_prepared, statement_loop,
  execute_inner, execute,
}
use sqlite_broker.Broker.Prepare.{prepared_meta, prepare_meta}

abbrev pub made {ℓ} : {S : Type ℓ} → Option S → ℕ
made none = 0
made (some stmt) = 1

-- How SQLite counts statements: `sqlite3_prepare_v2` makes one or, where it fails, none;
-- `sqlite3_finalize` takes one away; binding and stepping do neither.
pub record CountsStatements (db : Sqlite) : Type 0 where
  pub live : db.World → ℕ
  pub prepares :
      (conn : db.Conn) (sql : Bytes) (w : db.World)
      → live (db.prepare_v2 conn sql w).1 ≡ live w + made (db.prepare_v2 conn sql w).0.stmt
  pub fails :
      (conn : db.Conn) (sql : Bytes) (w : db.World)
      → int_eq (db.prepare_v2 conn sql w).0.rc sqlite_ok ≡ false
      → (db.prepare_v2 conn sql w).0.stmt ≡ none
  pub binds :
      (stmt : db.Stmt) (index : ℤ) (b : Bound) (w : db.World)
      → live (db.bind stmt index b w).1 ≡ live w
  pub steps : (stmt : db.Stmt) (w : db.World) → live (db.step stmt w).1 ≡ live w
  pub finalizes :
      (stmt : db.Stmt) (w : db.World) {n : ℕ} → live w ≡ n + 1 → live (db.finalize stmt w) ≡ n

module _ (db : Sqlite) (laws : CountsStatements db) where
  open laws use {live, prepares, fails, binds, steps, finalizes}

  live-bind_one :
      (stmt : db.Stmt) (p : Param) (b : Result Bytes Bound) (w : db.World)
      → live (bind_one db stmt p b w).1 ≡ live w
  unfolding bind_one
  live-bind_one stmt p (err e) w = refl
  live-bind_one stmt p (ok b) w = binds stmt p.index b w

  live-bind_next :
      (rest : db.World → Result Bytes (Unit {0}) × db.World) (r : Result Bytes (Unit {0}))
      (w : db.World)
      → ((u : db.World) → live (rest u).1 ≡ live u)
      → live (bind_next db rest (r, w)).1 ≡ live w
  unfolding bind_next
  live-bind_next rest (ok u) w h = h w
  live-bind_next rest (err e) w h = refl

  live-bind_all :
      (stmt : db.Stmt) (ps : List Param) (w : db.World) → live (bind_all db stmt ps w).1 ≡ live w
  unfolding bind_all
  live-bind_all stmt [] w = refl
  live-bind_all stmt (p ∷ ps) w =
      let (r, w') = bind_one db stmt p (bound p) w in
      live-bind_next (bind_all db stmt ps) r w' (live-bind_all stmt ps)
      ∙ live-bind_one stmt p (bound p) w

  -- The outcome, if there is one, has as many statements as that.
  abbrev Leaves {ℓ} : {A : Type ℓ} → ℕ → Option (A × db.World) → Type 0
  Leaves n none = Unit
  Leaves n (some (r, w)) = live w ≡ n

  module _ (patience : ℕ) where
    step_loop-Leaves :
        (k : ℕ) (conn : db.Conn) (stmt : db.Stmt) (ncols : ℕ) (rows : List (List Cell))
        (w : db.World)
        → Leaves (live w) (step_loop db patience k conn stmt ncols rows w)
    unfolding step_loop
    step_loop-Leaves zero conn stmt ncols rows w = tt
    step_loop-Leaves (suc k) conn stmt ncols rows w =
        elim (Bool-cases (int_eq (db.step stmt w).0 sqlite_row)) [
          | inl row ↦
              rw (row, ← steps stmt w) (step_loop-Leaves k conn stmt ncols _ (db.step stmt w).1)
          | inr other ↦ rw other (elim (Bool-cases (int_eq (db.step stmt w).0 sqlite_done)) [
            | inl done ↦ rw done (steps stmt w)
            | inr bad ↦ rw bad (steps stmt w)
          ])
        ]

    run_bound-Leaves :
        (conn : db.Conn) (stmt : db.Stmt) (table : Table) (r : Result Bytes (Unit {0}))
        (w : db.World)
        → Leaves (live w) (run_bound db patience conn stmt table (r, w))
    unfolding run_bound
    run_bound-Leaves conn stmt table (err e) w = refl
    run_bound-Leaves conn stmt table (ok u) w =
        go (step_loop db patience patience conn stmt (db.column_count stmt w) table.rows w) refl
          (step_loop-Leaves patience conn stmt (db.column_count stmt w) table.rows w)
      where
        go :
            (o : SqlOutcome db patience (List (List Cell)))
            → step_loop db patience patience conn stmt (db.column_count stmt w) table.rows w ≡ o
            → Leaves (live w) o
            → Leaves (live w) (run_bound db patience conn stmt table (ok u, w))
        go none e h = rw (e, run_bound) tt
        go (some (r, w')) e h = rw (e, run_bound) h

    bind_some-live :
        (stmt : db.Stmt) (params : List Param) (w : db.World)
        → live (bind_some db patience stmt params w).1 ≡ live w
    unfolding bind_some
    bind_some-live stmt [] w = refl
    bind_some-live stmt (p ∷ ps) w = live-bind_all stmt (p ∷ ps) w

    finalized-Leaves {ℓ} :
        {A : Type ℓ} (stmt : db.Stmt) (n : ℕ) (o : SqlOutcome db patience A)
        → Leaves (n + 1) o
        → Leaves n (finalized db patience stmt o)
    unfolding finalized
    finalized-Leaves stmt n none h = tt
    finalized-Leaves stmt n (some (r, w)) h = finalizes stmt w h

    run_statement-Leaves :
        (conn : db.Conn) (stmt : db.Stmt) (params : List Param) (table : Table) (w : db.World)
        (n : ℕ)
        → live w ≡ n + 1
        → Leaves n (run_statement db patience conn stmt params table w)
    unfolding run_statement
    run_statement-Leaves conn stmt params table w n h =
        let (b, w') = bind_some db patience stmt params w in
        finalized-Leaves stmt n (run_bound db patience conn stmt table (b, w'))
          (rw (← (bind_some-live stmt params w ∙ h)) (run_bound-Leaves conn stmt table b w'))

    after_statement-Leaves :
        (loop : ℕ → Table → db.World → SqlOutcome db patience Table) (t : Turn)
        (o : SqlOutcome db patience Table) (n : ℕ)
        → ((next : ℕ) (table : Table) (w : db.World) → live w ≡ n → Leaves n (loop next table w))
        → Leaves n o
        → Leaves n (after_statement db patience loop t o)
    unfolding after_statement
    after_statement-Leaves loop t none n more h = tt
    after_statement-Leaves loop t (some (err f, w)) n more h = h
    after_statement-Leaves loop finished (some (ok table, w)) n more h = h
    after_statement-Leaves loop refused (some (ok table, w)) n more h = h
    after_statement-Leaves loop (goes next) (some (ok table, w)) n more h = more next table w h

    run_compiled-Leaves :
        (loop : ℕ → Table → db.World → SqlOutcome db patience Table) (conn : db.Conn) (sql : Bytes)
        (params : List Param) (position : ℕ) (table : Table) (tail : Option ℕ) (w : db.World)
        (s : Option db.Stmt) (n : ℕ)
        → ((next : ℕ) (u : Table) (v : db.World) → live v ≡ n → Leaves n (loop next u v))
        → live w ≡ n + made s
        → Leaves n (run_compiled db patience loop conn sql params position table tail w s)
    unfolding run_compiled
    run_compiled-Leaves loop conn sql params position table tail w none n more h = omega arith
    run_compiled-Leaves loop conn sql params position table tail w (some stmt) n more h =
        after_statement-Leaves loop (turn sql params position tail) _ n more
          (run_statement-Leaves conn stmt params table w n h)

    statement_loop-Leaves :
        (rounds : ℕ) (conn : db.Conn) (sql : Bytes) (params : List Param) (position : ℕ)
        (table : Table) (w : db.World) (n : ℕ)
        → live w ≡ n
        → Leaves n (statement_loop db patience rounds conn sql params position table w)
    unfolding statement_loop run_prepared
    statement_loop-Leaves zero conn sql params position table w n h = tt
    statement_loop-Leaves (suc rounds) conn sql params position table w n h =
        let (p, w') = db.prepare_v2 conn (drop position sql) w in
        let made_one = prepares conn (drop position sql) w in
        elim (Bool-cases (int_eq p.rc sqlite_ok)) [
          | inr bad ↦
              let nothing = fails conn (drop position sql) w bad in
              rw bad (omega (arith, made_one, ap made nothing))
          | inl good ↦ rw good (
              run_compiled-Leaves (statement_loop db patience rounds conn sql params) conn sql
                params position table p.tail w' p.stmt n
                (λ next u v. statement_loop-Leaves rounds conn sql params next u v n)
                (omega (arith, made_one)))
        ]

    inner_run :
        (conn : db.Conn) (params : List Param) (w : db.World) (sql : Bytes) (c : Result Bytes Bytes)
        → c_string sql ≡ c
        → Leaves (live w) (execute_inner db patience conn sql params w)
    unfolding execute_inner
    inner_run conn params w sql (err e) h = rw (h, execute_inner) refl
    inner_run conn params w sql (ok text) h =
        rw (h, execute_inner)
          (statement_loop-Leaves (length text + 2) conn text params 0 _ w (live w) refl)

    execute-Leaves :
        (conn : db.Conn) (sql : Bytes) (params : List Param) (w : db.World)
        (o : SqlOutcome db patience Table)
        → execute_inner db patience conn sql params w ≡ o
        → Leaves (live w) o
        → Leaves (live w) (execute db patience conn sql params w)
    unfolding execute
    execute-Leaves conn sql params w none e h = rw (e, execute) tt
    execute-Leaves conn sql params w (some (r, w')) e h = rw (e, execute) h

    -- Where SQLite counts statements as `CountsStatements` says: when `execute` returns, whatever failed
    -- on the way, as many statements are alive as before.
    pub execute_finalizes :
        (conn : db.Conn) (sql : Bytes) (params : List Param) (w w' : db.World) (r : Response)
        → execute db patience conn sql params w ≡ some (r, w')
        → live w' ≡ live w
    execute_finalizes conn sql params w w' r h =
        subst (Leaves (live w)) h (
          execute-Leaves conn sql params w _ refl (inner_run conn params w sql (c_string sql) refl))

  prepared_meta-live :
      (conn : db.Conn) (autocommit : Bool) (c : Bytes) (p : Prepared db.Stmt) (w : db.World) (n : ℕ)
      → (int_eq p.rc sqlite_ok ≡ false → p.stmt ≡ none)
      → live w ≡ n + made p.stmt
      → live (prepared_meta db conn autocommit c p w).1 ≡ n
  unfolding prepared_meta
  prepared_meta-live conn autocommit c p w n nothing h = elim (Bool-cases (int_eq p.rc sqlite_ok)) [
    | inr bad ↦ rw bad (omega (arith, h, ap made (nothing bad)))
    | inl good ↦ compiled p.stmt refl good
  ]
    where
      compiled :
          (s : Option db.Stmt)
          → p.stmt ≡ s
          → int_eq p.rc sqlite_ok ≡ true
          → live (prepared_meta db conn autocommit c p w).1 ≡ n
      compiled none e good = rw (good, e, prepared_meta) (omega (arith, h, ap made e))
      compiled (some stmt) e good =
          rw (good, e, prepared_meta)
            (finalizes stmt w (h ∙ ap (λ (s : Option db.Stmt). n + made s) e))

  -- Where SQLite counts statements as `CountsStatements` says, `prepare_meta` leaves as many alive as
  -- there were.
  pub prepare_meta_finalizes :
      (conn : db.Conn) (sql : Bytes) (w : db.World) → live (prepare_meta db conn sql w).1 ≡ live w
  unfolding prepare_meta
  prepare_meta_finalizes conn sql w = go (c_string sql) refl
    where
      go :
          (c : Result Bytes Bytes) → c_string sql ≡ c → live (prepare_meta db conn sql w).1 ≡ live w
      go (err e) h = rw (h, prepare_meta) refl
      go (ok c) h =
          rw (h, prepare_meta)
            (prepared_meta-live conn (db.is_autocommit conn w) c (db.prepare_v2 conn c w).0
              (db.prepare_v2 conn c w).1 (live w) (fails conn c w) (prepares conn c w))
