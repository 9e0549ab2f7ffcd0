-- ===== src/Shim/Calls.antt =====
-- A program's calls of the shim, one after the other.
use sqlite_broker.Prelude.{ℕ, ℤ, ◌≡◌, refl, sym, ◌∙◌, Bool, [], Option, none, some}
use mathlib.Core.Path.{subst}
use sqlite_broker.Prelude.Assoc.{get}
use sqlite_broker.Text.{Bytes}
use sqlite_broker.Shim.State.{Net, ProxyStmt, Shim, Reply, as_stmt}
use sqlite_broker.Shim.Statement.{
  PrepareCall, close_db, prepare_v2, step_stmt, reset, finalize_stmt,
}
use sqlite_broker.Shim.Open.{open_v2}
use sqlite_broker.Shim.Exec.{Callback, exec_sql}
use sqlite_broker.Shim.Exec.Laws.{exec_sql-Owned}
use sqlite_broker.Shim.Bind.{BindCall, bind, bind_registered, bind_stmt}
use sqlite_broker.Shim.Bind.Effect.{bind-db}
use sqlite_broker.Shim.Extensions.{SideCall, side_call}
use sqlite_broker.Shim.Extensions.Owned.{side_call-Owned}
use sqlite_broker.Shim.Ownership.{IsOwned}
use sqlite_broker.Shim.Handles.{
  Owned, ReturnsOwned, step_stmt-ReturnsOwned, finalize_stmt-ReturnsOwned, reset-Owned,
  close_db-Owned, as_stmt-get, put_stmt-Owned,
}
use sqlite_broker.Shim.Reach.{prepare_v2-Owned, open_v2-Owned}

module _ {net : Net} where
  abbrev pub no_handles : net.World → Shim net
  no_handles w = record { dbs = []; stmts = []; allocated = []; world = w }

  -- The states that calls lead to. The allocator gives no address twice while it is in use.
  pub data Reach : Shim net → Shim net → Type 0 where
    here : {s : Shim net} → Reach s s
    opens :
        {s u : Shim net}
        → Reach s u
        → (has_db : Bool) (filename : Option Bytes) → get (open_v2 has_db filename u).1 u.dbs ≡ none
        → Reach s (open_v2 has_db filename u).2
    closes : {s u : Shim net} → Reach s u → (db : ℕ) (v2 : Bool) → Reach s (close_db db v2 u).1
    prepares :
        {s u : Shim net}
        → Reach s u
        → (c : PrepareCall) → get (prepare_v2 c u).0.stmt u.stmts ≡ none
        → Reach s (prepare_v2 c u).1
    binds :
        {s u : Shim net} → Reach s u → (c : BindCall) (stmt : ℕ) → Reach s (bind_stmt c stmt u).2
    execs :
        {s u : Shim net}
        → Reach s u
        → (db : ℕ) (sql : Option Bytes) (callback : Option (Callback net)) (has_errmsg : Bool)
        → Reach s (exec_sql db sql callback has_errmsg u).2
    steps :
        {s u : Shim net}
        → Reach s u
        → (stmt : ℕ) (r : Reply ℤ × Shim net) → step_stmt stmt u ≡ some r
        → Reach s r.1
    asides : {s u : Shim net} → Reach s u → (c : SideCall) → Reach s (side_call c u)
    resets : {s u : Shim net} → Reach s u → (stmt : ℕ) → Reach s (reset stmt u).1
    finalizes :
        {s u : Shim net}
        → Reach s u
        → (stmt : ℕ) (r : Reply ℤ × Shim net) → finalize_stmt stmt u ≡ some r
        → Reach s r.1

  bind_stmt-Owned :
      (c : BindCall) (stmt : ℕ) (s : Shim net) → Owned s → Owned (bind_stmt c stmt s).2
  unfolding bind_stmt bind_registered
  bind_stmt-Owned c stmt s v = go (as_stmt stmt s) refl
    where
      go : (o : Option ProxyStmt) → as_stmt stmt s ≡ o → Owned (bind_registered c stmt o s).2
      go none e = v
      go (some p) e =
          put_stmt-Owned stmt p (bind c p).after s (as_stmt-get stmt p s e) (bind-db c p) v

  returned-Owned :
      (o : Option (Reply ℤ × Shim net)) (r : Reply ℤ × Shim net)
      → o ≡ some r
      → ReturnsOwned o
      → Owned r.1
  returned-Owned o r h (x, e, v) =
      let same : some x ≡ some r = sym e ∙ h in
      let is : x ≡ r = cc in subst (λ (y : Reply ℤ × Shim net). Owned y.1) is v

  Reach-Owned : {s u : Shim net} → Reach s u → Owned s → Owned u
  Reach-Owned here v = v
  Reach-Owned (opens {u = u} r has_db filename fresh) v =
      open_v2-Owned has_db filename u (Reach-Owned r v) fresh
  Reach-Owned (closes {u = u} r db v2) v = close_db-Owned db v2 u (Reach-Owned r v)
  Reach-Owned (prepares {u = u} r c fresh) v = prepare_v2-Owned c u (Reach-Owned r v) fresh
  Reach-Owned (binds {u = u} r c stmt) v = bind_stmt-Owned c stmt u (Reach-Owned r v)
  Reach-Owned (execs {u = u} r db sql callback has_errmsg) v =
      exec_sql-Owned db sql callback has_errmsg u (Reach-Owned r v)
  Reach-Owned (asides {u = u} r c) v = side_call-Owned c u (Reach-Owned r v)
  Reach-Owned (steps {u = u} r stmt x e) v =
      returned-Owned (step_stmt stmt u) x e (step_stmt-ReturnsOwned stmt u (Reach-Owned r v))
  Reach-Owned (resets {u = u} r stmt) v = reset-Owned stmt u (Reach-Owned r v)
  Reach-Owned (finalizes {u = u} r stmt x e) v =
      returned-Owned (finalize_stmt stmt u) x e
        (finalize_stmt-ReturnsOwned stmt u (Reach-Owned r v))

  no_handles-Owned : (w : net.World) → Owned (no_handles w)
  unfolding get
  no_handles-Owned w = record {
    linked = record { owner = λ stmt p h. absurd (cc); listed = λ db d stmt h l. absurd (cc) };
    closing = λ db d h. absurd (cc);
  }

  -- Whatever calls a program makes, in whatever order and with whatever handles, if the allocator gives
  -- out no address that is in use: a registered statement's connection is registered and lists it, a
  -- connection lists only statements of its own, a closed connection is kept only while it lists a
  -- statement, and no `sqlite3_step` or `sqlite3_finalize` follows a pointer to a connection that is gone.
  pub Reach-IsSafe :
      (w : net.World) {s : Shim net}
      → Reach (no_handles w) s
      → IsOwned s.dbs s.stmts
        × ((stmt : ℕ) → (r : Reply ℤ × Shim net) × (step_stmt stmt s ≡ some r))
        × ((stmt : ℕ) → (r : Reply ℤ × Shim net) × (finalize_stmt stmt s ≡ some r))
  Reach-IsSafe w {s} r =
      let v = Reach-Owned r (no_handles-Owned w) in
      (
        v,
        (λ stmt. let (x, e, o) = step_stmt-ReturnsOwned stmt s v in (x, e)),
        (λ stmt. let (x, e, o) = finalize_stmt-ReturnsOwned stmt s v in (x, e)),
      )
