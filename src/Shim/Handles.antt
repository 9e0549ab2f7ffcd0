-- ===== src/Shim/Handles.antt =====
-- The operations on handles keep the ownership, and follow no pointer to a connection that is gone.
use sqlite_broker.Prelude.{
  ℕ, ◌==◌, ◌≡◌, refl, sym, ap, ◌∙◌, arith, ℤ, Bool, true, false, not, ◌&&◌, Option, none, some,
  is_empty, if-both, and_true,
}
use mathlib.Core.Path.{subst}
use sqlite_broker.Prelude.Assoc
use sqlite_broker.Prelude.Assoc.{get, get-insert_same}
use sqlite_broker.Prelude.Result.{Result, ok, err}
use sqlite_broker.Text.{Bytes}
use sqlite_broker.Protocol.Message.{Request, Response}
use sqlite_broker.Shim.State.{
  Net, ProxyDb, ProxyStmt, Shim, Reply, as_db, as_stmt, put_db, put_stmt,
}
use sqlite_broker.Shim.Proxy.{rpc, digest, apply, fail, exchange, shutdown, unlink_stmt}
use sqlite_broker.Shim.Rows.{fill, break, next_row, cache_row, cleared}
use sqlite_broker.Shim.Statement.{
  call, destroy_db, close_now, close_proxy, close_db, advance, executed, execute_stmt,
  step_registered, step_stmt, reset_registered, reset, unlinked, finalize_linked,
  finalize_registered, finalize_stmt,
}
use sqlite_broker.Shim.Ownership.{IsLinked, AllClosing, IsOwned}
use sqlite_broker.Shim.Ownership.Links.{
  put_db-IsLinked, put_stmt-IsLinked, unlink_stmt-IsLinked, remove_db-IsLinked, insert-AllClosing,
  remove-AllClosing,
}

next_row-db : (show : ℕ → Bytes) (p : ProxyStmt) → (next_row show p).1.db ≡ p.db
unfolding next_row cache_row
next_row-db show p = ground arith

module _ {net : Net} where
  abbrev pub Owned : Shim net → Type 0
  Owned s = IsOwned s.dbs s.stmts

  abbrev SameLinks : ProxyDb net → Result Bytes Response × ProxyDb net × net.World → Type 0
  SameLinks p r = (r.1.stmts ≡ p.stmts) × (r.1.closed ≡ p.closed)

  -- A request changes neither the list nor the mark of its connection.
  digest_keeps :
      (p : ProxyDb net) (r : Result Bytes Response) (w : net.World)
      → ((digest p (r, w)).1.stmts ≡ p.stmts) × ((digest p (r, w)).1.closed ≡ p.closed)
  unfolding digest apply fail
  digest_keeps p (ok resp) w = (refl, refl)
  digest_keeps p (err e) w = (refl, refl)

  pub rpc_keeps :
      (req : Request) (p : ProxyDb net) (w : net.World)
      → ((rpc req p w).1.stmts ≡ p.stmts) × ((rpc req p w).1.closed ≡ p.closed)
  unfolding rpc fail
  rpc_keeps req p w =
      if-both (SameLinks p) p.closed (λ shut. (refl, refl))
        (λ still. digest_keeps p (exchange p req w).0 (exchange p req w).1)

  pub call-Owned :
      (db : ℕ) (req : Request) (p : ProxyDb net) (s : Shim net)
      → get db s.dbs ≡ some p
      → Owned s
      → Owned (call db req p s).2
  unfolding call put_db
  call-Owned db req p s h v =
      let (same, mark) = rpc_keeps req p s.world in
      record {
        linked = put_db-IsLinked db p (rpc req p s.world).1 h same v.linked;
        closing =
            insert-AllClosing db (rpc req p s.world).1 s.dbs
              (λ c. ap is_empty same ∙ v.closing db p h (sym mark ∙ c)) v.closing;
      }

  pub put_stmt-Owned :
      (stmt : ℕ) (p p' : ProxyStmt) (s : Shim net)
      → get stmt s.stmts ≡ some p
      → p'.db ≡ p.db
      → Owned s
      → Owned (put_stmt stmt p' s)
  unfolding put_stmt
  put_stmt-Owned stmt p p' s h same v = record {
    linked = put_stmt-IsLinked stmt p p' h same v.linked;
    closing = v.closing;
  }

  advance-Owned :
      (stmt : ℕ) (p p' : ProxyStmt) (s : Shim net)
      → get stmt s.stmts ≡ some p
      → p'.db ≡ p.db
      → Owned s
      → Owned (advance stmt p' s).1
  unfolding advance
  advance-Owned stmt p p' s h same =
      put_stmt-Owned stmt p (next_row net.display_real p').1 s h
        (next_row-db net.display_real p' ∙ same)

  executed-Owned :
      (stmt : ℕ) (p : ProxyStmt) (r : Result Bytes Response) (d : ProxyDb net) (s : Shim net)
      → get stmt s.stmts ≡ some p
      → Owned s
      → Owned (executed stmt p (r, d, s)).1
  unfolding executed fill break
  executed-Owned stmt p (ok resp) d s h = advance-Owned stmt p (fill resp p) s h refl
  executed-Owned stmt p (err e) d s h = put_stmt-Owned stmt p _ s h refl

  -- It returns, in a state that is owned.
  abbrev pub ReturnsOwned : Option (Reply ℤ × Shim net) → Type 0
  ReturnsOwned o = (r : Reply ℤ × Shim net) × (o ≡ some r) × Owned r.1

  pub as_stmt-get :
      (stmt : ℕ) (p : ProxyStmt) (s : Shim net)
      → as_stmt stmt s ≡ some p
      → get stmt s.stmts ≡ some p
  unfolding as_stmt
  as_stmt-get stmt p s h = ground arith

  pub as_db-get :
      (db : ℕ) (p : ProxyDb net) (s : Shim net) → as_db db s ≡ some p → get db s.dbs ≡ some p
  unfolding as_db
  as_db-get db p s h = ground arith

  -- In a state that is owned, `step_stmt` on any handle returns, so it follows no dangling pointer, and
  -- leaves such a state.
  pub step_stmt-ReturnsOwned : (stmt : ℕ) (s : Shim net) → Owned s → ReturnsOwned (step_stmt stmt s)
  unfolding step_stmt step_registered execute_stmt call put_db
  step_stmt-ReturnsOwned stmt s v = go (as_stmt stmt s) refl
    where
      execute :
          (p : ProxyStmt) (d : ProxyDb net)
          → get stmt s.stmts ≡ some p
          → get p.db s.dbs ≡ some d
          → ReturnsOwned (execute_stmt stmt p (some d) s)
      execute p d at owner =
          let c = call p.db _ d s in
          (_, refl, executed-Owned stmt p c.0 c.1 c.2 at (call-Owned p.db _ d s owner v))

      go : (o : Option ProxyStmt) → as_stmt stmt s ≡ o → ReturnsOwned (step_registered stmt o s)
      go none e = (_, refl, v)
      go (some p) e =
          let at = as_stmt-get stmt p s e in
          let (d, owner, on) = v.linked.owner stmt p at in
          if-both ReturnsOwned p.started (λ started. (_, refl, advance-Owned stmt p p s at refl v))
            (λ fresh.
              subst (λ (o : Option (ProxyDb net)). ReturnsOwned (execute_stmt stmt p o s))
                (sym owner) (execute p d at owner))

  -- A connection whose list got shorter, or that got closed.
  unlinked-Owned :
      (db : ℕ) (d : ProxyDb net) (s : Shim net)
      → IsLinked (Assoc.insert db d s.dbs) s.stmts
      → AllClosing s.dbs
      → Owned (unlinked db d s)
  unfolding unlinked destroy_db put_db
  unlinked-Owned db d s l c =
      if-both Owned (d.closed && is_empty d.stmts)
        (λ gone.
          subst
            (λ (o : Option (ProxyDb net)). Owned (elim o [
              | none ↦ put_db db d s
              | some p ↦ record s {
                dbs = Assoc.remove db (Assoc.insert db d s.dbs);
                world = shutdown p s.world;
              }
            ]))
            (sym (get-insert_same db d s.dbs))
            (record {
              linked =
                  remove_db-IsLinked db d (get-insert_same db d s.dbs)
                    (and_true d.closed (is_empty d.stmts) gone).1 l;
              closing = remove-AllClosing db d s.dbs c;
            }))
        (λ stays. record {
          linked = l;
          closing = insert-AllClosing db d s.dbs (and_left d.closed (is_empty d.stmts) stays) c;
        })
    where
      and_left : (a b : Bool) → (a && b) ≡ false → a ≡ true → b ≡ false
      and_left true b h k = h
      and_left false b h k = cc

  -- The same holds of `finalize_stmt`.
  pub finalize_stmt-ReturnsOwned :
      (stmt : ℕ) (s : Shim net) → Owned s → ReturnsOwned (finalize_stmt stmt s)
  unfolding finalize_stmt finalize_registered finalize_linked
  finalize_stmt-ReturnsOwned stmt s v =
      if-both ReturnsOwned (stmt == 0) (λ null. (_, refl, v)) (λ other. go (get stmt s.stmts) refl)
    where
      go :
          (o : Option ProxyStmt)
          → get stmt s.stmts ≡ o
          → ReturnsOwned (finalize_registered stmt o s)
      go none e = (_, refl, v)
      go (some p) e =
          let (d, owner, on) = v.linked.owner stmt p e in
          subst
            (λ (o : Option (ProxyDb net)).
              ReturnsOwned
                (finalize_linked stmt p o (record s { stmts = Assoc.remove stmt s.stmts })))
            (sym owner)
            (
              _,
              refl,
              unlinked-Owned p.db (unlink_stmt stmt d)
                  (record s { stmts = Assoc.remove stmt s.stmts })
                  (unlink_stmt-IsLinked stmt d p owner e v.linked) v.closing,
            )

  -- What `sqlite3_reset` and the close of a connection leave is owned.
  pub reset-Owned : (stmt : ℕ) (s : Shim net) → Owned s → Owned (reset stmt s).1
  unfolding reset reset_registered cleared
  reset-Owned stmt s v = go (as_stmt stmt s) refl
    where
      go : (o : Option ProxyStmt) → as_stmt stmt s ≡ o → Owned (reset_registered stmt o s).1
      go none e = v
      go (some p) e = put_stmt-Owned stmt p _ s (as_stmt-get stmt p s e) refl v

  pub close_db-Owned : (db : ℕ) (v2 : Bool) (s : Shim net) → Owned s → Owned (close_db db v2 s).1
  unfolding close_db close_proxy close_now unlinked put_db
  close_db-Owned db v2 s v =
      if-both (λ (r : Reply ℤ × Shim net). Owned r.1) (db == 0) (λ null. v)
        (λ other. go (as_db db s) refl)
    where
      go : (o : Option (ProxyDb net)) → as_db db s ≡ o → Owned (close_proxy db v2 o s).1
      go none e = v
      go (some p) e =
          if-both (λ (r : Reply ℤ × Shim net). Owned r.1) (not v2 && not (is_empty p.stmts))
            (λ busy. v)
            (λ free.
              unlinked-Owned db (record p { closed = true }) s
                (put_db-IsLinked db p _ (as_db-get db p s e) refl v.linked) v.closing)
