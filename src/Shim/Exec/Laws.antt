-- ===== src/Shim/Exec/Laws.antt =====
-- `exec_sql` and the handles, and what its answer says.
use sqlite_broker.Prelude.{
  ℕ, ◌==◌, ◌≡◌, refl, ℤ, Bool, true, false, [], Option, none, some, if-both,
}
use sqlite_broker.Prelude.Assoc.{get, get-insert_same}
use sqlite_broker.Prelude.Result.{Result, ok, err}
use sqlite_broker.Text.{Bytes, codes}
use sqlite_broker.Protocol.Message.{exec, Response}
use sqlite_broker.Shim.State.{Net, ProxyDb, Shim, as_db, put_db, sqlite_abort}
use sqlite_broker.Shim.Proxy.{apply}
use sqlite_broker.Shim.Statement.{sql_from, call}
use sqlite_broker.Shim.Ownership.{IsOwned}
use sqlite_broker.Shim.Ownership.Links.{put_db-IsLinked, insert-AllClosing}
use sqlite_broker.Shim.Handles.{Owned, call-Owned, as_db-get}
use sqlite_broker.Shim.Exec.{
  Callback, run_callback, malloc_cstr, report, shown, aborted, answered_exec, exec_proxy, exec_sql,
}

module _ {net : Net} where
  malloc_cstr-Owned : (text : Bytes) (s : Shim net) → Owned s → Owned (malloc_cstr text s).1
  unfolding malloc_cstr
  malloc_cstr-Owned text s v =
      let keeps : IsOwned s.dbs s.stmts = record { linked = v.linked; closing = v.closing } in
      if-both (λ (r : ℕ × Shim net). Owned r.1) ((net.malloc _ s.world).0 == 0) (λ gone. keeps)
        (λ there. keeps)

  report-Owned :
      (has_errmsg : Bool) (text : Bytes) (code : ℤ) (s : Shim net)
      → Owned s
      → Owned (report has_errmsg text code s).2
  unfolding report
  report-Owned true text code s v = malloc_cstr-Owned text s v
  report-Owned false text code s v = v

  shown-Owned :
      (db : ℕ) (has_errmsg : Bool) (resp : Response) (p : ProxyDb net) (r : Bool) (w : net.World)
      (s : Shim net)
      → get db s.dbs ≡ some p
      → Owned s
      → Owned (shown db has_errmsg resp p (r, w) s).2
  unfolding shown put_db apply
  shown-Owned db has_errmsg resp p false w s h v = record { linked = v.linked; closing = v.closing }
  shown-Owned db has_errmsg resp p true w s h v =
      report-Owned has_errmsg (codes "callback aborted") sqlite_abort
        (put_db db (apply (aborted resp) p) (record s { world = w }))
        (record {
          linked = put_db-IsLinked db p (apply (aborted resp) p) h refl v.linked;
          closing =
              insert-AllClosing db (apply (aborted resp) p) s.dbs (v.closing db p h) v.closing;
        })

  answered_exec-Owned :
      (db : ℕ) (callback : Option (Callback net)) (has_errmsg : Bool) (r : Result Bytes Response)
      (p : ProxyDb net) (s : Shim net)
      → get db s.dbs ≡ some p
      → Owned s
      → Owned (answered_exec db callback has_errmsg (r, p, s)).2
  unfolding answered_exec
  answered_exec-Owned db callback has_errmsg (ok resp) p s h v =
      let c = run_callback net callback resp s.world in
      shown-Owned db has_errmsg resp p c.0 c.1 s h v
  answered_exec-Owned db callback has_errmsg (err m) p s h v = report-Owned has_errmsg m _ s v

  -- `exec_sql` keeps the ownership.
  pub exec_sql-Owned :
      (db : ℕ) (sql : Option Bytes) (callback : Option (Callback net)) (has_errmsg : Bool)
      (s : Shim net)
      → Owned s
      → Owned (exec_sql db sql callback has_errmsg s).2
  unfolding exec_sql exec_proxy call put_db
  exec_sql-Owned db sql callback has_errmsg s v = go (as_db db s) sql refl
    where
      go :
          (o : Option (ProxyDb net)) (text : Option Bytes)
          → as_db db s ≡ o
          → Owned (exec_proxy db text callback has_errmsg o s).2
      go none text e = v
      go (some p) none e = v
      go (some p) (some bytes) e =
          let req = exec (sql_from (some bytes) (ℤ.negsuc 0)) [] in
          let r = call db req p s in
          answered_exec-Owned db callback has_errmsg r.0 r.1 r.2 (get-insert_same db r.1 s.dbs)
            (call-Owned db req p s (as_db-get db p s e) v)
