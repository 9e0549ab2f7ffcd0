-- ===== src/Shim/Reach.antt =====
-- Any sequence of calls of the shim that make, use and destroy handles.
use sqlite_broker.Prelude.{
  ℕ, ◌==◌, min, ◌≡◌, refl, sym, ap, ◌∙◌, ℤ, Bool, true, false, not, List, [], ◌∷◌, ◌++◌, is_empty,
  Option, none, some, length, take, if-both,
}
use sqlite_broker.Prelude.Assoc
use sqlite_broker.Prelude.Assoc.{get, get-insert_same}
use sqlite_broker.Prelude.Result.{Result, ok, err}
use sqlite_broker.Text.{Bytes}
use sqlite_broker.Text.Search.{is_char_boundary}
use sqlite_broker.Protocol.Message.{Hello, prepare, Response}
use sqlite_broker.Shim.State.{Net, ProxyDb, ProxyStmt, Shim, Reply, as_db, put_db, put_stmt}
use sqlite_broker.Shim.Proxy.{link_stmt, new_proxy, greet, welcome, connect}
use sqlite_broker.Shim.Statement.{
  sql_from, new_stmt, Prepared, PrepareCall, early_tail, call, add_stmt, compiled, described,
  prepare_proxy, prepare_v2,
}
use sqlite_broker.Shim.Open.{opened, open_addr, open_path, open_v2}
use sqlite_broker.Shim.Ownership.Links.{new_db-IsLinked, new_stmt-IsLinked, insert-AllClosing}
use sqlite_broker.Shim.Handles.{Owned, call-Owned, as_db-get}

nonempty : (a : ℕ) (xs : List ℕ) → is_empty (xs ++ (a ∷ [])) ≡ false
nonempty a [] = refl
nonempty a (x ∷ xs) = refl

module _ {net : Net} where
  -- A state is owned if the address that was handed out in it was in no registry before.
  abbrev Fresh : Shim net → Prepared × Shim net → Type 0
  Fresh s r = get r.0.stmt s.stmts ≡ none → Owned r.1

  add_stmt-Fresh :
      (db : ℕ) (sql : Bytes) (resp : Response) (d : ProxyDb net) (tail : Option ℕ)
      (before s : Shim net)
      → s.stmts ≡ before.stmts
      → get db s.dbs ≡ some d
      → Owned s
      → Fresh before (add_stmt db sql resp d tail s)
  unfolding add_stmt put_db put_stmt link_stmt new_stmt
  add_stmt-Fresh db sql resp d tail before s same at v fresh = record {
    linked =
        new_stmt-IsLinked db (net.allocate s.world).0 d (new_stmt db sql resp) at
          (ap (λ (m : Assoc.Assoc ProxyStmt). get (net.allocate s.world).0 m) same ∙ fresh) refl
          v.linked;
    closing =
        insert-AllClosing db (link_stmt _ d) s.dbs (λ c. nonempty (net.allocate s.world).0 d.stmts)
          v.closing;
  }

  compiled-Fresh :
      (c : PrepareCall) (text : Bytes) (tail : ℕ) (resp : Response) (d : ProxyDb net)
      (written : Option ℕ) (before s : Shim net)
      → s.stmts ≡ before.stmts
      → get c.db s.dbs ≡ some d
      → Owned s
      → Fresh before (compiled c text tail resp d written s)
  unfolding compiled
  compiled-Fresh c text tail resp d written before s same at v =
      if-both (Fresh before) resp.empty (λ nothing fresh. v)
        (λ some_.
          if-both (Fresh before) (tail == 0)
            (λ whole. add_stmt-Fresh c.db text resp d written before s same at v)
            (λ cut.
              if-both (Fresh before) (is_char_boundary text tail)
                (λ between. add_stmt-Fresh c.db (take tail text) resp d written before s same at v)
                (λ inside fresh. v)))

  described-Fresh :
      (c : PrepareCall) (text : Bytes) (early : Option ℕ) (r : Result Bytes Response)
      (d : ProxyDb net) (before s : Shim net)
      → s.stmts ≡ before.stmts
      → get c.db s.dbs ≡ some d
      → Owned s
      → Fresh before (described c text early (r, d, s))
  unfolding described
  described-Fresh c text early (err e) d before s same at v = λ fresh. v
  described-Fresh c text early (ok resp) d before s same at v =
      compiled-Fresh c text (min resp.tail (length text)) resp d _ before s same at v

  -- `prepare_v2` keeps the ownership, if the address of a new statement is that of no other.
  pub prepare_v2-Owned :
      (c : PrepareCall) (s : Shim net)
      → Owned s
      → get (prepare_v2 c s).0.stmt s.stmts ≡ none
      → Owned (prepare_v2 c s).1
  unfolding prepare_v2 prepare_proxy call put_db
  prepare_v2-Owned c s v =
      if-both (Fresh s) c.has_stmt (λ there. go (as_db c.db s) c.sql refl) (λ missing fresh. v)
    where
      go :
          (o : Option (ProxyDb net)) (sql : Option Bytes)
          → as_db c.db s ≡ o
          → Fresh s (prepare_proxy c o sql s)
      go none sql e = λ fresh. v
      go (some p) none e = λ fresh. v
      go (some p) (some bytes) e =
          let at = as_db-get c.db p s e in
          let req = prepare (sql_from (some bytes) c.nbytes) in
          let r = call c.db req p s in
          described-Fresh c (sql_from (some bytes) c.nbytes) (early_tail c bytes) r.0 r.1 s r.2 refl
            (get-insert_same c.db r.1 s.dbs) (call-Owned c.db req p s at v)

module _ (net : Net) where
  -- A connection that was just made lists nothing and is open.
  abbrev IsBare : Result Bytes (ProxyDb net) × net.World → Type 0
  IsBare (err e, w) = Unit
  IsBare (ok p, w) = (p.stmts ≡ []) × (p.closed ≡ false)

  greet-IsBare :
      (stream : net.Stream) (path : Bytes) (r : Result Bytes Hello) (w : net.World)
      → IsBare (greet stream path (r, w))
  unfolding greet new_proxy
  greet-IsBare stream path (err e) w = tt
  greet-IsBare stream path (ok hello) w =
      if-both IsBare (not hello.ok) (λ no. tt) (λ yes. (refl, refl))

  welcome-IsBare :
      (addr path : Bytes) (r : Result Bytes net.Stream) (w : net.World)
      → IsBare (welcome addr path (r, w))
  unfolding welcome
  welcome-IsBare addr path (err e) w = tt
  welcome-IsBare addr path (ok stream) w =
      greet-IsBare stream path (net.receive_hello stream w).0 (net.receive_hello stream w).1

module _ {net : Net} where
  abbrev FreshDb : Shim net → Reply ℤ × ℕ × Shim net → Type 0
  FreshDb s r = get r.1 s.dbs ≡ none → Owned r.2

  opened-FreshDb :
      (r : Result Bytes (ProxyDb net)) (w : net.World) (s : Shim net)
      → IsBare net (r, w)
      → Owned s
      → FreshDb s (opened (r, w) s)
  unfolding opened
  opened-FreshDb (err e) w s bare v = λ fresh. record { linked = v.linked; closing = v.closing }
  opened-FreshDb (ok p) w s (bare, open_) v = λ fresh. record {
    linked = new_db-IsLinked (net.allocate w).0 p fresh bare v.linked;
    closing =
        insert-AllClosing (net.allocate w).0 p s.dbs
          (λ shut. let e : false ≡ true = sym open_ ∙ shut in absurd (cc)) v.closing;
  }

  -- `open_v2` keeps the ownership, if the address of a new connection is that of no other.
  pub open_v2-Owned :
      (has_db : Bool) (filename : Option Bytes) (s : Shim net)
      → Owned s
      → get (open_v2 has_db filename s).1 s.dbs ≡ none
      → Owned (open_v2 has_db filename s).2
  unfolding open_v2 open_path open_addr connect
  open_v2-Owned has_db filename s v =
      if-both (FreshDb s) has_db (λ there. go filename) (λ missing fresh. v)
    where
      at_addr : (path : Bytes) (addr : Option Bytes) → FreshDb s (open_addr path addr s)
      at_addr path none = λ fresh. v
      at_addr path (some addr) =
          let r = net.connect addr s.world in
          let c = welcome addr path r in
          opened-FreshDb c.0 c.1 s (welcome-IsBare net addr path r.0 r.1) v

      go : (name : Option Bytes) → FreshDb s (open_path name s)
      go none = λ fresh. v
      go (some name) = at_addr _ _
