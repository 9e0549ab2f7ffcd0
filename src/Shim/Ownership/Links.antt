-- ===== src/Shim/Ownership/Links.antt =====
-- The changes of the two registries keep the handles linked.
use sqlite_broker.Prelude.{
  ℕ, ◌==◌, ◌≡◌, sym, ap, ◌∙◌, arith, true, false, List, [], ◌∷◌, ◌++◌, none, some, has, is_empty,
  Bool-cases, inl, inr, ==_iff,
}
use mathlib.Core.Path.{subst}
use sqlite_broker.Prelude.Assoc.{
  Assoc, get, insert, remove, get-insert_same, get-insert_cases, get-insert_other, get-remove_cases,
  get-remove_other,
}
use sqlite_broker.Shim.State.{Net, ProxyDb, ProxyStmt}
use sqlite_broker.Shim.Proxy.{link_stmt, unlink_stmt}
use sqlite_broker.Shim.Ownership.{Lists, IsLinked, IsClosing, AllClosing}
use sqlite_broker.Shim.Proxy.Lists.{
  has-append_one, has-without_other, has-without_cases, is_empty-has,
}
use sqlite_broker.Prelude.Assoc.{get_eq, get_at, not_there, not_same}

module _ {net : Net} where
  Lists_at :
      (dbs : Assoc (ProxyDb net)) {db db' stmt stmt' : ℕ}
      → db ≡ db'
      → stmt ≡ stmt'
      → Lists dbs db stmt
      → Lists dbs db' stmt'
  Lists_at dbs e f (d, at, l) = (d, get_at dbs e at, ap (λ (n : ℕ). has n d.stmts) (sym f) ∙ l)

  -- A connection is written back with another list.
  Lists-insert :
      (db : ℕ) (d d' : ProxyDb net) (dbs : Assoc (ProxyDb net)) (j stmt : ℕ)
      → get db dbs ≡ some d
      → (has stmt d.stmts ≡ true → has stmt d'.stmts ≡ true)
      → Lists dbs j stmt
      → Lists (insert db d' dbs) j stmt
  Lists-insert db d d' dbs j stmt h keeps (x, at, l) = elim (Bool-cases (db == j)) [
    | inl same ↦ (
      d',
      get_at (insert db d' dbs) ((==_iff db j).0 same) (get-insert_same db d' dbs),
      keeps (ap (λ (y : ProxyDb net). has stmt y.stmts) (get_eq db j dbs h at same) ∙ l),
    )
    | inr other ↦ (x, get-insert_other db j d' dbs other ∙ at, l)
  ]

  -- A connection is written back with the same list.
  pub put_db-IsLinked :
      (db : ℕ) (d d' : ProxyDb net) {dbs : Assoc (ProxyDb net)} {stmts : Assoc ProxyStmt}
      → get db dbs ≡ some d
      → d'.stmts ≡ d.stmts
      → IsLinked dbs stmts
      → IsLinked (insert db d' dbs) stmts
  put_db-IsLinked db d d' {dbs} h same v = record {
    owner = λ stmt p k.
        Lists-insert db d d' dbs p.db stmt h (λ l. ap (λ (xs : List ℕ). has stmt xs) same ∙ l)
          (v.owner stmt p k);
    listed = λ j x stmt k l. elim (get-insert_cases db j d' x dbs k) [
      | inl (eq, is) ↦
          let there : has stmt d.stmts ≡ true =
            ap (λ (xs : List ℕ). has stmt xs) (sym same ∙ ap (λ (y : ProxyDb net). y.stmts) is)
            ∙ l in
          let (p, at, mine) = v.listed db d stmt h there in (p, at, mine ∙ eq)
      | inr (other, there) ↦ v.listed j x stmt there l
    ];
  }

  -- A statement is written back with its connection unchanged.
  pub put_stmt-IsLinked :
      (stmt : ℕ) (p p' : ProxyStmt) {dbs : Assoc (ProxyDb net)} {stmts : Assoc ProxyStmt}
      → get stmt stmts ≡ some p
      → p'.db ≡ p.db
      → IsLinked dbs stmts
      → IsLinked dbs (insert stmt p' stmts)
  put_stmt-IsLinked stmt p p' {dbs} {stmts} h same v = record {
    owner = λ j x k. elim (get-insert_cases stmt j p' x stmts k) [
      | inl (eq, is) ↦
          Lists_at dbs (sym same ∙ ap (λ (y : ProxyStmt). y.db) is) eq (v.owner stmt p h)
      | inr (other, there) ↦ v.owner j x there
    ];
    listed = λ db d j k l.
        let (x, there, mine) = v.listed db d j k l in
        elim (Bool-cases (stmt == j)) [
          | inl eq ↦ (
            p',
            get_at (insert stmt p' stmts) ((==_iff stmt j).0 eq) (get-insert_same stmt p' stmts),
            same ∙ ap (λ (y : ProxyStmt). y.db) (get_eq stmt j stmts h there eq) ∙ mine,
          )
          | inr other ↦ (x, get-insert_other stmt j p' stmts other ∙ there, mine)
        ];
  }

  -- A new connection, at an address that is not in use, lists nothing.
  pub new_db-IsLinked :
      (db : ℕ) (d : ProxyDb net) {dbs : Assoc (ProxyDb net)} {stmts : Assoc ProxyStmt}
      → get db dbs ≡ none
      → d.stmts ≡ []
      → IsLinked dbs stmts
      → IsLinked (insert db d dbs) stmts
  new_db-IsLinked db d {dbs} fresh bare v = record {
    owner = λ stmt p k.
        let (x, at, l) = v.owner stmt p k in
        elim (Bool-cases (db == p.db)) [
          | inl same ↦ absurd (not_there db p.db dbs fresh at same)
          | inr other ↦ (x, get-insert_other db p.db d dbs other ∙ at, l)
        ];
    listed = λ j x stmt k l. elim (get-insert_cases db j d x dbs k) [
      | inl (eq, is) ↦
          let f : has stmt [] ≡ true =
            ap (λ (xs : List ℕ). has stmt xs) (sym bare ∙ ap (λ (y : ProxyDb net). y.stmts) is)
            ∙ l in
          absurd (cc)
      | inr (other, there) ↦ v.listed j x stmt there l
    ];
  }

  -- A new statement, at an address that is not in use, is put on its connection's list.
  pub new_stmt-IsLinked :
      (db raw : ℕ) (d : ProxyDb net) (p : ProxyStmt) {dbs : Assoc (ProxyDb net)}
      {stmts : Assoc ProxyStmt}
      → get db dbs ≡ some d
      → get raw stmts ≡ none
      → p.db ≡ db
      → IsLinked dbs stmts
      → IsLinked (insert db (link_stmt raw d) dbs) (insert raw p stmts)
  unfolding link_stmt
  new_stmt-IsLinked db raw d p {dbs} {stmts} h fresh mine v = record {
    owner = λ j x k. elim (get-insert_cases raw j p x stmts k) [
      | inl (eq, is) ↦ Lists_at _ (sym mine ∙ ap (λ (y : ProxyStmt). y.db) is) eq (
        link_stmt raw d,
        get-insert_same db (link_stmt raw d) dbs,
        ground (arith, has-append_one raw raw d.stmts),
      )
      | inr (other, there) ↦
          Lists-insert db d (link_stmt raw d) dbs x.db j h
            (λ l. ground (arith, has-append_one j raw d.stmts)) (v.owner j x there)
    ];
    listed = λ j x stmt k l. elim (get-insert_cases db j (link_stmt raw d) x dbs k) [
      | inl (eq, is) ↦ elim (Bool-cases (raw == stmt)) [
        | inl new ↦ (
          p,
          get_at (insert raw p stmts) ((==_iff raw stmt).0 new) (get-insert_same raw p stmts),
          mine ∙ eq,
        )
        | inr old ↦
            let on : has stmt (d.stmts ++ (raw ∷ [])) ≡ true =
              ap (λ (y : ProxyDb net). has stmt y.stmts) is ∙ l in
            let (q, at, its) =
              v.listed db d stmt h (ground (arith, has-append_one stmt raw d.stmts)) in
            (q, get-insert_other raw stmt p stmts old ∙ at, its ∙ eq)
      ]
      | inr (other, there) ↦
          let (q, at, its) = v.listed j x stmt there l in
          (q, get-insert_other raw stmt p stmts (not_same raw stmt stmts fresh at) ∙ at, its)
    ];
  }

  -- A statement leaves its connection's list and the registry.
  pub unlink_stmt-IsLinked :
      (stmt : ℕ) (d : ProxyDb net) (p : ProxyStmt) {dbs : Assoc (ProxyDb net)}
      {stmts : Assoc ProxyStmt}
      → get p.db dbs ≡ some d
      → get stmt stmts ≡ some p
      → IsLinked dbs stmts
      → IsLinked (insert p.db (unlink_stmt stmt d) dbs) (remove stmt stmts)
  unfolding unlink_stmt
  unlink_stmt-IsLinked stmt d p {dbs} {stmts} h there v = record {
    owner = λ j x k.
        let (other, at) = get-remove_cases stmt j x stmts k in
        Lists-insert p.db d (unlink_stmt stmt d) dbs x.db j h
          (λ l. has-without_other j stmt d.stmts other ∙ l) (v.owner j x at);
    listed = λ j x other k l. elim (get-insert_cases p.db j (unlink_stmt stmt d) x dbs k) [
      | inl (eq, is) ↦
          let (apart, on) =
            has-without_cases other stmt d.stmts
              (ap (λ (y : ProxyDb net). has other y.stmts) is ∙ l) in
          let (q, at, its) = v.listed p.db d other h on in
          (q, get-remove_other stmt other stmts apart ∙ at, its ∙ eq)
      | inr (elsewhere, at) ↦
          let (q, found, its) = v.listed j x other at l in
          (q, get-remove_other stmt other stmts (apart other j q elsewhere found its) ∙ found, its)
    ];
  }
    where
      apart :
          (other j : ℕ) (q : ProxyStmt)
          → (p.db == j) ≡ false
          → get other stmts ≡ some q
          → q.db ≡ j
          → (stmt == other) ≡ false
      apart other j q elsewhere found its = elim (Bool-cases (stmt == other)) [
        | inl same ↦
            let e = get_eq stmt other stmts there found same in
            let on : (p.db == j) ≡ true =
              (==_iff p.db j).1 (ap (λ (y : ProxyStmt). y.db) e ∙ its) in
            absurd (cc)
        | inr distinct ↦ distinct
      ]

  -- A connection that lists nothing goes.
  pub remove_db-IsLinked :
      (db : ℕ) (d : ProxyDb net) {dbs : Assoc (ProxyDb net)} {stmts : Assoc ProxyStmt}
      → get db dbs ≡ some d
      → is_empty d.stmts ≡ true
      → IsLinked dbs stmts
      → IsLinked (remove db dbs) stmts
  remove_db-IsLinked db d {dbs} h bare v = record {
    owner = λ stmt p k.
        let (x, at, l) = v.owner stmt p k in
        elim (Bool-cases (db == p.db)) [
          | inl same ↦
              let none_on = is_empty-has stmt d.stmts bare in
              let on : has stmt d.stmts ≡ true =
                ap (λ (y : ProxyDb net). has stmt y.stmts) (get_eq db p.db dbs h at same) ∙ l in
              absurd (cc)
          | inr other ↦ (x, get-remove_other db p.db dbs other ∙ at, l)
        ];
    listed = λ j x stmt k l.
        let (other, there) = get-remove_cases db j x dbs k in v.listed j x stmt there l;
  }

  pub insert-AllClosing :
      (db : ℕ) (d : ProxyDb net) (dbs : Assoc (ProxyDb net))
      → IsClosing d
      → AllClosing dbs
      → AllClosing (insert db d dbs)
  insert-AllClosing db d dbs c v j x k = elim (get-insert_cases db j d x dbs k) [
    | inl (eq, is) ↦ subst (λ (y : ProxyDb net). IsClosing y) is c
    | inr (other, there) ↦ v j x there
  ]

  pub remove-AllClosing :
      (db : ℕ) (d : ProxyDb net) (dbs : Assoc (ProxyDb net))
      → AllClosing dbs
      → AllClosing (remove db (insert db d dbs))
  remove-AllClosing db d dbs v j x k =
      let (other, there) = get-remove_cases db j x (insert db d dbs) k in
      v j x (sym (get-insert_other db j d dbs other) ∙ there)
