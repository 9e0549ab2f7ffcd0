-- ===== src/Shim/Ownership.antt =====
-- Handles of connections and statements: who lists whom.
pub mod Links
use sqlite_broker.Prelude.{
  ℕ, ◌==◌, ◌≡◌, refl, sym, ap, ◌∙◌, arith, true, false, ◌||◌, List, [], ◌∷◌, ◌++◌, Option, none,
  some, has, is_empty, Bool-cases, inl, inr, ==_iff, if◌then◌else◌,
}
use mathlib.Core.Path.{subst}
use sqlite_broker.Prelude.Assoc.{
  Assoc, get, insert, remove, get-insert_same, get-insert_cases, get-insert_other, get-remove_cases,
  get-remove_other,
}
use sqlite_broker.Shim.State.{Net, ProxyDb, ProxyStmt}
use sqlite_broker.Shim.Proxy.{without, link_stmt, unlink_stmt}

-- The connection is registered and lists the statement.
abbrev pub Lists : {net : Net} → Assoc (ProxyDb net) → ℕ → ℕ → Type 0
Lists {net} dbs db stmt = (d : ProxyDb net) × (get db dbs ≡ some d) × (has stmt d.stmts ≡ true)

-- A statement's pointer leads to a registered connection that lists the statement, and what a
-- connection lists is a registered statement of that connection.
pub record IsLinked {net : Net} (dbs : Assoc (ProxyDb net)) (stmts : Assoc ProxyStmt) : Type 0 where
  pub owner : (stmt : ℕ) (p : ProxyStmt) → get stmt stmts ≡ some p → Lists dbs p.db stmt
  pub listed :
      (db : ℕ) (d : ProxyDb net) (stmt : ℕ)
      → get db dbs ≡ some d
      → has stmt d.stmts ≡ true
      → (p : ProxyStmt) × (get stmt stmts ≡ some p) × (p.db ≡ db)

-- A connection that is closed is registered only while it lists a statement.
abbrev pub IsClosing : {net : Net} → ProxyDb net → Type 0
IsClosing d = d.closed ≡ true → is_empty d.stmts ≡ false

abbrev pub AllClosing : {net : Net} → Assoc (ProxyDb net) → Type 0
AllClosing {net} dbs = (db : ℕ) (d : ProxyDb net) → get db dbs ≡ some d → IsClosing d

pub record IsOwned {net : Net} (dbs : Assoc (ProxyDb net)) (stmts : Assoc ProxyStmt) : Type 0 where
  pub linked : IsLinked dbs stmts
  pub closing : AllClosing dbs
