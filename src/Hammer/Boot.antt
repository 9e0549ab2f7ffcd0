-- ===== src/Hammer/Boot.antt =====
-- `open_ready`, `boot` and `migrate` of server/src/hammer.rs.
use sqlite_broker.Prelude.{
  ℕ, ◌+◌, Bool, false, ◌||◌, if◌then◌else◌, List, [], ◌∷◌, ◌++◌, Option, none, some, bytes_eq,
}
use sqlite_broker.Prelude.Result.{Result, ok, err}
use sqlite_broker.Text.{Bytes, codes}
use sqlite_broker.Text.Decimal.{decimal}
use sqlite_broker.Text.Search.{contains, to_ascii_lowercase}
use sqlite_broker.Client.Program.{Action, ◌>>=◌, ◌>>◌, return, or_else, DbClient}
use sqlite_broker.Hammer.Statements.{format}

unfoldable pub benign_migration : Bytes → Bool
benign_migration e =
    let lower = to_ascii_lowercase e in
    contains (codes "duplicate column") lower || contains (codes "already exists") lower

-- `rows.first().and_then(|row| row.first()) == Some("1")`
unfoldable pub is_one : List (List Bytes) → Bool
is_one ((cell ∷ cells) ∷ rows) = bytes_eq cell (codes "1")
is_one _ = false

unfoldable pub record_sql : (version : ℕ) (name : Bytes) → Bytes
unfolding format
record_sql version name = format (
    codes "INSERT OR IGNORE INTO schema_migration(version, name) VALUES ("
    ∷ decimal version
    ∷ codes ", '"
    ∷ name
    ∷ codes "')"
    ∷ [])

module _ (client : DbClient) where
  open client use {World, Db, open_db, exec, query, close}

  -- A step whose error ends the function that holds the connection: it is dropped on the way.
  abbrev pub dropping_in {ℓ} :
      {A : Type ℓ} → Db → Option (Result Bytes A × World) → Option (Result Bytes A × World)
  dropping_in db none = none
  dropping_in db (some (ok a, w)) = some (ok a, w)
  dropping_in db (some (err e, w)) = some (err e, close db w)

  abbrev pub dropping {ℓ} : {A : Type ℓ} → Db → Action World A → Action World A
  dropping db m w = dropping_in db (m w)

  unfoldable pub open_ready : Bytes → Action World Db
  open_ready path = do
    db ← open_db path
    dropping db (exec db (codes "PRAGMA foreign_keys = ON"))
    return db

  abbrev pub rolled_back_with {ℓ} :
      {A : Type ℓ}
      → Bytes
      → Option (Result Bytes (Unit {0}) × World)
      → Option (Result Bytes A × World)
  rolled_back_with e none = none
  rolled_back_with e (some (r, w)) = some (err e, w)

  -- `let _ = db.exec("ROLLBACK"); return Err(err)`
  unfoldable pub rolled_back {ℓ} : {A : Type ℓ} → Db → Bytes → Action World A
  rolled_back db e w = rolled_back_with e (exec db (codes "ROLLBACK") w)

  -- The statement of the migration, unless its error says that it was made before.
  unfoldable pub apply_migration : Db → Bytes → Action World (Unit {0})
  unfolding rolled_back benign_migration
  apply_migration db sql =
      or_else (exec db sql) λ e. if benign_migration e then return tt else rolled_back db e

  unfoldable pub migrate : Db → (version : ℕ) (name sql : Bytes) → Action World ℕ
  unfolding apply_migration rolled_back record_sql is_one
  migrate db version name sql = do
    exec db (codes "BEGIN IMMEDIATE")
    rows ←
        or_else
          (query db
            (codes "SELECT count(*) FROM schema_migration WHERE version = " ++ decimal version))
          (rolled_back db)
    if is_one rows then exec db (codes "COMMIT") >> return 0 else do
      apply_migration db sql
      or_else (exec db (record_sql version name)) (rolled_back db)
      exec db (codes "COMMIT")
      return 1

-- The texts of `boot`, with the line breaks and blanks of the source.
abbrev pub schema_migration_sql : Bytes
schema_migration_sql =
    codes
      "CREATE TABLE IF NOT EXISTS schema_migration (\n            version INTEGER PRIMARY KEY,\n            name TEXT NOT NULL\n        )"

abbrev pub base_tables_sql : Bytes
base_tables_sql = format (
    codes "CREATE TABLE IF NOT EXISTS item (\n            id INTEGER PRIMARY KEY,\n"
    ∷ codes "            worker INTEGER NOT NULL,\n            n INTEGER NOT NULL,\n"
    ∷ codes
        "            name TEXT NOT NULL UNIQUE,\n            note TEXT,\n            price REAL,\n"
    ∷ codes "            flag INTEGER NOT NULL DEFAULT 0\n        );\n"
    ∷ codes "        CREATE TABLE IF NOT EXISTS event (\n            worker INTEGER NOT NULL,\n"
    ∷ codes "            seq INTEGER NOT NULL,\n            kind TEXT NOT NULL,\n"
    ∷ codes "            token TEXT NOT NULL,\n            PRIMARY KEY (worker, seq)\n        );\n"
    ∷ codes "        CREATE INDEX IF NOT EXISTS item_worker ON item(worker, name);\n"
    ∷ codes "        CREATE VIEW IF NOT EXISTS item_count AS\n"
    ∷ codes "            SELECT worker, count(*) AS c FROM item GROUP BY worker"
    ∷ [])

abbrev pub seen_column_sql : Bytes
seen_column_sql = codes "ALTER TABLE item ADD COLUMN seen INTEGER NOT NULL DEFAULT 0"

abbrev pub seen_index_sql : Bytes
seen_index_sql = codes "CREATE INDEX IF NOT EXISTS item_seen ON item(seen)"

module _ (client : DbClient) where
  open client use {World, Db, exec}

  -- How many migrations were applied, and one for the table of migrations.
  unfoldable pub boot : Db → Action World ℕ
  unfolding migrate format
  boot db = do
    exec db schema_migration_sql
    first ← migrate client db 1 (codes "base tables") base_tables_sql
    second ← migrate client db 2 (codes "add item.seen") seen_column_sql
    third ← migrate client db 3 (codes "index item.seen") seen_index_sql
    return (1 + first + second + third)
