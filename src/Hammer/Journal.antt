-- ===== src/Hammer/Journal.antt =====
-- What `run_worker` relies on of the database, and that `open_ready` and `boot` write no rows of the load.
use sqlite_broker.Prelude.{ℕ, ◌≡◌, refl, ◌∙◌, true, false, if-both, List, ◌∷◌, Option, none, some}
use sqlite_broker.Prelude.Result.{Result, ok, err}
use sqlite_broker.Text.{Bytes, codes}
use sqlite_broker.Text.Search.{starts_with}
use sqlite_broker.Client.Program.{Action, DbClient}
use sqlite_broker.Client.Program.Post.{Post, Keeps, Keeps-after, Keeps-or_else}
use sqlite_broker.Hammer.Statements.{format, begin_immediate}
use sqlite_broker.Hammer.Boot.{
  benign_migration, is_one, dropping, dropping_in, open_ready, rolled_back, rolled_back_with,
  apply_migration, record_sql, migrate, schema_migration_sql, base_tables_sql, seen_column_sql,
  seen_index_sql, boot,
}

-- The transactions that the database has made, the last one first: a text that begins and commits one
-- adds it, unless it fails. Every call comes back.
pub record Journals (client : DbClient) : Type 0 where
  pub journal : client.World → List Bytes
  pub opens :
      (path : Bytes) (w : client.World)
      → Post (λ r w'. journal w' ≡ journal w) (client.open_db path w)
  pub makes :
      (db : client.Db) (sql : Bytes) (w : client.World)
      → starts_with begin_immediate sql ≡ true
      → Post
          (λ r w'. journal w' ≡ elim r [ ok x ↦ sql ∷ journal w | err e ↦ journal w ])
          (client.exec db sql w)
  pub others :
      (db : client.Db) (sql : Bytes) (w : client.World)
      → starts_with begin_immediate sql ≡ false
      → Post (λ r w'. journal w' ≡ journal w) (client.exec db sql w)
  pub queries :
      (db : client.Db) (sql : Bytes) (w : client.World)
      → Post (λ r w'. journal w' ≡ journal w) (client.query db sql w)
  pub closes : (db : client.Db) (w : client.World) → journal (client.close db w) ≡ journal w

module _ (client : DbClient) (laws : Journals client) where
  open client use {World, Db}
  open laws use {journal, opens, others, queries, closes}

  Keeps-exec :
      (db : Db) (sql : Bytes)
      → starts_with begin_immediate sql ≡ false
      → Keeps journal (client.exec db sql)
  Keeps-exec db sql h w = others db sql w h

  pub Keeps-dropping :
      {A : Type 0} (db : Db) (m : Action World A)
      → Keeps journal m
      → Keeps journal (dropping client db m)
  Keeps-dropping {A = A} db m hm w = dropped (m w) (hm w)
    where
      dropped :
          (o : Option (Result Bytes A × World))
          → Post (λ r u. journal u ≡ journal w) o
          → Post (λ r u. journal u ≡ journal w) (dropping_in client db o)
      dropped none h = h
      dropped (some (ok a, u)) h = h
      dropped (some (err e, u)) h = closes db u ∙ h

  Keeps-rolled_back :
      (A : Type 0) (db : Db) (e : Bytes) → Keeps journal (rolled_back client {A = A} db e)
  unfolding rolled_back starts_with
  Keeps-rolled_back A db e w = rolled _ (others db (codes "ROLLBACK") w refl)
    where
      rolled :
          (o : Option (Result Bytes (Unit {0}) × World))
          → Post (λ r u. journal u ≡ journal w) o
          → Post (λ r u. journal u ≡ journal w) (rolled_back_with client {A = A} e o)
      rolled none h = h
      rolled (some (r, u)) h = h

  pub Keeps-open_ready : (path : Bytes) → Keeps journal (open_ready client path)
  unfolding open_ready starts_with
  Keeps-open_ready path = Keeps-after journal _ (client.open_db path) (opens path) (λ db.
      Keeps-after journal _ _
        (Keeps-dropping db _ (Keeps-exec db (codes "PRAGMA foreign_keys = ON") refl)) (λ x w. refl))

  Keeps-apply_migration :
      (db : Db) (sql : Bytes)
      → starts_with begin_immediate sql ≡ false
      → Keeps journal (apply_migration client db sql)
  unfolding apply_migration
  Keeps-apply_migration db sql h =
      Keeps-or_else journal (client.exec db sql) _ (Keeps-exec db sql h) (λ e.
        if-both (Keeps journal) (benign_migration e) (λ t w. refl) (λ f. Keeps-rolled_back _ db e))

  Keeps-migrate :
      (db : Db) (version : ℕ) (name sql : Bytes)
      → starts_with begin_immediate sql ≡ false
      → Keeps journal (migrate client db version name sql)
  unfolding migrate record_sql format starts_with
  Keeps-migrate db version name sql h =
      Keeps-after journal _ _ (Keeps-exec db (codes "BEGIN IMMEDIATE") refl) (λ x.
        Keeps-after journal _ _ (Keeps-or_else journal _ _ (queries db _) (Keeps-rolled_back _ db))
          (λ rows.
            if-both (Keeps journal) (is_one rows)
              (λ t. Keeps-after journal _ _ (Keeps-exec db (codes "COMMIT") refl) (λ y w. refl))
              (λ f. Keeps-after journal _ _ (Keeps-apply_migration db sql h) (λ y.
                Keeps-after journal _ _
                  (Keeps-or_else journal _ _ (Keeps-exec db (record_sql version name) refl)
                    (Keeps-rolled_back _ db))
                  (λ z.
                    Keeps-after journal _ _ (Keeps-exec db (codes "COMMIT") refl) (λ v w. refl))))))

  pub Keeps-boot : (db : Db) → Keeps journal (boot client db)
  unfolding boot starts_with format
  Keeps-boot db = Keeps-after journal _ _ (Keeps-exec db schema_migration_sql refl) (λ x.
      Keeps-after journal _ _ (Keeps-migrate db 1 (codes "base tables") base_tables_sql refl) (λ a.
        Keeps-after journal _ _ (Keeps-migrate db 2 (codes "add item.seen") seen_column_sql refl)
          (λ b.
            Keeps-after journal _ _
              (Keeps-migrate db 3 (codes "index item.seen") seen_index_sql refl) (λ c w. refl))))
