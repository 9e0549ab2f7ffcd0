-- ===== src/Broker/Storage/Responds.antt =====
-- The worker over the code that runs SQLite.
use sqlite_broker.Prelude.{ℕ, refl}
use sqlite_broker.Broker.Sqlite.{Sqlite}
use sqlite_broker.Broker.Storage.{sqlite_engine}
use sqlite_broker.Broker.Execute.Returns.{Ends, execute-Returns}
use sqlite_broker.Broker.Worker.{Job, Worker, handle}
use sqlite_broker.Broker.Worker.Total.{IsResponsive, JobHasBrief, Briefs, Goes, handle-Goes}

module _ (db : Sqlite) (patience : ℕ)
    (ends : (stmt : db.Stmt) (w : db.World) → Ends db patience stmt w) where
  sqlite_engine-IsResponsive : IsResponsive (sqlite_engine db patience)
  sqlite_engine-IsResponsive = record {
    executes = λ conn sql params w.
        let (r, w', e, auto) = execute-Returns db patience ends conn sql params w in ((r, w'), e);
    prepares = λ conn sql w. (_, refl);
  }

  -- Where every statement of SQLite ends and no log line cuts a character, the broker's worker handles
  -- the job, whatever it is, and goes on.
  pub handle-Goes_sqlite :
      (j : Job) (w : Worker (sqlite_engine db patience))
      → JobHasBrief j
      → Briefs w.pending
      → Goes (handle j w)
  handle-Goes_sqlite = handle-Goes sqlite_engine-IsResponsive
