-- ===== src/Broker/Prepare.antt =====
-- `prepare_meta` of server/src/broker.rs: the statement is compiled, described and finalized.
use sqlite_broker.Prelude.{
  ℕ, zero, suc, ◌+◌, pos, int_eq, List, [], ◌∷◌, Bool, true, false, if◌then◌else◌, Option, none,
  some, length,
}
use sqlite_broker.Prelude.Result.{ok, err}
use sqlite_broker.Text.{Bytes}
use sqlite_broker.Protocol.Message.{Response}
use sqlite_broker.Broker.Replies.{error_response}
use sqlite_broker.Broker.Sqlite.{Sqlite, Prepared}
use sqlite_broker.Broker.Statement.{sqlite_ok, c_string, cstr_at, sqlite_error}

module _ (db : Sqlite) where
  -- `for i in from..from + left`
  unfoldable pub describe : (ℕ → Option Bytes) → ℕ → ℕ → List Bytes
  describe name zero from = []
  describe name (suc left) from = cstr_at (name from) ∷ describe name left (from + 1)

  unfoldable pub empty_response : db.Conn → Bool → ℕ → db.World → Response
  empty_response conn autocommit tail w = record {
    ok = true;
    message = [];
    code = pos 0;
    columns = [];
    rows = [];
    changes = db.changes conn w;
    last_insert_rowid = db.last_insert_rowid conn w;
    autocommit = autocommit;
    tail = tail;
    param_count = pos 0;
    param_names = [];
    decltypes = [];
    total_changes = db.total_changes conn w;
    empty = true;
  }

  -- Read before the statement is finalized, but for the counters of the connection.
  unfoldable pub meta_response : db.Conn → db.Stmt → Bool → ℕ → db.World → db.World → Response
  unfolding describe
  meta_response conn stmt autocommit tail w after = record {
    ok = true;
    message = [];
    code = pos 0;
    columns = describe (λ i. db.column_name stmt i w) (db.column_count stmt w) 0;
    rows = [];
    changes = db.changes conn after;
    last_insert_rowid = db.last_insert_rowid conn after;
    autocommit = autocommit;
    tail = tail;
    param_count = pos (db.bind_parameter_count stmt w);
    param_names =
        describe (λ i. db.bind_parameter_name stmt i w) (db.bind_parameter_count stmt w) 1;
    decltypes = describe (λ i. db.column_decltype stmt i w) (db.column_count stmt w) 0;
    total_changes = db.total_changes conn after;
    empty = false;
  }

  abbrev pub tail_offset : Bytes → Option ℕ → ℕ
  tail_offset c none = length c
  tail_offset c (some t) = t

  unfoldable pub prepared_meta :
      db.Conn → Bool → Bytes → Prepared db.Stmt → db.World → Response × db.World
  unfolding meta_response empty_response error_response
  prepared_meta conn autocommit c p w =
      if int_eq p.rc sqlite_ok
      then (elim p.stmt [
        | none ↦ (empty_response conn autocommit (tail_offset c p.tail) w, w)
        | some stmt ↦
            let after = db.finalize stmt w in
            (meta_response conn stmt autocommit (tail_offset c p.tail) w after, after)
      ])
      else let (code, message) = sqlite_error db conn w in
        (error_response autocommit code message, w)

  unfoldable pub prepare_meta : db.Conn → Bytes → db.World → Response × db.World
  unfolding prepared_meta error_response
  prepare_meta conn sql w =
      let autocommit = db.is_autocommit conn w in
      elim (c_string sql) [
        | err e ↦ (error_response autocommit (pos 1) e, w)
        | ok c ↦ let (p, w') = db.prepare_v2 conn c w in prepared_meta conn autocommit c p w'
      ]
