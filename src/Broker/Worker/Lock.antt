-- ===== src/Broker/Worker/Lock.antt =====
-- The lock that the worker implements, read off its trace: one session at a time is in a
-- transaction, and nothing of another session runs on SQLite until that transaction is over.
use sqlite_broker.Prelude.{
  ℕ, ◌==◌, ◌≡◌, refl, arith, Bool, true, false, if◌then◌else◌, List, [], ◌∷◌, Option, none, some,
  ◌>>=◌, >>=-eq-some, Bool-cases, inl, inr,
}
use sqlite_broker.Prelude.Result.{Result, ok, err}
use sqlite_broker.Text.{Bytes}
use sqlite_broker.Protocol.Message.{Request, exec, prepare, close, Param}
use sqlite_broker.Broker.Replies.{error_response}
use sqlite_broker.Broker.Engine.{Engine}
use sqlite_broker.Prelude.Assoc
use sqlite_broker.Prelude.Assoc.{Assoc, get-remove, get-insert}
use sqlite_broker.Broker.Worker.{
  Pending, Job, open_job, req_job, drop_job, Output, ran, compiled, closed, logged, opened, dropped,
  replied, is_blocked, Worker, output, take_session, refused, release, refuse, drop_session,
  execute_for, settle, run_exec, prepare_for, run_prepare, dispatch, pump, displace, add_session,
  opening, handle_run, handle,
}
use sqlite_broker.Broker.Worker.Pump.{pump_inv}

abbrev pub Lock : Type 0
Lock = Option ℕ

-- A statement of session `id` may run where the lock is free or its own, and leaves it free or its
-- own as SQLite is in autocommit after it or not.
abbrev pub after_run : ℕ → Bool → Lock → Option Lock
after_run id true none = some none
after_run id false none = some (some id)
after_run id true (some h) = if h == id then some none else none
after_run id false (some h) = if h == id then some (some h) else none

abbrev pub after_compile : ℕ → Lock → Option Lock
after_compile id none = some none
after_compile id (some h) = if h == id then some (some h) else none

abbrev pub after_close : ℕ → Lock → Lock
after_close id none = none
after_close id (some h) = if h == id then none else some h

abbrev pub grant : Output → Lock → Option Lock
grant (ran id sql params autocommit) l = after_run id autocommit l
grant (compiled id sql) l = after_compile id l
grant (closed id) l = some (after_close id l)
grant (logged e) l = some l
grant (opened reply r) l = some l
grant (dropped reply) l = some l
grant (replied reply r) l = some l

-- Who has the lock after the trace; `none` if some statement of it ran against the lock.
unfoldable pub owner : List Output → Option Lock
owner [] = some none
owner (o ∷ trace) = owner trace >>= grant o

abbrev pub is_live {ℓ} : {C : Type ℓ} → Option ℕ → Assoc C → Bool
is_live none m = true
is_live (some h) m = elim (Assoc.get h m) [ none ↦ false | some c ↦ true ]

-- The worker's `holder` is the owner of the lock, and has a connection.
pub record IsLocked {db : Engine} (w : Worker db) : Type 0 where
  pub lock : owner w.trace ≡ some w.holder
  pub live : is_live w.holder w.sessions ≡ true

pub owner-refused :
    (id : ℕ) (ps : List Pending) (trace : List Output) (l : Lock)
    → owner trace ≡ some l
    → owner (refused id ps trace) ≡ some l
unfolding owner refused
owner-refused id [] trace l h = h
owner-refused id (p ∷ ps) trace l h = elim (Bool-cases (p.id == id)) [
  | inl mine ↦ rw mine (owner-refused id ps (replied p.reply _ ∷ trace) l (rw h))
  | inr other ↦ rw other (owner-refused id ps trace l h)
]

pub is_live-remove {ℓ} :
    {C : Type ℓ} (id : ℕ) (l : Lock) (m : Assoc C)
    → is_live l m ≡ true
    → is_live (after_close id l) (Assoc.remove id m) ≡ true
is_live-remove id none m h = refl
is_live-remove id (some x) m h = ground (arith, get-remove id x m)

pub is_live-insert {ℓ} :
    {C : Type ℓ} (id : ℕ) (conn : C) (l : Lock) (m : Assoc C)
    → is_live l m ≡ true
    → is_live l (Assoc.insert id conn m) ≡ true
is_live-insert id conn none m h = refl
is_live-insert id conn (some x) m h = ground (arith, get-insert id x conn m)

module _ {db : Engine} where
  drop_from :
      (id : ℕ) (w : Worker db) (found : Option db.Conn)
      → Assoc.get id w.sessions ≡ found
      → IsLocked w
      → IsLocked (release id (refuse id (take_session id found w)))
  unfolding owner refuse release take_session
  drop_from id w none e v = record {
    lock = ground (arith, v.lock, v.live, owner-refused id w.pending w.trace w.holder);
    live = ground (arith, v.live);
  }
  drop_from id w (some conn) e v = record {
    lock =
        ground (
          arith,
          v.lock,
          owner-refused id w.pending (closed id ∷ w.trace) (after_close id w.holder),
        );
    live = ground (arith, is_live-remove id w.holder w.sessions v.live);
  }

  pub drop_session-IsLocked : (id : ℕ) (w : Worker db) → IsLocked w → IsLocked (drop_session id w)
  unfolding drop_session
  drop_session-IsLocked id w v = drop_from id w (Assoc.get id w.sessions) refl v

  -- The holder of the lock, or anyone while it is free.
  run_exec-IsLocked :
      (id : ℕ) (sql : Bytes) (params : List Param) (reply : ℕ) (w : Worker db) {w' : Worker db}
      → is_blocked w.holder id ≡ false
      → IsLocked w
      → run_exec id sql params reply w ≡ some w'
      → IsLocked w'
  unfolding run_exec execute_for settle output owner error_response
  run_exec-IsLocked id sql params reply w may v h = ground (arith, v.lock, v.live)

  run_prepare-IsLocked :
      (id : ℕ) (sql : Bytes) (reply : ℕ) (w : Worker db) {w' : Worker db}
      → is_blocked w.holder id ≡ false
      → IsLocked w
      → run_prepare id sql reply w ≡ some w'
      → IsLocked w'
  unfolding run_prepare prepare_for output owner
  run_prepare-IsLocked id sql reply w may v h = ground (arith, v.lock, v.live)

  dispatch-IsLocked :
      (id : ℕ) (req : Request) (reply : ℕ) (w : Worker db) {w' : Worker db}
      → is_blocked w.holder id ≡ false
      → IsLocked w
      → dispatch id req reply w ≡ some w'
      → IsLocked w'
  unfolding dispatch output owner
  dispatch-IsLocked id (exec sql params) reply w may v h =
      run_exec-IsLocked id sql params reply w may v h
  dispatch-IsLocked id (prepare sql) reply w may v h = run_prepare-IsLocked id sql reply w may v h
  dispatch-IsLocked id close reply w may v h =
      let d = drop_session-IsLocked id w v in ground (arith, d.lock, d.live)

  pump-IsLocked : (w w' : Worker db) → IsLocked w → pump w ≡ some w' → IsLocked w'
  pump-IsLocked = pump_inv IsLocked λ w p rest u v free queue.
      dispatch-IsLocked p.id p.req p.reply (record w { pending = rest }) (rw free)
        (record { lock = v.lock; live = v.live })

  add_session-IsLocked :
      (id reply : ℕ) (r : Result Bytes db.Conn) (w : Worker db)
      → Assoc.get id w.sessions ≡ none
      → IsLocked w
      → IsLocked (output (opened reply (opening r)) (add_session id r w))
  unfolding add_session output owner
  add_session-IsLocked id reply (ok conn) w fresh v =
      rw (fresh, displace)
        (record {
          lock = ground (arith, v.lock);
          live = is_live-insert id conn w.holder w.sessions v.live;
        })
  add_session-IsLocked id reply (err message) w fresh v = record {
    lock = ground (arith, v.lock);
    live = v.live;
  }

  handle_run-IsLocked :
      (id : ℕ) (req : Request) (reply : ℕ) (w w' : Worker db)
      → IsLocked w
      → handle_run id req reply w ≡ some w'
      → IsLocked w'
  unfolding handle_run owner
  handle_run-IsLocked id req reply w w' v h = elim (Bool-cases (is_blocked w.holder id)) [
    | inl waits ↦ ground (arith, v.lock, v.live)
    | inr may ↦
        let (u, one, left) =
          >>=-eq-some (dispatch id req reply w) pump (rw (may, handle_run) at h) in
        pump-IsLocked u w' (dispatch-IsLocked id req reply w may v one) left
  ]

-- A new session's number is not in use: `client_loop` takes it from a counter.
abbrev pub Opens : {db : Engine} → Job → Worker db → Type 0
Opens (open_job id reply) w = Assoc.get id w.sessions ≡ none
Opens (drop_job id reply) w = Unit
Opens (req_job id req reply) w = Unit

module _ {db : Engine} where
  -- Whatever the job, the worker's `holder` stays the owner of the lock that its trace shows.
  pub handle-IsLocked :
      (j : Job) (w w' : Worker db) → Opens j w → IsLocked w → handle j w ≡ some w' → IsLocked w'
  unfolding handle output owner
  handle-IsLocked (open_job id reply) w w' fresh v h =
      let (r, world) = db.open_storage w.storage w.world in
      pump-IsLocked _ w'
        (add_session-IsLocked id reply r (record w { world = world }) fresh
          (record { lock = v.lock; live = v.live }))
        h
  handle-IsLocked (drop_job id reply) w w' o v h =
      let d = drop_session-IsLocked id w v in
      pump-IsLocked _ w' (record { lock = ground (arith, d.lock); live = d.live }) h
  handle-IsLocked (req_job id close reply) w w' o v h =
      let d = drop_session-IsLocked id w v in
      pump-IsLocked _ w' (record { lock = ground (arith, d.lock); live = d.live }) h
  handle-IsLocked (req_job id (exec sql params) reply) w w' o v h =
      handle_run-IsLocked id (exec sql params) reply w w' v h
  handle-IsLocked (req_job id (prepare sql) reply) w w' o v h =
      handle_run-IsLocked id (prepare sql) reply w w' v h
