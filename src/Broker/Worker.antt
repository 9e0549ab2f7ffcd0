-- ===== src/Broker/Worker.antt =====
-- The `Worker` of server/src/broker.rs and its jobs. The state carries what SQLite keeps (`world`)
-- and, newest first, what the worker has done so far (`trace`): its calls of SQLite, its log lines
-- and its replies. A reply channel is a number. `none` is a worker that does not go on: a panic, or
-- a call of SQLite that does not return.
pub mod Pump
pub mod Lock
pub mod Guard
pub mod History
pub mod Answers
pub mod Queue
pub mod Total
pub mod Idle
pub mod Progress
mod Tests
use sqlite_broker.Prelude.{
  ℕ, zero, suc, ◌==◌, Bool, true, false, not, if◌then◌else◌, List, [], ◌∷◌, ◌++◌, Option, none,
  some, length, pos, ◌>>=◌,
}
use sqlite_broker.Prelude.Result.{Result, ok, err}
use sqlite_broker.Text.{Bytes, codes}
use sqlite_broker.Protocol.Message.{Request, exec, prepare, close, Param, Response}
use sqlite_broker.Broker.Brief.{sql_brief}
use sqlite_broker.Broker.Replies.{ok_closed, error_response}
use sqlite_broker.Broker.Engine.{Engine}
use sqlite_broker.Prelude.Assoc
use sqlite_broker.Prelude.Assoc.{Assoc}

pub record Pending : Type 0 where
  pub id : ℕ
  pub req : Request
  pub reply : ℕ

pub data Job : Type 0 where
  open_job : (id reply : ℕ) → Job
  req_job : (id : ℕ) (req : Request) (reply : ℕ) → Job
  drop_job : (id reply : ℕ) → Job

-- The lines that `event` writes.
pub data Event : Type 0 where
  queued : (id : ℕ) → Event
  prepared : (id : ℕ) (empty : Bool) (brief : Bytes) → Event
  executed : (id : ℕ) (autocommit : Bool) (brief : Bytes) → Event
  released : (id : ℕ) → Event

pub data Output : Type 0 where
  -- SQLite ran the statement on the session's connection, which was then in autocommit or not.
  ran : (id : ℕ) (sql : Bytes) (params : List Param) (autocommit : Bool) → Output
  -- SQLite compiled the statement on the session's connection.
  compiled : (id : ℕ) (sql : Bytes) → Output
  -- The session's connection was closed.
  closed : (id : ℕ) → Output
  logged : Event → Output
  opened : (reply : ℕ) (result : Result Bytes (Unit {0})) → Output
  dropped : (reply : ℕ) → Output
  replied : (reply : ℕ) (response : Response) → Output

-- `self.holder == Some(id)`
abbrev pub is_holder : Option ℕ → ℕ → Bool
is_holder none id = false
is_holder (some h) id = h == id

-- `matches!(self.holder, Some(holder) if holder != id)`
abbrev pub is_blocked : Option ℕ → ℕ → Bool
is_blocked none id = false
is_blocked (some h) id = not (h == id)

pub record Worker (db : Engine) : Type 0 where
  pub storage : Bytes
  pub sessions : Assoc db.Conn
  pub holder : Option ℕ
  pub pending : List Pending
  pub world : db.World
  pub trace : List Output

-- The waiting requests of a closed session are answered.
unfoldable pub kept : ℕ → List Pending → List Pending
kept id [] = []
kept id (p ∷ ps) = let rest = kept id ps in if p.id == id then rest else p ∷ rest

unfoldable pub refused : ℕ → List Pending → List Output → List Output
refused id [] trace = trace
refused id (p ∷ ps) trace = refused id ps (
    if p.id == id
    then replied p.reply (error_response true (pos 1) (codes "session closed")) ∷ trace
    else trace)

-- What `opened` tells the client.
abbrev pub opening {ℓ} : {C : Type ℓ} → Result Bytes C → Result Bytes (Unit {0})
opening (ok conn) = ok tt
opening (err message) = err message

module _ {db : Engine} where
  unfoldable pub output : Output → Worker db → Worker db
  output o w = record w { trace = o ∷ w.trace }

  -- The connection of a session leaves the map, and is closed if there was one.
  unfoldable pub take_session : ℕ → Option db.Conn → Worker db → Worker db
  take_session id none w = w
  take_session id (some conn) w = record w {
    sessions = Assoc.remove id w.sessions;
    world = db.disconnect conn w.world;
    trace = closed id ∷ w.trace;
  }

  unfoldable pub release : ℕ → Worker db → Worker db
  release id w =
      if is_holder w.holder id
      then record w { holder = none; trace = logged (released id) ∷ w.trace }
      else w

  unfoldable pub refuse : ℕ → Worker db → Worker db
  unfolding kept refused
  refuse id w = record w { pending = kept id w.pending; trace = refused id w.pending w.trace }

  unfoldable pub drop_session : ℕ → Worker db → Worker db
  drop_session id w = release id (refuse id (take_session id (Assoc.get id w.sessions) w))

  -- What `execute` answers, or the refusal where the session has no connection.
  unfoldable pub execute_for :
      ℕ → Bytes → List Param → Option db.Conn → Worker db → Option (Response × Worker db)
  execute_for id sql params none w = some (error_response true (pos 1) (codes "no session"), w)
  execute_for id sql params (some conn) w = do
    (response, world) ← db.execute conn sql params w.world
    some (
      response,
      record w { world = world; trace = ran id sql params response.autocommit ∷ w.trace },
    )

  unfoldable pub settle : ℕ → Bool → Worker db → Worker db
  unfolding release
  settle id false w = record w { holder = some id }
  settle id true w = release id w

  unfoldable pub run_exec : ℕ → Bytes → List Param → ℕ → Worker db → Option (Worker db)
  run_exec id sql params reply w = do
    (response, w') ← execute_for id sql params (Assoc.get id w.sessions) w
    brief ← sql_brief sql
    some (
        output (replied reply response) (
          settle id response.autocommit
            (output (logged (executed id response.autocommit brief)) w')))

  unfoldable pub prepare_for :
      ℕ → Bytes → Option db.Conn → Worker db → Option (Response × Worker db)
  prepare_for id sql none w = some (error_response true (pos 1) (codes "no session"), w)
  prepare_for id sql (some conn) w = do
    (response, world) ← db.prepare_meta conn sql w.world
    some (response, record w { world = world; trace = compiled id sql ∷ w.trace })

  unfoldable pub run_prepare : ℕ → Bytes → ℕ → Worker db → Option (Worker db)
  run_prepare id sql reply w = do
    (response, w') ← prepare_for id sql (Assoc.get id w.sessions) w
    brief ← sql_brief sql
    some (output (replied reply response) (output (logged (prepared id response.empty brief)) w'))

  unfoldable pub dispatch : ℕ → Request → ℕ → Worker db → Option (Worker db)
  dispatch id (exec sql params) reply w = run_exec id sql params reply w
  dispatch id (prepare sql) reply w = run_prepare id sql reply w
  dispatch id close reply w = some (output (replied reply ok_closed) (drop_session id w))

  -- One round of the loop in `pump`, with what comes after it.
  unfoldable pub pump_round :
      (Worker db → Option (Worker db)) → Option ℕ → List Pending → Worker db → Option (Worker db)
  pump_round loop (some h) ps w = some w
  pump_round loop none [] w = some w
  pump_round loop none (p ∷ rest) w = do
    w' ← dispatch p.id p.req p.reply (record w { pending = rest })
    loop w'

  unfoldable pub pump_loop : ℕ → Worker db → Option (Worker db)
  unfolding pump_round
  pump_loop zero w = some w
  pump_loop (suc rounds) w = pump_round (pump_loop rounds) w.holder w.pending w

  -- `while self.holder.is_none()`. A round takes one entry at least from the queue, so as many
  -- rounds as the queue is long are enough.
  unfoldable pub pump : Worker db → Option (Worker db)
  pump w = pump_loop (length w.pending) w

  -- `insert` closes the connection that the key had, if it had one.
  unfoldable pub displace : ℕ → db.Conn → Option db.Conn → Worker db → Worker db
  displace id conn none w = record w { sessions = Assoc.insert id conn w.sessions }
  displace id conn (some old) w = record w {
    sessions = Assoc.insert id conn w.sessions;
    world = db.disconnect old w.world;
    trace = closed id ∷ w.trace;
  }

  unfoldable pub add_session : ℕ → Result Bytes db.Conn → Worker db → Worker db
  unfolding displace
  add_session id (ok conn) w = displace id conn (Assoc.get id w.sessions) w
  add_session id (err message) w = w

  unfoldable pub handle_open : ℕ → ℕ → Worker db → Option (Worker db)
  handle_open id reply w =
      let (result, world) = db.open_storage w.storage w.world in
      pump (
        output (opened reply (opening result)) (add_session id result (record w { world = world })))

  unfoldable pub handle_run : ℕ → Request → ℕ → Worker db → Option (Worker db)
  handle_run id req reply w =
      if is_blocked w.holder id
      then some (record w {
        pending = w.pending ++ (record { id = id; req = req; reply = reply } ∷ []);
        trace = logged (queued id) ∷ w.trace;
      })
      else do w' ← dispatch id req reply w; pump w'

  -- `Worker::handle`
  unfoldable pub handle : Job → Worker db → Option (Worker db)
  unfolding handle_open handle_run
  handle (open_job id reply) w = handle_open id reply w
  handle (drop_job id reply) w = pump (output (dropped reply) (drop_session id w))
  handle (req_job id close reply) w = pump (output (replied reply ok_closed) (drop_session id w))
  handle (req_job id (exec sql params) reply) w = handle_run id (exec sql params) reply w
  handle (req_job id (prepare sql) reply) w = handle_run id (prepare sql) reply w

  -- `worker_loop`, over the jobs that come before the channel is closed.
  unfoldable pub worker_loop : List Job → Worker db → Option (Worker db)
  worker_loop [] w = some w
  worker_loop (j ∷ js) w = do w' ← handle j w; worker_loop js w'

  unfoldable pub new_worker : Bytes → db.World → Worker db
  new_worker storage world = record {
    storage = storage;
    sessions = [];
    holder = none;
    pending = [];
    world = world;
    trace = [];
  }
