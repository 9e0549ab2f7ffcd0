-- ===== src/Broker/Clients.antt =====
-- `accept_loop`, `client_loop` and `drop_remote` of server/src/broker.rs: the threads that serve the
-- clients, with the channel to the worker. A thread is where it stands in `client_loop`; what its next
-- call of the socket or of a channel gives is an `Outcome`.
pub mod Numbers
pub mod Unique
use sqlite_broker.Prelude.{
  ℕ, zero, suc, ◌+◌, ◌%◌, ◌^◌, ◌≡◌, Bool, true, false, if◌then◌else◌, List, [], ◌∷◌, ◌++◌, Option,
  none, some,
}
use sqlite_broker.Prelude.Result.{Result, ok, err}
use sqlite_broker.Text.{Bytes}
use sqlite_broker.Protocol.Message.{Request, exec, prepare, close}
use sqlite_broker.Broker.Engine.{Engine}
use sqlite_broker.Broker.Worker.{Job, open_job, req_job, drop_job, Worker, handle, new_worker}

pub data Phase : Type 0 where
  -- The number of the session is taken, the `Open` is not yet sent.
  taken : Phase
  opening : Phase
  -- The `Hello` is to be written.
  refusing : (message : Bytes) → Phase
  greeting : Phase
  -- The next request is to be read, or is to be sent to the worker.
  idle : Phase
  asking : (req : Request) → Phase
  -- The worker's answer is waited for, or is to be written.
  waiting : (is_close : Bool) → Phase
  answering : (is_close : Bool) → Phase
  -- `drop_remote`
  leaving : Phase
  left : Phase
  finished : Phase

pub record Client : Type 0 where
  pub id : ℕ
  pub phase : Phase

pub data Outcome : Type 0 where
  sent : (good : Bool) → Outcome
  opened_as : (result : Option (Result Bytes (Unit {0}))) → Outcome
  written : (good : Bool) → Outcome
  received : (req : Option Request) → Outcome
  answered : (good : Bool) → Outcome

-- `matches!(req, Request::Close)`
abbrev pub is_close : Request → Bool
is_close close = true
is_close (exec sql params) = false
is_close (prepare sql) = false

-- Where the thread goes, and what it sends; `none` where the outcome is not one of its next call.
unfoldable pub client_loop : ℕ → ℕ → Outcome → Phase → Option (Phase × List Job)
client_loop id reply (sent true) taken = some (opening, open_job id reply ∷ [])
client_loop id reply (sent false) taken = some (finished, [])
client_loop id reply (opened_as none) opening = some (finished, [])
client_loop id reply (opened_as (some (err message))) opening = some (refusing message, [])
client_loop id reply (opened_as (some (ok u))) opening = some (greeting, [])
client_loop id reply (written good) (refusing message) = some (finished, [])
client_loop id reply (written true) greeting = some (idle, [])
client_loop id reply (written false) greeting = some (leaving, [])
client_loop id reply (received none) idle = some (leaving, [])
client_loop id reply (received (some req)) idle = some (asking req, [])
client_loop id reply (sent true) (asking req) =
    some (waiting (is_close req), req_job id req reply ∷ [])
client_loop id reply (sent false) (asking req) = some (finished, [])
client_loop id reply (answered true) (waiting closing) = some (answering closing, [])
client_loop id reply (answered false) (waiting closing) = some (finished, [])
client_loop id reply (written true) (answering closing) =
    some ((if closing then finished else idle), [])
client_loop id reply (written false) (answering closing) =
    some ((if closing then finished else leaving), [])
client_loop id reply (sent true) leaving = some (left, drop_job id reply ∷ [])
client_loop id reply (sent false) leaving = some (finished, [])
client_loop id reply (answered good) left = some (finished, [])
client_loop id reply outcome phase = none

-- The server: `NEXT_SESSION`, the threads, what is in the channel, the worker.
pub record Server (db : Engine) : Type 0 where
  pub next_session : ℕ
  pub clients : List Client
  pub channel : List Job
  pub worker : Worker db

unfoldable pub new_server : {db : Engine} → Bytes → db.World → Server db
new_server storage world = record {
  next_session = 1;
  clients = [];
  channel = [];
  worker = new_worker storage world;
}

-- A connection is accepted, and its thread takes a number. `fetch_add` of an `AtomicU64` wraps.
unfoldable pub accept : {db : Engine} → Server db → Server db
accept s = record s {
  next_session = suc s.next_session % 2 ^ 64;
  clients = record { id = s.next_session; phase = taken } ∷ s.clients;
}

-- The steps of the server, in any order: the threads run beside each other and the worker.
pub data Step {db : Engine} (s : Server db) : Server db → Type 0 where
  accepts : Step s (accept s)
  acts :
      (before after : List Client) (c : Client) (outcome : Outcome) (reply : ℕ) (phase : Phase)
      (jobs : List Job)
      → s.clients ≡ before ++ (c ∷ after)
      → client_loop c.id reply outcome c.phase ≡ some (phase, jobs)
      → Step s (record s {
        clients = before ++ (record { id = c.id; phase = phase } ∷ after);
        channel = s.channel ++ jobs;
      })
  works :
      (j : Job) (rest : List Job) (w : Worker db)
      → s.channel ≡ j ∷ rest
      → handle j s.worker ≡ some w
      → Step s (record s { channel = rest; worker = w })

pub data Serves {db : Engine} (start : Server db) : Server db → Type 0 where
  begun : Serves start start
  on : {s u : Server db} → Serves start s → Step s u → Serves start u
