-- ===== src/Broker/Worker/Tests.antt =====
-- The worker run on small histories, over an engine with one transaction flag.
use sqlite_broker.Prelude.{
  ℕ, zero, suc, ◌+◌, ◌≡◌, ◌≢◌, ◌⊎◌, refl, arith, pos, Bool, true, false, if◌then◌else◌, List, [],
  ◌∷◌, ◌++◌, Option, none, some, All, bytes_eq, length, count, map,
}
use sqlite_broker.Prelude.Result.{ok}
use sqlite_broker.Text.{Bytes, codes, join}
use sqlite_broker.Text.Space.{split_whitespace, space_len, is_ascii_space, is_wide_space}
use sqlite_broker.Protocol.Message.{Request, exec, prepare}
use sqlite_broker.Broker.Brief.{sql_brief}
use sqlite_broker.Text.Search.{is_char_boundary}
use sqlite_broker.Broker.Replies.{ok_closed, error_response}
use sqlite_broker.Broker.Engine.{Engine}
use sqlite_broker.Prelude.Assoc
use sqlite_broker.Broker.Worker.{
  Pending, Job, open_job, req_job, queued, executed, Output, ran, logged, opened, replied, Worker,
  output, take_session, kept, refused, refuse, release, drop_session, execute_for, settle, run_exec,
  prepare_for, run_prepare, dispatch, pump_round, pump_loop, pump, displace, add_session,
  handle_open, handle_run, handle, worker_loop, new_worker,
}
use sqlite_broker.Broker.Clients.{
  Phase, taken, opening, greeting, idle, asking, waiting as waiting_for, sent, opened_as, written,
  received, client_loop, Server, new_server, accept, accepts, acts, works, Serves, begun, on,
}
use sqlite_broker.Broker.Clients.Unique.{Serves-Reach, server_isolation}
use sqlite_broker.Broker.Worker.Idle.{Reach-IsDrained}
use sqlite_broker.Broker.Worker.History.{Reach, here, next, OnlyBy}
use sqlite_broker.Broker.Worker.Answers.{answers, waiting, channel, IsHandled, worker_loop-answers}
use sqlite_broker.Broker.Worker.Queue.{IsServed, pump_fifo}
use sqlite_broker.Broker.Worker.Total.{IsResponsive, handle_split_brief}
use sqlite_broker.Broker.Worker.Progress.{close_holders, close_holders-drains}

-- `BEGIN` and `COMMIT` set the flag; any other statement leaves it.
abbrev after_sql : Bytes → Bool → Bool
after_sql sql auto =
    if bytes_eq sql (codes "BEGIN")
    then false
    else if bytes_eq sql (codes "COMMIT")
    then true
    else auto

abbrev toy : Engine
toy = record {
  Conn = ℕ;
  World = Bool;
  open_storage = λ path w. (ok 0, w);
  execute =
      λ conn sql params w. some (error_response (after_sql sql w) (pos 0) [], after_sql sql w);
  prepare_meta = λ conn sql w. some (error_response w (pos 0) [], w);
  disconnect = λ conn w. true;
}

abbrev start : Worker toy
start = new_worker {db = toy} [] true

abbrev statement : ℕ → Bytes → ℕ → Job
statement id sql reply = req_job id (exec sql []) reply

-- Session 1 begins; what session 2 asks for waits until session 1 commits.
abbrev history : List Job
history =
    open_job 1 10
    ∷ open_job 2 20
    ∷ statement 1 (codes "BEGIN") 11
    ∷ statement 2 (codes "SELECT") 21
    ∷ statement 1 (codes "INSERT") 12
    ∷ []

-- All that runs in a history of the worker.
code : Unit {0}
unfolding new_worker handle handle_open handle_run add_session displace pump pump_loop pump_round
    dispatch run_exec run_prepare execute_for prepare_for settle release refuse take_session
    drop_session output kept refused sql_brief is_char_boundary split_whitespace space_len
    is_ascii_space is_wide_space join error_response ok_closed worker_loop Assoc.get Assoc.insert
    Assoc.remove
code = tt

waits : Option (Worker toy)
waits = worker_loop history start

waits-answers : (elim waits [ none ↦ [] | some w ↦ answers w.trace ]) ≡ 12 ∷ 11 ∷ 20 ∷ 10 ∷ []
unfolding waits code
waits-answers = refl

-- The state after the history.
abbrev or_start : Option (Worker toy) → Worker toy
or_start none = start
or_start (some w) = w

busy : Worker toy
unfolding waits
busy = or_start waits

abbrev since_begin : List Output
since_begin =
    replied 12 (error_response false (pos 0) [])
    ∷ logged (executed 1 false (codes "INSERT"))
    ∷ ran 1 (codes "INSERT") [] false
    ∷ logged (queued 2)
    ∷ replied 11 (error_response false (pos 0) [])
    ∷ logged (executed 1 false (codes "BEGIN"))
    ∷ []

abbrev before_begin : List Output
before_begin = opened 20 (ok tt) ∷ opened 10 (ok tt) ∷ []

busy_trace : busy.trace ≡ since_begin ++ (ran 1 (codes "BEGIN") [] false ∷ before_begin)
unfolding busy code
busy_trace = refl

busy-Reach : Reach start busy
unfolding busy code
busy-Reach =
    next
      (next
        (next (next (next here (open_job 1 10) refl refl) (open_job 2 20) refl refl)
          (statement 1 (codes "BEGIN") 11) tt refl)
        (statement 2 (codes "SELECT") 21) tt refl)
      (statement 1 (codes "INSERT") 12) tt refl

worker_loop-answers_example :
    (handled : List Job) × (w : Worker toy) × IsHandled history start w handled
    × (count 12 (answers w.trace) + count 12 (waiting w.pending) ≡ count 12 (map channel handled))
worker_loop-answers_example = worker_loop-answers {db = toy} [] true history 12

-- Session 2's statement waits, and nobody is in a transaction.
queue : List Pending
queue = record { id = 2; req = exec (codes "SELECT") []; reply = 21 } ∷ []

freed : Worker toy
unfolding queue new_worker
freed = record start { pending = queue; sessions = (2, 0) ∷ [] }

pump_fifo_example :
    ((served : List Pending) × IsServed freed served (or_start (pump freed)))
    × (((or_start (pump freed)).holder ≢ none) ⊎ ((or_start (pump freed)).pending ≡ []))
unfolding freed code
pump_fifo_example = pump_fifo freed (or_start (pump freed)) (λ e. cc, tt) refl

-- 119 letters, then one character of two bytes.
abbrev letters : ℕ → Bytes
letters zero = []
letters (suc n) = b'a' ∷ letters n

abbrev split_text : Bytes
split_text = letters 119 ++ (0xc3 ∷ 0xa9 ∷ [])

handle_split_brief_example :
    (handle (req_job 1 (exec split_text []) 9) start ≡ none)
    × (handle (req_job 1 (prepare split_text) 9) start ≡ none)
unfolding code
handle_split_brief_example = handle_split_brief 1 split_text [] 9 start refl (omega arith) refl

Reach-IsDrained_example : (busy.holder ≢ none) ⊎ (busy.pending ≡ [])
Reach-IsDrained_example = Reach-IsDrained {db = toy} [] true busy-Reach

-- One client connects and begins a transaction.
abbrev begin_request : Request
begin_request = exec (codes "BEGIN") []

abbrev server_at : ℕ → Phase → List Job → Worker toy → Server toy
server_at n phase jobs w = record {
  next_session = n;
  clients = record { id = 1; phase = phase } ∷ [];
  channel = jobs;
  worker = w;
}

abbrev with_session : Worker toy
with_session = or_start (handle (open_job 1 10) start)

abbrev in_transaction : Worker toy
in_transaction = or_start (handle (statement 1 (codes "BEGIN") 11) with_session)

begin_trace : List Output
begin_trace =
    replied 11 (error_response false (pos 0) []) ∷ logged (executed 1 false (codes "BEGIN")) ∷ []

began : Serves (new_server [] true) (server_at 2 (waiting_for false) [] in_transaction)
unfolding code new_server accept client_loop
began =
    on
      (on
        (on
          (on
            (on
              (on
                (on (on begun accepts) (
                  acts [] [] (record { id = 1; phase = taken }) (sent true) 10 opening
                    (open_job 1 10 ∷ []) refl refl))
                (works (open_job 1 10) [] with_session refl refl))
              (acts [] [] (record { id = 1; phase = opening }) (opened_as (some (ok tt))) 0 greeting
                [] refl refl))
            (acts [] [] (record { id = 1; phase = greeting }) (written true) 0 idle [] refl refl))
          (acts [] [] (record { id = 1; phase = idle }) (received (some begin_request)) 0
            (asking begin_request) [] refl refl))
        (acts [] [] (record { id = 1; phase = asking begin_request }) (sent true) 11
          (waiting_for false) (statement 1 (codes "BEGIN") 11 ∷ []) refl refl))
      (works (statement 1 (codes "BEGIN") 11) [] in_transaction refl refl)

server_isolation_example : All (OnlyBy 1) begin_trace × (in_transaction.holder ≡ some 1)
unfolding code begin_trace
server_isolation_example =
    server_isolation {db = toy} [] true 1 (codes "BEGIN") [] (opened 10 (ok tt) ∷ []) begin_trace
      began refl (refl, (refl, tt))

Serves-Reach_example : Reach start in_transaction
unfolding new_worker began
Serves-Reach_example = Serves-Reach {db = toy} [] true began (omega arith)

toy-IsResponsive : IsResponsive toy
toy-IsResponsive = record {
  executes = λ conn sql params world. (_, refl);
  prepares = λ conn sql world. (_, refl);
}

close_holders-drains_example :
    (w' : Worker toy) × (close_holders (length busy.pending) busy ≡ some w') × (w'.pending ≡ [])
unfolding busy code
close_holders-drains_example =
    close_holders-drains toy-IsResponsive [] true busy-Reach ((_, refl), tt)
