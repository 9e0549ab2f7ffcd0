-- ===== src/Broker/Worker/Answers.antt =====
-- Every job is answered once: what is not answered yet waits in the queue.
use sqlite_broker.Prelude.{
  ℕ, ◌+◌, ◌==◌, ◌≡◌, refl, ap, ◌⊎◌, arith, List, [], ◌∷◌, ◌++◌, none, some, map, Option-cases,
  count, count-append, Bool-cases, inl, inr, >>=-eq-some,
}
use mathlib.Core.List.{map-append}
use sqlite_broker.Prelude.Result.{Result, ok, err}
use sqlite_broker.Text.{Bytes}
use sqlite_broker.Protocol.Message.{Request, exec, prepare, close}
use sqlite_broker.Broker.Engine.{Engine}
use sqlite_broker.Broker.Worker.{
  Pending, Job, open_job, req_job, drop_job, Output, ran, compiled, closed, logged, opened, dropped,
  replied, is_blocked, Worker, output, take_session, kept, refused, release, refuse, drop_session,
  execute_for, settle, run_exec, prepare_for, run_prepare, dispatch, pump, add_session, handle_run,
  handle, worker_loop, new_worker,
}
use sqlite_broker.Broker.Worker.Pump.{pump_inv}

-- The channels that the trace has answered.
abbrev pub answers : List Output → List ℕ
answers [] = []
answers (opened reply r ∷ os) = reply ∷ answers os
answers (dropped reply ∷ os) = reply ∷ answers os
answers (replied reply r ∷ os) = reply ∷ answers os
answers (ran id sql params autocommit ∷ os) = answers os
answers (compiled id sql ∷ os) = answers os
answers (closed id ∷ os) = answers os
answers (logged e ∷ os) = answers os

abbrev pub waiting : List Pending → List ℕ
waiting ps = map (λ p. p.reply) ps

-- The channel of a job.
abbrev pub channel : Job → ℕ
channel (open_job id reply) = reply
channel (req_job id req reply) = reply
channel (drop_job id reply) = reply

-- How often a channel is answered or waits.
abbrev pub held : {db : Engine} → ℕ → Worker db → ℕ
held c w = count c (answers w.trace) + count c (waiting w.pending)

count-refused :
    (c id : ℕ) (ps : List Pending) (trace : List Output)
    → count c (answers (refused id ps trace)) + count c (waiting (kept id ps))
      ≡ count c (answers trace) + count c (waiting ps)
unfolding refused kept
count-refused c id [] trace = refl
count-refused c id (p ∷ ps) trace = elim (Bool-cases (p.id == id)) [
  | inl mine ↦ rw mine (omega (arith, count-refused c id ps (replied p.reply _ ∷ trace)))
  | inr other ↦ rw other (omega (arith, count-refused c id ps trace))
]

module _ {db : Engine} where
  held-drop_session : (c id : ℕ) (w : Worker db) → held c (drop_session id w) ≡ held c w
  unfolding drop_session release refuse take_session
  held-drop_session c id w = ground (
    arith,
    count-refused c id w.pending w.trace,
    count-refused c id w.pending (closed id ∷ w.trace),
  )

  -- A dispatched request is answered.
  pub held-dispatch :
      (c id : ℕ) (req : Request) (reply : ℕ) (w w' : Worker db)
      → dispatch id req reply w ≡ some w'
      → held c w' ≡ held c w + count c (reply ∷ [])
  unfolding dispatch run_exec execute_for settle release run_prepare prepare_for output
  held-dispatch c id (exec sql params) reply w w' h = ground arith
  held-dispatch c id (prepare sql) reply w w' h = ground arith
  held-dispatch c id close reply w w' h = ground (arith, held-drop_session c id w)

  held-pump : (c : ℕ) (w w' : Worker db) → pump w ≡ some w' → held c w' ≡ held c w
  held-pump c w w' =
      pump_inv (λ u. held c u ≡ held c w)
        (λ v p rest u e free queue one.
          ground (arith, held-dispatch c p.id p.req p.reply (record v { pending = rest }) u one))
        w w' refl

  held-add_session :
      (c id : ℕ) (r : Result Bytes db.Conn) (w : Worker db) → held c (add_session id r w) ≡ held c w
  unfolding add_session
  held-add_session c id (ok conn) w = ground arith
  held-add_session c id (err message) w = refl

  held-handle_run :
      (c id : ℕ) (req : Request) (reply : ℕ) (w w' : Worker db)
      → handle_run id req reply w ≡ some w'
      → held c w' ≡ held c w + count c (reply ∷ [])
  unfolding handle_run
  held-handle_run c id req reply w w' h = elim (Bool-cases (is_blocked w.holder id)) [
    | inl waits ↦
        let e =
          map-append (λ (p : Pending). p.reply) w.pending
            (record { id = id; req = req; reply = reply } ∷ []) in
        ground (arith, e, count-append c (waiting w.pending) (reply ∷ []))
    | inr may ↦
        let (u, one, left) =
          >>=-eq-some (dispatch id req reply w) pump (rw (may, handle_run) at h) in
        omega (arith, held-pump c u w' left, held-dispatch c id req reply w u one)
  ]

  -- A job that the worker handles adds its own channel, once, to those that are answered or wait,
  -- and changes nothing for any other channel.
  pub held-handle :
      (c : ℕ) (j : Job) (w w' : Worker db)
      → handle j w ≡ some w'
      → held c w' ≡ held c w + count c (channel j ∷ [])
  unfolding handle output
  held-handle c (open_job id reply) w w' h =
      let (r, world) = db.open_storage w.storage w.world in
      omega (arith, held-pump c _ w' h, held-add_session c id r (record w { world = world }))
  held-handle c (drop_job id reply) w w' h =
      omega (arith, held-pump c _ w' h, held-drop_session c id w)
  held-handle c (req_job id close reply) w w' h =
      omega (arith, held-pump c _ w' h, held-drop_session c id w)
  held-handle c (req_job id (exec sql params) reply) w w' h =
      held-handle_run c id (exec sql params) reply w w' h
  held-handle c (req_job id (prepare sql) reply) w w' h =
      held-handle_run c id (prepare sql) reply w w' h

  held-worker_loop :
      (c : ℕ) (js : List Job) (w w' : Worker db)
      → worker_loop js w ≡ some w'
      → held c w' ≡ held c w + count c (map channel js)
  unfolding worker_loop
  held-worker_loop c [] w w' h = ground arith
  held-worker_loop c (j ∷ js) w w' h =
      let (u, one, left) = >>=-eq-some (handle j w) (worker_loop js) h in
      omega (arith, held-worker_loop c js u w' left, held-handle c j w u one)

  -- How far the worker comes: all the jobs, or those before one from which it does not come back.
  pub record IsHandled (js : List Job) (before after : Worker db) (handled : List Job)
      : Type 0 where
    pub left : List Job
    pub parts : js ≡ handled ++ left
    pub ran : worker_loop handled before ≡ some after
    pub stopped :
        (left ≡ [])
        ⊎ ((j : Job) × (later : List Job) × (left ≡ j ∷ later) × (handle j after ≡ none))

  worker_loop-IsHandled :
      (js : List Job) (w : Worker db)
      → (handled : List Job) × (w' : Worker db) × IsHandled js w w' handled
  unfolding worker_loop
  worker_loop-IsHandled [] w =
      ([], w, record { left = []; parts = refl; ran = refl; stopped = inl refl })
  worker_loop-IsHandled (j ∷ js) w = elim (Option-cases (handle j w)) [
    | inl stops ↦ (
      [],
      w,
      record { left = j ∷ js; parts = refl; ran = refl; stopped = inr (j, js, refl, stops) },
    )
    | inr (u, one) ↦
        let (handled, w', h) = worker_loop-IsHandled js u in
        (
          j ∷ handled,
          w',
          record {
            left = h.left;
            parts = ap (◌∷◌ j) h.parts;
            ran = rw one h.ran;
            stopped = h.stopped;
          },
        )
  ]

  -- From the start, over any jobs: the worker handles all of them, or those before one from which it does
  -- not come back, and a channel has been answered as often as the jobs that it handled carry it, but
  -- for those whose request waits in the queue.
  pub worker_loop-answers :
      (storage : Bytes) (world : db.World) (js : List Job) (c : ℕ)
      → (handled : List Job) × (w : Worker db) × IsHandled js (new_worker storage world) w handled
        × (count c (answers w.trace) + count c (waiting w.pending) ≡ count c (map channel handled))
  unfolding new_worker
  worker_loop-answers storage world js c =
      let (handled, w, h) = worker_loop-IsHandled js (new_worker storage world) in
      (handled, w, h, omega (arith, held-worker_loop c handled (new_worker storage world) w h.ran))
