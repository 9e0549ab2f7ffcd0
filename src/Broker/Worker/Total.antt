-- ===== src/Broker/Worker/Total.antt =====
-- When the worker goes on, and when it does not: the log line cuts the statement at byte 120.
use sqlite_broker.Prelude.{
  ℕ, zero, suc, ◌<◌, ◌==◌, ◌≡◌, refl, arith, Bool, true, false, List, [], ◌∷◌, Option, none, some,
  All, All-append, length, Bool-cases, Option-cases, inl, inr, lt→ltb,
}
use sqlite_broker.Prelude.Result.{Result, ok, err}
use sqlite_broker.Text.{Bytes}
use sqlite_broker.Protocol.Message.{Request, exec, prepare, close, Param, Response}
use sqlite_broker.Broker.Brief.{sql_brief, one_line}
use sqlite_broker.Text.Search.{is_char_boundary}
use sqlite_broker.Broker.Engine.{Engine}
use sqlite_broker.Prelude.Assoc
use sqlite_broker.Broker.Worker.{
  Pending, Job, open_job, req_job, drop_job, is_blocked, Worker, output, take_session, kept,
  release, refuse, drop_session, execute_for, settle, run_exec, prepare_for, run_prepare, dispatch,
  pump_round, pump_loop, pump, add_session, handle_run, handle,
}

-- SQLite answers every call.
pub record IsResponsive (db : Engine) : Type 0 where
  pub executes :
      (conn : db.Conn) (sql : Bytes) (params : List Param) (world : db.World)
      → (r : Response × db.World) × (db.execute conn sql params world ≡ some r)
  pub prepares :
      (conn : db.Conn) (sql : Bytes) (world : db.World)
      → (r : Response × db.World) × (db.prepare_meta conn sql world ≡ some r)

-- The log line of the request can be cut.
abbrev pub HasBrief : Request → Type 0
HasBrief (exec sql params) = (b : Bytes) × (sql_brief sql ≡ some b)
HasBrief (prepare sql) = (b : Bytes) × (sql_brief sql ≡ some b)
HasBrief close = Unit

abbrev pub Briefs : List Pending → Type 0
Briefs = All (λ p. HasBrief p.req)

abbrev pub JobHasBrief : Job → Type 0
JobHasBrief (open_job id reply) = Unit
JobHasBrief (req_job id req reply) = HasBrief req
JobHasBrief (drop_job id reply) = Unit

Briefs-kept : (id : ℕ) (ps : List Pending) → Briefs ps → Briefs (kept id ps)
unfolding kept
Briefs-kept id [] b = tt
Briefs-kept id (p ∷ ps) b = elim (Bool-cases (p.id == id)) [
  | inl mine ↦ rw mine (Briefs-kept id ps b.1)
  | inr other ↦ rw other (b.0, Briefs-kept id ps b.1)
]

-- The call returns, and the queue still has its briefs.
abbrev pub Goes : {db : Engine} → Option (Worker db) → Type 0
Goes {db} r = (w : Worker db) × (r ≡ some w) × Briefs w.pending

pending-settle :
    {db : Engine} (id : ℕ) (autocommit : Bool) (w : Worker db)
    → (settle id autocommit w).pending ≡ w.pending
unfolding settle release
pending-settle id true w = ground arith
pending-settle id false w = refl

pending-drop_session :
    {db : Engine} (id : ℕ) (w : Worker db) → (drop_session id w).pending ≡ kept id w.pending
unfolding drop_session release refuse take_session
pending-drop_session id w = ground arith

module _ {db : Engine} (answers : IsResponsive db) where
  execute_for_goes :
      (id : ℕ) (sql : Bytes) (params : List Param) (conn : Option db.Conn) (w : Worker db)
      → (r : Response × Worker db) × (execute_for id sql params conn w ≡ some r)
        × (r.1.pending ≡ w.pending)
  unfolding execute_for
  execute_for_goes id sql params none w = (_, refl, refl)
  execute_for_goes id sql params (some conn) w =
      let (r, e) = answers.executes conn sql params w.world in rw e (_, refl, refl)

  prepare_for_goes :
      (id : ℕ) (sql : Bytes) (conn : Option db.Conn) (w : Worker db)
      → (r : Response × Worker db) × (prepare_for id sql conn w ≡ some r)
        × (r.1.pending ≡ w.pending)
  unfolding prepare_for
  prepare_for_goes id sql none w = (_, refl, refl)
  prepare_for_goes id sql (some conn) w =
      let (r, e) = answers.prepares conn sql w.world in rw e (_, refl, refl)

  dispatch-Goes :
      (id : ℕ) (req : Request) (reply : ℕ) (w : Worker db)
      → HasBrief req
      → Briefs w.pending
      → Goes (dispatch id req reply w)
  unfolding dispatch run_exec run_prepare output
  dispatch-Goes id (exec sql params) reply w (b, brief) bs =
      let ((r, v), e, same) = execute_for_goes id sql params (Assoc.get id w.sessions) w in
      rw (e, brief) (_, refl, rw (pending-settle id r.autocommit, same) bs)
  dispatch-Goes id (prepare sql) reply w (b, brief) bs =
      let ((r, v), e, same) = prepare_for_goes id sql (Assoc.get id w.sessions) w in
      rw (e, brief) (_, refl, rw same bs)
  dispatch-Goes id close reply w u bs =
      (_, refl, rw (pending-drop_session id w) (Briefs-kept id w.pending bs))

  pump_round-Goes :
      (loop : Worker db → Option (Worker db)) (l : Option ℕ) (ps : List Pending) (w : Worker db)
      → ((u : Worker db) → Briefs u.pending → Goes (loop u))
      → w.pending ≡ ps
      → Briefs ps
      → Goes (pump_round loop l ps w)
  unfolding pump_round
  pump_round-Goes loop (some x) ps w more e bs = (w, refl, rw e bs)
  pump_round-Goes loop none [] w more e bs = (w, refl, rw e bs)
  pump_round-Goes loop none (p ∷ rest) w more e bs =
      let (u, one, left) =
        dispatch-Goes p.id p.req p.reply (record w { pending = rest }) bs.0 bs.1 in
      rw one (more u left)

  pump_loop-Goes : (rounds : ℕ) (w : Worker db) → Briefs w.pending → Goes (pump_loop rounds w)
  unfolding pump_loop
  pump_loop-Goes zero w bs = (w, refl, bs)
  pump_loop-Goes (suc rounds) w bs =
      pump_round-Goes (pump_loop rounds) w.holder w.pending w (pump_loop-Goes rounds) refl bs

  pump-Goes : (w : Worker db) → Briefs w.pending → Goes (pump w)
  unfolding pump
  pump-Goes w bs = pump_loop-Goes (length w.pending) w bs

  handle_run-Goes :
      (id : ℕ) (req : Request) (reply : ℕ) (w : Worker db)
      → HasBrief req
      → Briefs w.pending
      → Goes (handle_run id req reply w)
  unfolding handle_run
  handle_run-Goes id req reply w b bs = elim (Bool-cases (is_blocked w.holder id)) [
    | inl waits ↦ rw waits (_, refl, All-append _ w.pending _ bs (b, tt))
    | inr may ↦
        let (u, one, left) = dispatch-Goes id req reply w b bs in rw (may, one) (pump-Goes u left)
  ]

  pending-add_session :
      (id : ℕ) (r : Result Bytes db.Conn) (w : Worker db) → (add_session id r w).pending ≡ w.pending
  unfolding add_session
  pending-add_session id (ok conn) w = ground arith
  pending-add_session id (err message) w = refl

  -- Where SQLite answers and no log line cuts a character, the worker handles the job and goes on,
  -- and what it leaves in the queue has its briefs too.
  pub handle-Goes : (j : Job) (w : Worker db) → JobHasBrief j → Briefs w.pending → Goes (handle j w)
  unfolding handle output
  handle-Goes (open_job id reply) w b bs =
      let (r, world) = db.open_storage w.storage w.world in
      pump-Goes _ (rw (pending-add_session id r (record w { world = world })) bs)
  handle-Goes (drop_job id reply) w b bs =
      pump-Goes _ (rw (pending-drop_session id w) (Briefs-kept id w.pending bs))
  handle-Goes (req_job id close reply) w b bs =
      pump-Goes _ (rw (pending-drop_session id w) (Briefs-kept id w.pending bs))
  handle-Goes (req_job id (exec sql params) reply) w b bs =
      handle_run-Goes id (exec sql params) reply w b bs
  handle-Goes (req_job id (prepare sql) reply) w b bs =
      handle_run-Goes id (prepare sql) reply w b bs

sql_brief-none :
    (sql : Bytes)
    → 120 < length (one_line sql)
    → is_char_boundary (one_line sql) 120 ≡ false
    → sql_brief sql ≡ none
unfolding sql_brief
sql_brief-none sql long inside = rw (lt→ltb _ _ long, inside)

run_exec-none :
    {db : Engine} (id : ℕ) (sql : Bytes) (params : List Param) (reply : ℕ) (w : Worker db)
    → sql_brief sql ≡ none
    → run_exec id sql params reply w ≡ none
unfolding run_exec
run_exec-none id sql params reply w e =
    elim (Option-cases (execute_for id sql params (Assoc.get id w.sessions) w)) [
      | inl gone ↦ rw gone
      | inr (r, came) ↦ rw (came, e)
    ]

run_prepare-none :
    {db : Engine} (id : ℕ) (sql : Bytes) (reply : ℕ) (w : Worker db)
    → sql_brief sql ≡ none
    → run_prepare id sql reply w ≡ none
unfolding run_prepare
run_prepare-none id sql reply w e =
    elim (Option-cases (prepare_for id sql (Assoc.get id w.sessions) w)) [
      | inl gone ↦ rw gone
      | inr (r, came) ↦ rw (came, e)
    ]

-- A statement that is let through, whose text on one line is longer than 120 bytes with byte 120
-- inside a character, ends the worker, whatever SQLite answers.
pub handle_split_brief :
    {db : Engine} (id : ℕ) (sql : Bytes) (params : List Param) (reply : ℕ) (w : Worker db)
    → is_blocked w.holder id ≡ false
    → 120 < length (one_line sql)
    → is_char_boundary (one_line sql) 120 ≡ false
    → (handle (req_job id (exec sql params) reply) w ≡ none)
      × (handle (req_job id (prepare sql) reply) w ≡ none)
unfolding handle handle_run dispatch
handle_split_brief id sql params reply w may long inside =
    let e = sql_brief-none sql long inside in
    (rw (may, run_exec-none id sql params reply w e), rw (may, run_prepare-none id sql reply w e))
