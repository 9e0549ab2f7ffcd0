-- ===== src/Broker/Clients/Numbers.antt =====
-- No session number is used twice, so what holds of the worker where new sessions have new numbers
-- holds in the server.
use sqlite_broker.Prelude.{
  ℕ, ◌+◌, ◌≤◌, ◌≡◌, ap, arith, ◌==◌, Bool, true, false, List, Option, none, some, Bool-cases, inl,
  inr, >>=-eq-some,
}
use sqlite_broker.Prelude.Assoc
use sqlite_broker.Prelude.Assoc.{Assoc, get-remove, get-insert}
use sqlite_broker.Prelude.Result.{Result, ok, err}
use sqlite_broker.Text.{Bytes}
use sqlite_broker.Protocol.Message.{Param, Request, exec, prepare, close}
use sqlite_broker.Broker.Engine.{Engine}
use sqlite_broker.Broker.Worker.{
  Job, open_job, req_job, drop_job, Worker, output, take_session, release, refuse, drop_session,
  execute_for, settle, run_exec, prepare_for, run_prepare, dispatch, pump, displace, add_session,
  is_blocked, handle_open, handle_run, handle,
}
use sqlite_broker.Broker.Worker.Pump.{pump_inv}

abbrev pub one_if : Bool → ℕ
one_if true = 1
one_if false = 0

-- 1 where the number has an entry.
abbrev pub entries {ℓ} : {C : Type ℓ} → ℕ → Assoc C → ℕ
entries id m = elim (Assoc.get id m) [ none ↦ 0 | some c ↦ 1 ]

entries-remove {ℓ} :
    {C : Type ℓ} (id i : ℕ) (m : Assoc C) → entries id (Assoc.remove i m) ≤ entries id m
entries-remove id i m = ground (arith, get-remove i id m)

entries-insert {ℓ} :
    {C : Type ℓ} (id i : ℕ) (c : C) (m : Assoc C)
    → entries id (Assoc.insert i c m) ≤ entries id m + one_if (i == id)
entries-insert id i c m = ground (arith, get-insert i id c m)

-- 1 for the job that opens a session of this number.
abbrev pub opens : ℕ → Job → ℕ
opens id (open_job i reply) = one_if (i == id)
opens id (req_job i req reply) = 0
opens id (drop_job i reply) = 0

module _ {db : Engine} (id : ℕ) where
  abbrev held : Worker db → ℕ
  held w = entries id w.sessions

  held-take_session :
      (i : ℕ) (o : Option db.Conn) (w : Worker db) → held (take_session i o w) ≤ held w
  unfolding take_session
  held-take_session i none w = omega arith
  held-take_session i (some conn) w = entries-remove id i w.sessions

  sessions-drop_session :
      (i : ℕ) (w : Worker db)
      → (drop_session i w).sessions ≡ (take_session i (Assoc.get i w.sessions) w).sessions
  unfolding drop_session release refuse
  sessions-drop_session i w = ground arith

  held-drop_session : (i : ℕ) (w : Worker db) → held (drop_session i w) ≤ held w
  held-drop_session i w = omega (
    arith,
    held-take_session i (Assoc.get i w.sessions) w,
    ap (λ (m : Assoc db.Conn). entries id m) (sessions-drop_session i w),
  )

  sessions-run_exec :
      (i : ℕ) (sql : Bytes) (params : List Param) (reply : ℕ) (w w' : Worker db)
      → run_exec i sql params reply w ≡ some w'
      → w'.sessions ≡ w.sessions
  unfolding run_exec execute_for settle release output
  sessions-run_exec i sql params reply w w' h = ground arith

  sessions-run_prepare :
      (i : ℕ) (sql : Bytes) (reply : ℕ) (w w' : Worker db)
      → run_prepare i sql reply w ≡ some w'
      → w'.sessions ≡ w.sessions
  unfolding run_prepare prepare_for output
  sessions-run_prepare i sql reply w w' h = ground arith

  same-held : (w w' : Worker db) → w'.sessions ≡ w.sessions → held w' ≤ held w
  same-held w w' h = omega (arith, ap (λ (m : Assoc db.Conn). entries id m) h)

  held-dispatch :
      (i : ℕ) (req : Request) (reply : ℕ) (w w' : Worker db)
      → dispatch i req reply w ≡ some w'
      → held w' ≤ held w
  unfolding dispatch output
  held-dispatch i (exec sql params) reply w w' h =
      same-held w w' (sessions-run_exec i sql params reply w w' h)
  held-dispatch i (prepare sql) reply w w' h =
      same-held w w' (sessions-run_prepare i sql reply w w' h)
  held-dispatch i close reply w w' h =
      let e : (drop_session i w).sessions ≡ w'.sessions = ground arith in
      omega (arith, held-drop_session i w, ap (λ (m : Assoc db.Conn). entries id m) e)

  held-pump : (w w' : Worker db) → pump w ≡ some w' → held w' ≤ held w
  held-pump w w' h =
      pump_inv (λ u. held u ≤ held w)
        (λ v p rest u le free queue one.
          omega (arith, held-dispatch p.id p.req p.reply (record v { pending = rest }) u one))
        w w' (omega arith) h

  held-add_session :
      (i : ℕ) (r : Result Bytes db.Conn) (w : Worker db)
      → held (add_session i r w) ≤ held w + one_if (i == id)
  unfolding add_session displace
  held-add_session i (err message) w = omega arith
  held-add_session i (ok conn) w = held-displace (Assoc.get i w.sessions)
    where
      held-displace : (o : Option db.Conn) → held (displace i conn o w) ≤ held w + one_if (i == id)
      held-displace none = entries-insert id i conn w.sessions
      held-displace (some old) = entries-insert id i conn w.sessions

  held-handle_run :
      (i : ℕ) (req : Request) (reply : ℕ) (w w' : Worker db)
      → handle_run i req reply w ≡ some w'
      → held w' ≤ held w
  unfolding handle_run
  held-handle_run i req reply w w' h = elim (Bool-cases (is_blocked w.holder i)) [
    | inl waits ↦ same-held w w' (ground arith)
    | inr may ↦
        let (u, one, left) =
          >>=-eq-some (dispatch i req reply w) pump (rw (may, handle_run) at h) in
        omega (arith, held-dispatch i req reply w u one, held-pump u w' left)
  ]

  -- A job adds the session that it opens, and no other.
  pub held-handle :
      (j : Job) (w w' : Worker db) → handle j w ≡ some w' → held w' ≤ held w + opens id j
  unfolding handle handle_open output displace
  held-handle (open_job i reply) w w' h =
      let (r, world) = db.open_storage w.storage w.world in
      omega (arith, held-add_session i r (record w { world = world }), held-pump _ w' h)
  held-handle (drop_job i reply) w w' h = omega (arith, held-drop_session i w, held-pump _ w' h)
  held-handle (req_job i close reply) w w' h =
      omega (arith, held-drop_session i w, held-pump _ w' h)
  held-handle (req_job i (exec sql params) reply) w w' h =
      omega (arith, held-handle_run i (exec sql params) reply w w' h)
  held-handle (req_job i (prepare sql) reply) w w' h =
      omega (arith, held-handle_run i (prepare sql) reply w w' h)
