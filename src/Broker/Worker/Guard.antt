-- ===== src/Broker/Worker/Guard.antt =====
-- What the lock guarantees whatever numbers sessions have: the session that owns it by the trace is the
-- worker's `holder`. A session that is opened under a number in use closes the one that had it, so
-- the number of a session need not be new.
use sqlite_broker.Prelude.{
  ℕ, ◌==◌, ◌≡◌, refl, arith, Bool, true, false, ◌&&◌, ◌∙◌, if◌then◌else◌, List, [], ◌∷◌, ◌++◌, ap,
  All, Option, none, some, ◌>>=◌, >>=-eq-some, Bool-cases, inl, inr,
}
use sqlite_broker.Prelude.Result.{Result, ok, err}
use sqlite_broker.Text.{Bytes}
use sqlite_broker.Protocol.Message.{Request, exec, prepare, close, Param}
use sqlite_broker.Broker.Replies.{error_response}
use sqlite_broker.Broker.Engine.{Engine}
use sqlite_broker.Prelude.Assoc
use sqlite_broker.Prelude.Assoc.{Assoc, get-remove, get-insert}
use sqlite_broker.Broker.Worker.{
  Pending, Job, open_job, req_job, drop_job, Output, ran, closed, opened, dropped, replied,
  is_holder, is_blocked, Worker, output, take_session, refused, release, refuse, drop_session,
  execute_for, settle, run_exec, prepare_for, run_prepare, dispatch, pump, displace, add_session,
  opening, handle_run, handle_open, handle,
}
use sqlite_broker.Broker.Worker.Pump.{pump_inv}
use sqlite_broker.Broker.Worker.History.{ends, OnlyBy, held_by}
use sqlite_broker.Broker.Replies.{ok_closed}
use sqlite_broker.Broker.Worker.Lock.{Lock, grant, owner, is_live}

-- The owner of the lock, if there is one, is the holder, and has a connection; nothing ran against the
-- lock.
abbrev pub guards {ℓ} : {C : Type ℓ} → Option Lock → Option ℕ → Assoc C → Bool
guards none holder m = false
guards (some none) holder m = true
guards (some (some h)) holder m = is_holder holder h && is_live (some h) m

abbrev pub IsGuarded : {db : Engine} → Worker db → Type 0
IsGuarded w = guards (owner w.trace) w.holder w.sessions ≡ true

owner-refused_same :
    (id : ℕ) (ps : List Pending) (trace : List Output) → owner (refused id ps trace) ≡ owner trace
unfolding owner refused
owner-refused_same id [] trace = refl
owner-refused_same id (p ∷ ps) trace = elim (Bool-cases (p.id == id)) [
  | inl mine ↦ rw mine (owner-refused_same id ps (replied p.reply _ ∷ trace) ∙ keeps (owner trace))
  | inr other ↦ rw other (owner-refused_same id ps trace)
]
  where
    keeps : (o : Option Lock) → (o >>= λ l. some l) ≡ o
    keeps none = refl
    keeps (some l) = refl

guards-remove {ℓ} :
    {C : Type ℓ} (id : ℕ) (o : Option Lock) (holder : Option ℕ) (m : Assoc C)
    → guards o holder m ≡ true
    → guards
        (o >>= grant (closed id))
        (if is_holder holder id then none else holder)
        (Assoc.remove id m)
      ≡ true
guards-remove id none holder m h = cc
guards-remove id (some none) holder m h = refl
guards-remove id (some (some x)) none m h = cc
guards-remove id (some (some x)) (some y) m h = ground (arith, h, get-remove id x m)

guards-free {ℓ} :
    {C : Type ℓ} (id : ℕ) (o : Option Lock) (holder : Option ℕ) (m : Assoc C)
    → Assoc.get id m ≡ none
    → guards o holder m ≡ true
    → guards o (if is_holder holder id then none else holder) m ≡ true
guards-free id none holder m e h = cc
guards-free id (some none) holder m e h = refl
guards-free id (some (some x)) none m e h = cc
guards-free id (some (some x)) (some y) m e h = ground (arith, h)

guards-insert {ℓ} :
    {C : Type ℓ} (id : ℕ) (c : C) (o : Option Lock) (holder : Option ℕ) (m : Assoc C)
    → guards o holder m ≡ true
    → guards o holder (Assoc.insert id c m) ≡ true
guards-insert id c none holder m h = cc
guards-insert id c (some none) holder m h = refl
guards-insert id c (some (some x)) holder m h = ground (arith, h, get-insert id x c m)

guards-displace {ℓ} :
    {C : Type ℓ} (id : ℕ) (c : C) (o : Option Lock) (holder : Option ℕ) (m : Assoc C)
    → guards o holder m ≡ true
    → guards (o >>= grant (closed id)) holder (Assoc.insert id c m) ≡ true
guards-displace id c none holder m h = cc
guards-displace id c (some none) holder m h = refl
guards-displace id c (some (some x)) holder m h = ground (arith, h, get-insert id x c m)

owner_same : (o : Option Lock) → (o >>= λ l. some l) ≡ o
owner_same none = refl
owner_same (some l) = refl

module _ {db : Engine} where
  -- A log line is no business of the lock.
  released_guards :
      (id : ℕ) (w : Worker db)
      → guards (owner w.trace) (if is_holder w.holder id then none else w.holder) w.sessions ≡ true
      → IsGuarded (release id w)
  unfolding release owner
  released_guards id w h = elim (Bool-cases (is_holder w.holder id)) [
    | inl mine ↦ rw (mine, release) (rw (owner_same (owner w.trace)) (rw mine at h))
    | inr other ↦ rw (other, release) (rw other at h)
  ]

  drop_from :
      (id : ℕ) (w : Worker db) (found : Option db.Conn)
      → Assoc.get id w.sessions ≡ found
      → IsGuarded w
      → IsGuarded (release id (refuse id (take_session id found w)))
  unfolding refuse take_session owner
  drop_from id w none e v = released_guards id (refuse id w) (
      rw (refuse, owner-refused_same id w.pending w.trace)
        (guards-free id (owner w.trace) w.holder w.sessions e v))
  drop_from id w (some conn) e v = released_guards id (refuse id (take_session id (some conn) w)) (
      rw (owner-refused_same id w.pending (closed id ∷ w.trace))
        (guards-remove id (owner w.trace) w.holder w.sessions v))

  drop_session-IsGuarded : (id : ℕ) (w : Worker db) → IsGuarded w → IsGuarded (drop_session id w)
  unfolding drop_session
  drop_session-IsGuarded id w v = drop_from id w (Assoc.get id w.sessions) refl v

  run_exec-IsGuarded :
      (id : ℕ) (sql : Bytes) (params : List Param) (reply : ℕ) (w : Worker db) {w' : Worker db}
      → is_blocked w.holder id ≡ false
      → IsGuarded w
      → run_exec id sql params reply w ≡ some w'
      → IsGuarded w'
  unfolding run_exec execute_for settle release output owner error_response
  run_exec-IsGuarded id sql params reply w may v h = ground (arith, v)

  run_prepare-IsGuarded :
      (id : ℕ) (sql : Bytes) (reply : ℕ) (w : Worker db) {w' : Worker db}
      → is_blocked w.holder id ≡ false
      → IsGuarded w
      → run_prepare id sql reply w ≡ some w'
      → IsGuarded w'
  unfolding run_prepare prepare_for output owner
  run_prepare-IsGuarded id sql reply w may v h = ground (arith, v)

  dispatch-IsGuarded :
      (id : ℕ) (req : Request) (reply : ℕ) (w : Worker db) {w' : Worker db}
      → is_blocked w.holder id ≡ false
      → IsGuarded w
      → dispatch id req reply w ≡ some w'
      → IsGuarded w'
  unfolding dispatch output owner
  dispatch-IsGuarded id (exec sql params) reply w may v h =
      run_exec-IsGuarded id sql params reply w may v h
  dispatch-IsGuarded id (prepare sql) reply w may v h = run_prepare-IsGuarded id sql reply w may v h
  dispatch-IsGuarded id close reply w may v h =
      let d = drop_session-IsGuarded id w v in ground (arith, d)

  pump-IsGuarded : (w w' : Worker db) → IsGuarded w → pump w ≡ some w' → IsGuarded w'
  pump-IsGuarded = pump_inv IsGuarded λ w p rest u v free queue.
      dispatch-IsGuarded p.id p.req p.reply (record w { pending = rest }) (rw free) v

  add_session-IsGuarded :
      (id reply : ℕ) (r : Result Bytes db.Conn) (w : Worker db)
      → IsGuarded w
      → IsGuarded (output (opened reply (opening r)) (add_session id r w))
  unfolding add_session output owner
  add_session-IsGuarded id reply (err message) w v = rw (owner_same (owner w.trace)) v
  add_session-IsGuarded id reply (ok conn) w v = added (Assoc.get id w.sessions)
    where
      added :
          (o : Option db.Conn) → IsGuarded (output (opened reply (ok tt)) (displace id conn o w))
      added none =
          rw (owner_same (owner w.trace))
            (guards-insert id conn (owner w.trace) w.holder w.sessions v)
      added (some old) =
          rw (owner_same (owner w.trace >>= grant (closed id)))
            (guards-displace id conn (owner w.trace) w.holder w.sessions v)

  handle_run-IsGuarded :
      (id : ℕ) (req : Request) (reply : ℕ) (w w' : Worker db)
      → IsGuarded w
      → handle_run id req reply w ≡ some w'
      → IsGuarded w'
  unfolding handle_run owner
  handle_run-IsGuarded id req reply w w' v h = elim (Bool-cases (is_blocked w.holder id)) [
    | inl waits ↦ ground (arith, v)
    | inr may ↦
        let (u, one, left) =
          >>=-eq-some (dispatch id req reply w) pump (rw (may, handle_run) at h) in
        pump-IsGuarded u w' (dispatch-IsGuarded id req reply w may v one) left
  ]

  closed-IsGuarded :
      (id : ℕ) (o : Output) (w : Worker db)
      → ((l : Option Lock) → (l >>= grant o) ≡ l)
      → IsGuarded w
      → IsGuarded (output o (drop_session id w))
  unfolding output owner
  closed-IsGuarded id o w keeps v =
      rw (keeps (owner (drop_session id w).trace)) (drop_session-IsGuarded id w v)

  -- Whatever the job, and whatever the number of a session that it opens.
  pub handle-IsGuarded :
      (j : Job) (w w' : Worker db) → IsGuarded w → handle j w ≡ some w' → IsGuarded w'
  unfolding handle handle_open
  handle-IsGuarded (open_job id reply) w w' v h =
      let (r, world) = db.open_storage w.storage w.world in
      pump-IsGuarded _ w' (add_session-IsGuarded id reply r (record w { world = world }) v) h
  handle-IsGuarded (drop_job id reply) w w' v h =
      pump-IsGuarded _ w' (closed-IsGuarded id (dropped reply) w owner_same v) h
  handle-IsGuarded (req_job id close reply) w w' v h =
      pump-IsGuarded _ w' (closed-IsGuarded id (replied reply ok_closed) w owner_same v) h
  handle-IsGuarded (req_job id (exec sql params) reply) w w' v h =
      handle_run-IsGuarded id (exec sql params) reply w w' v h
  handle-IsGuarded (req_job id (prepare sql) reply) w w' v h =
      handle_run-IsGuarded id (prepare sql) reply w w' v h

guards-some {ℓ} :
    {C : Type ℓ} (o : Option Lock) (holder : Option ℕ) (m : Assoc C)
    → guards o holder m ≡ true
    → (l : Lock) × (o ≡ some l)
guards-some none holder m h = absurd (cc)
guards-some (some l) holder m h = (l, refl)

holder_of {ℓ} :
    {C : Type ℓ} (h : ℕ) (holder : Option ℕ) (m : Assoc C)
    → guards (some (some h)) holder m ≡ true
    → holder ≡ some h
holder_of h none m g = absurd (cc)
holder_of h (some x) m g = ground (arith, g)

-- From the statement that leaves session `h` in a transaction until `h` is in autocommit again or is
-- closed, SQLite runs and compiles statements of `h` alone, and `h` is the worker's `holder`.
pub isolation :
    {db : Engine} (w : Worker db) (h : ℕ) (sql : Bytes) (params : List Param)
    (earlier later : List Output)
    → IsGuarded w
    → w.trace ≡ later ++ (ran h sql params false ∷ earlier)
    → All (λ o. ends h o ≡ false) later
    → All (OnlyBy h) later × (w.holder ≡ some h)
isolation w h sql params earlier later v e quiet =
    let (l, own) = guards-some (owner w.trace) w.holder w.sessions v in
    let (only, mine) = held_by h sql params earlier later l (rw (← e) own) quiet in
    let held : owner w.trace ≡ some (some h) = own ∙ ap some mine in
    (only, holder_of h w.holder w.sessions (rw held at v))
