-- ===== src/Broker/Clients/Unique.antt =====
-- The server's worker keeps its lock, and opens sessions under numbers that are not in use.
use sqlite_broker.Prelude.{
  ℕ, zero, suc, ◌+◌, ◌%◌, ◌^◌, ◌≤◌, ◌<◌, ◌≡◌, refl, ap, arith, ◌==◌, ==_self, false, List, [], ◌∷◌,
  ◌++◌, Option, none, some, Bool-cases, All, inl, inr, ==_iff,
}
use mathlib.Core.Path.{subst}
use sqlite_broker.Prelude.Assoc
use sqlite_broker.Text.{Bytes}
use sqlite_broker.Protocol.Message.{Param}
use sqlite_broker.Broker.Engine.{Engine}
use sqlite_broker.Broker.Worker.{
  Output, ran, Job, open_job, req_job, drop_job, Worker, handle, new_worker,
}
use sqlite_broker.Broker.Worker.Lock.{Opens, owner}
use sqlite_broker.Broker.Worker.History.{Reach, here, next, ends, OnlyBy}
use sqlite_broker.Broker.Worker.Guard.{IsGuarded, handle-IsGuarded, isolation}
use sqlite_broker.Broker.Clients.{
  Phase, taken, Client, Outcome, client_loop, Server, new_server, accept, Step, accepts, acts,
  works, Serves, begun, on,
}
use sqlite_broker.Broker.Clients.Numbers.{one_if, entries, opens, held-handle}

total {ℓ} : {A : Type ℓ} → (A → ℕ) → List A → ℕ
total f [] = 0
total f (x ∷ xs) = f x + total f xs

total-append {ℓ} :
    {A : Type ℓ} (f : A → ℕ) (xs ys : List A) → total f (xs ++ ys) ≡ total f xs + total f ys
unfolding total
total-append f [] ys = omega arith
total-append f (x ∷ xs) ys = omega (arith, total-append f xs ys)

-- 1 for a thread that is about to open the session of this number.
abbrev takes_at : ℕ → ℕ → Phase → ℕ
takes_at id i taken = one_if (i == id)
takes_at id i phase = 0

abbrev takes : ℕ → Client → ℕ
takes id c = takes_at id c.id c.phase

client_loop-takes :
    (id i reply : ℕ) (outcome : Outcome) (phase phase' : Phase) (jobs : List Job)
    → client_loop i reply outcome phase ≡ some (phase', jobs)
    → takes_at id i phase' + total (opens id) jobs ≤ takes_at id i phase
unfolding client_loop total
client_loop-takes id i reply outcome phase phase' jobs h = ground arith

next_number :
    (n id u : ℕ)
    → u ≤ 1
    → (n ≤ id → u ≡ 0)
    → (u + one_if (n == id) ≤ 1) × (suc n ≤ id → u + one_if (n == id) ≡ 0)
next_number n id u few late = elim (Bool-cases (n == id)) [
  | inl same ↦
      let e : n ≡ id = (==_iff n id).0 same in
      let z = late (omega arith) in (rw same (omega arith), (λ more. absurd (omega arith)))
  | inr other ↦
      (rw other (omega arith), (λ more. let z = late (omega arith) in rw other (omega arith)))
]

none_counted {ℓ} :
    {C : Type ℓ} (o : Option C) → (elim o [ none ↦ 0 | some c ↦ 1 ]) ≡ zero → o ≡ none
none_counted none h = refl
none_counted (some c) h = absurd (omega (arith, h))

entries-zero {ℓ} :
    {C : Type ℓ} (id : ℕ) (m : Assoc.Assoc C) → entries id m ≡ 0 → Assoc.get id m ≡ none
entries-zero id m = none_counted (Assoc.get id m)

module _ {db : Engine} where
  -- How often the number stands for a session, one that is to be opened included.
  uses : ℕ → Server db → ℕ
  uses id s =
      total (takes id) s.clients + (total (opens id) s.channel + entries id s.worker.sessions)

  -- After so many connections no number is used twice, and those that are not yet given out are not
  -- used.
  Unique : ℕ → Server db → Type 0
  Unique n s =
      (s.next_session ≡ suc n % 2 ^ 64)
      × ((id : ℕ) → (uses id s ≤ 1) × (suc n ≤ id → uses id s ≡ 0))

  accept-Unique : (n : ℕ) (s : Server db) → suc n < 2 ^ 64 → Unique n s → Unique (suc n) (accept s)
  unfolding Unique uses accept total
  accept-Unique n s room (at, v) = (
    omega (arith, at),
    λ id.
        let new : s.next_session ≡ suc n = omega (arith, at) in
        let (few, late) = next_number (suc n) id (uses id s) (v id).0 (v id).1 in
        let same : one_if (s.next_session == id) ≡ one_if (suc n == id) =
          ap (λ (k : ℕ). one_if (k == id)) new in
        (omega (arith, few, same), (λ more. omega (arith, late more, same))),
  )

  acts-uses :
      (s : Server db) (before after : List Client) (c : Client) (outcome : Outcome) (reply : ℕ)
      (phase : Phase) (jobs : List Job) (id : ℕ)
      → s.clients ≡ before ++ (c ∷ after)
      → client_loop c.id reply outcome c.phase ≡ some (phase, jobs)
      → uses id (record s {
        clients = before ++ (record { id = c.id; phase = phase } ∷ after);
        channel = s.channel ++ jobs;
      })
        ≤ uses id s
  unfolding uses total
  acts-uses s before after c outcome reply phase jobs id e h = omega (
    arith,
    client_loop-takes id c.id reply outcome c.phase phase jobs h,
    total-append (takes id) before (record { id = c.id; phase = phase } ∷ after),
    total-append (takes id) before (c ∷ after),
    total-append (opens id) s.channel jobs,
    ap (total (takes id)) e,
  )

  works-uses :
      (s : Server db) (j : Job) (rest : List Job) (w : Worker db) (id : ℕ)
      → s.channel ≡ j ∷ rest
      → handle j s.worker ≡ some w
      → uses id (record s { channel = rest; worker = w }) ≤ uses id s
  unfolding uses total
  works-uses s j rest w id e h =
      omega (arith, held-handle id j s.worker w h, ap (total (opens id)) e)

  -- The session that the next job opens is not there.
  works-Opens :
      (n : ℕ) (s : Server db) (j : Job) (rest : List Job)
      → s.channel ≡ j ∷ rest
      → Unique n s
      → Opens j s.worker
  unfolding Unique uses total
  works-Opens n s (open_job i reply) rest e v =
      let here : one_if (i == i) ≡ 1 = rw (==_self i) refl in
      entries-zero i s.worker.sessions (omega (arith, (v.1 i).0, ap (total (opens i)) e, here))
  works-Opens n s (req_job i req reply) rest e v = tt
  works-Opens n s (drop_job i reply) rest e v = tt

  -- The connections that were accepted.
  abbrev pub accepted_by : {s u : Server db} → Step s u → ℕ
  accepted_by accepts = 1
  accepted_by (acts before after c outcome reply phase jobs e h) = 0
  accepted_by (works j rest w e h) = 0

  fewer_uses :
      (n : ℕ) (s u : Server db)
      → u.next_session ≡ s.next_session
      → ((id : ℕ) → uses id u ≤ uses id s)
      → Unique n s
      → Unique (0 + n) u
  unfolding Unique
  fewer_uses n s u same le (at, v) = (
    omega (arith, same, at),
    λ id. (omega (arith, le id, (v id).0), (λ late. omega (arith, le id, (v id).1 (omega arith)))),
  )

  Step-Unique :
      (n : ℕ) {s u : Server db} (step : Step s u)
      → accepted_by step + n < 2 ^ 64
      → Unique n s
      → Unique (accepted_by step + n) u
  Step-Unique n {s} accepts room v =
      let next : suc n ≡ 1 + n = omega arith in
      subst (λ (k : ℕ). Unique k (accept s)) next (accept-Unique n s (omega arith) v)
  Step-Unique n {s} (acts before after c outcome reply phase jobs e h) room v =
      fewer_uses n s _ refl (λ id. acts-uses s before after c outcome reply phase jobs id e h) v
  Step-Unique n {s} (works j rest w e h) room v =
      fewer_uses n s _ refl (λ id. works-uses s j rest w id e h) v

  Step-Reach :
      (n : ℕ) {start : Worker db} {s u : Server db}
      → Step s u
      → Unique n s
      → Reach start s.worker
      → Reach start u.worker
  unfolding accept
  Step-Reach n accepts v r = r
  Step-Reach n (acts before after c outcome reply phase jobs e h) v r = r
  Step-Reach n {s = s} (works j rest w e h) v r = next r j (works-Opens n s j rest e v) h

  Step-IsGuarded : {s u : Server db} → Step s u → IsGuarded s.worker → IsGuarded u.worker
  unfolding accept
  Step-IsGuarded accepts v = v
  Step-IsGuarded (acts before after c outcome reply phase jobs e h) v = v
  Step-IsGuarded {s} (works j rest w e h) v = handle-IsGuarded j s.worker w v h

new_server-Unique :
    (db : Engine) (storage : Bytes) (world : db.World)
    → Unique {db = db} 0 (new_server storage world)
unfolding Unique uses total new_server new_worker Assoc.get
new_server-Unique db storage world = (refl, λ id. (omega arith, (λ late. refl)))

-- How many connections were accepted.
abbrev pub accepted : {db : Engine} {start s : Server db} → Serves start s → ℕ
accepted begun = 0
accepted (on r step) = accepted_by step + accepted r

Serves-Unique :
    {db : Engine} (storage : Bytes) (world : db.World) {s : Server db}
    (r : Serves (new_server storage world) s)
    → accepted r < 2 ^ 64
    → Unique (accepted r) s
Serves-Unique {db} storage world begun room = new_server-Unique db storage world
Serves-Unique storage world (on r step) room =
    Step-Unique (accepted r) step room (Serves-Unique storage world r (omega arith))

-- Whatever the clients do and however their threads interleave, while fewer than 2^64 connections were
-- accepted: the server's worker is in a state that jobs lead to in which a session is opened only under
-- a number that no open session of the worker has.
pub Serves-Reach :
    {db : Engine} (storage : Bytes) (world : db.World) {s : Server db}
    (r : Serves (new_server storage world) s)
    → accepted r < 2 ^ 64
    → Reach (new_worker storage world) s.worker
unfolding new_server
Serves-Reach storage world begun room = here
Serves-Reach storage world (on r step) room =
    Step-Reach (accepted r) step (Serves-Unique storage world r (omega arith))
      (Serves-Reach storage world r (omega arith))

Serves-IsGuarded :
    {db : Engine} (storage : Bytes) (world : db.World) {s : Server db}
    → Serves (new_server storage world) s
    → IsGuarded s.worker
unfolding new_server new_worker owner
Serves-IsGuarded storage world begun = refl
Serves-IsGuarded storage world (on r step) = Step-IsGuarded step (Serves-IsGuarded storage world r)

-- Whatever the clients do and however their threads interleave: from the statement that leaves session
-- `h` in a transaction until `h` is in autocommit again or is closed, SQLite runs and compiles
-- statements of `h` alone, and `h` is the worker's `holder`.
pub server_isolation :
    {db : Engine} (storage : Bytes) (world : db.World) {s : Server db} (h : ℕ) (sql : Bytes)
    (params : List Param) (before later : List Output)
    → Serves (new_server storage world) s
    → s.worker.trace ≡ later ++ (ran h sql params false ∷ before)
    → All (λ o. ends h o ≡ false) later
    → All (OnlyBy h) later × (s.worker.holder ≡ some h)
server_isolation storage world {s} h sql params before later r =
    isolation s.worker h sql params before later (Serves-IsGuarded storage world r)
