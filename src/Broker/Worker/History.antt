-- ===== src/Broker/Worker/History.antt =====
-- The broker from its start: any sequence of jobs, with the jobs' order and the answers of SQLite
-- left open.
use sqlite_broker.Prelude.{
  ℕ, ◌==◌, ◌≡◌, arith, Bool, true, false, List, [], ◌∷◌, ◌++◌, some, All, >>=-eq-some,
}
use sqlite_broker.Text.{Bytes}
use sqlite_broker.Protocol.Message.{Param}
use sqlite_broker.Broker.Engine.{Engine}
use sqlite_broker.Broker.Worker.{
  Job, Output, ran, compiled, closed, logged, opened, dropped, replied, Worker, handle,
}
use sqlite_broker.Broker.Worker.Lock.{Lock, owner, grant, Opens}

pub data Reach {db : Engine} (start : Worker db) : Worker db → Type 0 where
  here : Reach start start
  next :
      {w u : Worker db}
      → Reach start w
      → (j : Job) → Opens j w
      → handle j w ≡ some u
      → Reach start u

-- Session `h` leaves its transaction.
abbrev pub ends : ℕ → Output → Bool
ends h (ran id sql params true) = id == h
ends h (closed id) = id == h
ends h _ = false

-- What SQLite does is done for session `h`.
abbrev pub OnlyBy : ℕ → Output → Type 0
OnlyBy h (ran id sql params autocommit) = id ≡ h
OnlyBy h (compiled id sql) = id ≡ h
OnlyBy h _ = Unit

grant_held :
    (h : ℕ) (o : Output) (l : Lock)
    → ends h o ≡ false
    → grant o (some h) ≡ some l
    → OnlyBy h o × (l ≡ some h)
grant_held h (ran id sql params true) l e g = ground arith
grant_held h (ran id sql params false) l e g = ground arith
grant_held h (compiled id sql) l e g = ground arith
grant_held h (closed id) l e g = ground arith
grant_held h (logged x) l e g = (tt, ground arith)
grant_held h (opened reply r) l e g = (tt, ground arith)
grant_held h (dropped reply) l e g = (tt, ground arith)
grant_held h (replied reply r) l e g = (tt, ground arith)

-- While the trace does not show that `h` leaves its transaction, it owns the lock.
pub held_by :
    (h : ℕ) (sql : Bytes) (params : List Param) (earlier later : List Output) (l : Lock)
    → owner (later ++ (ran h sql params false ∷ earlier)) ≡ some l
    → All (λ o. ends h o ≡ false) later
    → All (OnlyBy h) later × (l ≡ some h)
unfolding owner
held_by h sql params earlier [] l own quiet = (tt, ground (arith))
held_by h sql params earlier (o ∷ later) l own quiet =
    let (k, before, now) =
      >>=-eq-some (owner (later ++ (ran h sql params false ∷ earlier))) (grant o) own in
    let (rest, held) = held_by h sql params earlier later k before quiet.1 in
    let (mine, still) = grant_held h o l quiet.0 (rw held at now) in ((mine, rest), still)
