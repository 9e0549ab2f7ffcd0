-- ===== src/Broker/Worker/Idle.antt =====
-- Nothing waits while nobody is in a transaction.
use sqlite_broker.Prelude.{
  ℕ, ◌≡◌, ◌≢◌, ◌⊎◌, inl, inr, refl, ◌∙◌, arith, true, [], Option, none, some, Bool-cases,
  >>=-eq-some,
}
use sqlite_broker.Text.{Bytes}
use sqlite_broker.Protocol.Message.{Request, exec, prepare, close}
use sqlite_broker.Broker.Engine.{Engine}
use sqlite_broker.Broker.Worker.{
  Job, open_job, req_job, drop_job, Worker, is_blocked, dispatch, pump, handle_open, handle_run,
  handle, new_worker,
}
use sqlite_broker.Broker.Worker.Pump.{IsDrained, pump-IsDrained}
use sqlite_broker.Broker.Worker.History.{Reach, here, next}

blocked-holder : (o : Option ℕ) (id : ℕ) → is_blocked o id ≡ true → o ≢ none
blocked-holder none id h = absurd (cc)
blocked-holder (some x) id h = λ e. let k : some x ≡ none = e in absurd (cc)

module _ {db : Engine} where
  handle_run-IsDrained :
      (id : ℕ) (req : Request) (reply : ℕ) (w w' : Worker db)
      → handle_run id req reply w ≡ some w'
      → IsDrained w'
  unfolding handle_run
  handle_run-IsDrained id req reply w w' h = elim (Bool-cases (is_blocked w.holder id)) [
    | inl waits ↦
        let same : w.holder ≡ w'.holder = ground (arith) in
        inl (λ e. blocked-holder w.holder id waits (same ∙ e))
    | inr may ↦
        let (u, one, left) =
          >>=-eq-some (dispatch id req reply w) pump (rw (may, handle_run) at h) in
        pump-IsDrained u w' left
  ]

  pub handle-IsDrained : (j : Job) (w w' : Worker db) → handle j w ≡ some w' → IsDrained w'
  unfolding handle handle_open
  handle-IsDrained (open_job id reply) w w' h = pump-IsDrained _ w' h
  handle-IsDrained (drop_job id reply) w w' h = pump-IsDrained _ w' h
  handle-IsDrained (req_job id close reply) w w' h = pump-IsDrained _ w' h
  handle-IsDrained (req_job id (exec sql params) reply) w w' h =
      handle_run-IsDrained id (exec sql params) reply w w' h
  handle-IsDrained (req_job id (prepare sql) reply) w w' h =
      handle_run-IsDrained id (prepare sql) reply w w' h

-- In every state that the broker reaches, requests wait only while a session is in a transaction.
pub Reach-IsDrained :
    {db : Engine} (storage : Bytes) (world : db.World) {w : Worker db}
    → Reach (new_worker {db = db} storage world) w
    → (w.holder ≢ none) ⊎ (w.pending ≡ [])
unfolding new_worker
Reach-IsDrained storage world here = inr refl
Reach-IsDrained storage world (next {w} {u} r j o h) = handle-IsDrained j w u h
