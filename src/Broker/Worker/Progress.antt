-- ===== src/Broker/Worker/Progress.antt =====
-- Whoever waits is served once those in front are through.
use sqlite_broker.Prelude.{
  ℕ, zero, suc, ◌≤◌, ◌<◌, ◌≡◌, ◌⊎◌, inl, inr, refl, sym, ap, ◌∙◌, arith, List, [], ◌∷◌, Option,
  none, some, length, ◌>>=◌, >>=-eq-some, Option-cases, ==_self,
}
use sqlite_broker.Text.{Bytes}
use sqlite_broker.Broker.Engine.{Engine}
use sqlite_broker.Broker.Worker.{
  Pending, drop_job, dropped, Worker, output, take_session, release, refuse, drop_session, dispatch,
  pump_round, pump_loop, pump, handle, new_worker,
}
use sqlite_broker.Broker.Worker.Pump.{
  length-kept-le, pending-drop_session, pending-dispatch, pump_loop_inv, IsDrained,
}
use sqlite_broker.Broker.Worker.History.{Reach}
use sqlite_broker.Broker.Worker.Idle.{handle-IsDrained, Reach-IsDrained}
use sqlite_broker.Broker.Worker.Total.{IsResponsive, Briefs, handle-Goes}

no_entry : (ps : List Pending) → length ps ≤ 0 → ps ≡ []
no_entry [] le = refl
no_entry (p ∷ ps) le = absurd (omega arith)

module _ {db : Engine} where
  -- The session that is in a transaction, if there is one, goes away.
  unfoldable pub close_holder : Worker db → Option (Worker db)
  close_holder w = elim w.holder [ none ↦ some w | some h ↦ handle (drop_job h 0) w ]

  unfoldable pub close_holders : ℕ → Worker db → Option (Worker db)
  unfolding close_holder
  close_holders zero w = some w
  close_holders (suc rounds) w = do w' ← close_holder w; close_holders rounds w'

  abbrev Shorter : List Pending → Worker db → Type 0
  Shorter ps w' = (w'.pending ≡ []) ⊎ (length w'.pending < length ps)

  pump_round-Shorter :
      (w : Worker db) (rounds : ℕ) (l : Option ℕ) (ps : List Pending) (w' : Worker db)
      → l ≡ none
      → w.pending ≡ ps
      → pump_round (pump_loop rounds) l ps w ≡ some w'
      → Shorter ps w'
  unfolding pump_round
  pump_round-Shorter w rounds (some x) ps w' free e h = absurd (cc)
  pump_round-Shorter w rounds none [] w' free e h = inl (ground arith)
  pump_round-Shorter w rounds none (p ∷ rest) w' free e h =
      let (u, one, left) =
        >>=-eq-some (dispatch p.id p.req p.reply (record w { pending = rest })) (pump_loop rounds)
          h in
      let shorter : length u.pending ≤ length rest =
        pending-dispatch p.id p.req p.reply (record w { pending = rest }) one in
      inr (
        omega (
          arith,
          pump_loop_inv (λ (v : Worker db). length v.pending ≤ length rest)
              (λ v q more x le free_ queue two. omega (
                arith,
                pending-dispatch q.id q.req q.reply (record v { pending = more }) two,
                ap length queue,
              ))
              rounds u w' shorter left,
        ))

  pump_loop-Shorter :
      (rounds : ℕ) (w w' : Worker db)
      → rounds ≡ length w.pending
      → w.holder ≡ none
      → pump_loop rounds w ≡ some w'
      → Shorter w.pending w'
  unfolding pump_loop
  pump_loop-Shorter zero w w' e free h =
      let same : w.pending ≡ w'.pending = ground arith in
      inl (sym same ∙ no_entry w.pending (omega arith))
  pump_loop-Shorter (suc rounds) w w' e free h =
      pump_round-Shorter w rounds w.holder w.pending w' free refl h

  released-holder : (h : ℕ) (w : Worker db) → w.holder ≡ some h → (drop_session h w).holder ≡ none
  unfolding drop_session release refuse take_session
  released-holder h w e = ground (arith, ==_self h)

  -- The session in a transaction goes: the queue is empty then, or shorter.
  close_holder-Shorter :
      (h : ℕ) (w w' : Worker db)
      → w.holder ≡ some h
      → handle (drop_job h 0) w ≡ some w'
      → Shorter w.pending w'
  unfolding handle output pump
  close_holder-Shorter h w w' e k =
      let kept_le : length (drop_session h w).pending ≤ length w.pending =
        omega (arith, ap length (pending-drop_session h w), length-kept-le h w.pending) in
      elim (pump_loop-Shorter _ (output (dropped 0) (drop_session h w)) w' refl
        (released-holder h w e) k) [ inl done ↦ inl done | inr less ↦ inr (omega arith) ]

  unheld : (w : Worker db) → IsDrained w → w.holder ≡ none → w.pending ≡ []
  unheld w (inl held) free = absurd (held free)
  unheld w (inr done) free = done

  module _ (r : IsResponsive db) where
    drains :
        (rounds : ℕ) (w : Worker db)
        → length w.pending ≤ rounds
        → IsDrained w
        → Briefs w.pending
        → (w' : Worker db) × (close_holders rounds w ≡ some w') × (w'.pending ≡ [])
    unfolding close_holders close_holder
    drains zero w le d b = (w, refl, no_entry w.pending le)
    drains (suc rounds) w le d b = elim (Option-cases w.holder) [
      | inl free ↦
          let (v, all, done) = drains rounds w (omega (arith, ap length (unheld w d free))) d b in
          (v, rw (free, close_holder) all, done)
      | inr (h, e) ↦
          let (u, one, bs) = handle-Goes r (drop_job h 0) w tt b in
          let short : length u.pending ≤ rounds = elim (close_holder-Shorter h w u e one) [
            | inl done ↦ omega (arith, ap length done)
            | inr less ↦ omega arith
          ] in
          let (v, all, done) = drains rounds u short (handle-IsDrained (drop_job h 0) w u one) bs in
          (v, rw (e, close_holder) (rw one all), done)
    ]

    -- In every state that the broker reaches, once the session in a transaction has gone away as often
    -- as requests wait, the worker has come back from every job, and nothing waits any more.
    pub close_holders-drains :
        (storage : Bytes) (world : db.World) {w : Worker db}
        → Reach (new_worker {db = db} storage world) w
        → Briefs w.pending
        → (w' : Worker db) × (close_holders (length w.pending) w ≡ some w') × (w'.pending ≡ [])
    close_holders-drains storage world {w} reach b =
        drains (length w.pending) w (omega arith) (Reach-IsDrained storage world reach) b
