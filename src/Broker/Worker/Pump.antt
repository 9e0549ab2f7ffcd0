-- ===== src/Broker/Worker/Pump.antt =====
-- The loop of `Worker::pump`: it ends, and what each of its rounds keeps, it keeps.
use sqlite_broker.Prelude.{
  ℕ, suc, zero, ◌≤◌, ◌<◌, ◌≡◌, ◌≢◌, refl, arith, List, [], ◌∷◌, Option, none, some, length,
  >>=-eq-some, inr, ◌⊎◌,
}
use mathlib.Core.Path.{subst}
use sqlite_broker.Protocol.Message.{Request, exec, prepare, close}
use sqlite_broker.Broker.Engine.{Engine}
use sqlite_broker.Broker.Worker.{
  Pending, Worker, output, kept, take_session, release, refuse, drop_session, execute_for, settle,
  run_exec, prepare_for, run_prepare, dispatch, pump_round, pump_loop, pump,
}

module _ {ℓ} {db : Engine} (P : Worker db → Type ℓ) where
  pump_round_inv :
      (loop : Worker db → Option (Worker db)) (w : Worker db) (l : Option ℕ) (ps : List Pending)
      {w' : Worker db}
      → w.holder ≡ l
      → w.pending ≡ ps
      → ((p : Pending) (rest : List Pending) (u : Worker db)
          → w.holder ≡ none
          → w.pending ≡ p ∷ rest
          → dispatch p.id p.req p.reply (record w { pending = rest }) ≡ some u
          → P u)
      → ((u : Worker db) → P u → loop u ≡ some w' → P w')
      → P w
      → pump_round loop l ps w ≡ some w'
      → P w'
  unfolding pump_round
  pump_round_inv loop w (some x) ps e f step more v h = subst P (cc) v
  pump_round_inv loop w none [] e f step more v h = subst P (cc) v
  pump_round_inv loop w none (p ∷ rest) e f step more v h =
      let (u, one, left) =
        >>=-eq-some (dispatch p.id p.req p.reply (record w { pending = rest })) loop h in
      more u (step p rest u e f one) left

  module _
      (step : (w : Worker db) (p : Pending) (rest : List Pending) (u : Worker db)
        → P w
        → w.holder ≡ none
        → w.pending ≡ p ∷ rest
        → dispatch p.id p.req p.reply (record w { pending = rest }) ≡ some u
        → P u) where
    pub pump_loop_inv : (rounds : ℕ) (w w' : Worker db) → P w → pump_loop rounds w ≡ some w' → P w'
    unfolding pump_loop
    pump_loop_inv zero w w' v h = subst P (cc) v
    pump_loop_inv (suc rounds) w w' v h =
        pump_round_inv (pump_loop rounds) w w.holder w.pending refl refl
          (λ p rest u. step w p rest u v) (λ u. pump_loop_inv rounds u w') v h

    pub pump_inv : (w w' : Worker db) → P w → pump w ≡ some w' → P w'
    unfolding pump
    pump_inv w w' = pump_loop_inv (length w.pending) w w'

pub length-kept-le : (id : ℕ) (ps : List Pending) → length (kept id ps) ≤ length ps
unfolding kept
length-kept-le id [] = omega arith
length-kept-le id (p ∷ ps) = ground (arith, length-kept-le id ps)

module _ {db : Engine} where
  pub pending-drop_session :
      (id : ℕ) (w : Worker db) → (drop_session id w).pending ≡ kept id w.pending
  unfolding drop_session release refuse take_session
  pending-drop_session id w = ground arith

  -- What a dispatched request does to the queue: only a `Close` changes it.
  pub pending-dispatch :
      (id : ℕ) (req : Request) (reply : ℕ) (w : Worker db) {w' : Worker db}
      → dispatch id req reply w ≡ some w'
      → length w'.pending ≤ length w.pending
  unfolding dispatch run_exec execute_for settle release run_prepare prepare_for output
  pending-dispatch id (exec sql params) reply w h = ground arith
  pending-dispatch id (prepare sql) reply w h = ground arith
  pending-dispatch id close reply w h =
      ground (arith, pending-drop_session id w, length-kept-le id w.pending)

  abbrev pub IsDrained : Worker db → Type 0
  IsDrained w = (w.holder ≢ none) ⊎ (w.pending ≡ [])

  IsDrained-round :
      (loop : Worker db → Option (Worker db)) (w : Worker db) (l : Option ℕ) (ps : List Pending)
      (w' : Worker db)
      → w.holder ≡ l
      → w.pending ≡ ps
      → ((u : Worker db) → length u.pending < length ps → loop u ≡ some w' → IsDrained w')
      → pump_round loop l ps w ≡ some w'
      → IsDrained w'
  unfolding pump_round
  IsDrained-round loop w (some x) ps w' e f more h = ground arith
  IsDrained-round loop w none [] w' e f more h = inr (ground arith)
  IsDrained-round loop w none (p ∷ rest) w' e f more h =
      let (u, one, left) =
        >>=-eq-some (dispatch p.id p.req p.reply (record w { pending = rest })) loop h in
      more u (omega (arith, pending-dispatch p.id p.req p.reply (record w { pending = rest }) one))
        left

  -- With as many rounds as the queue is long, the loop stops by its own tests.
  pub pump_loop-IsDrained :
      (rounds : ℕ) (w w' : Worker db)
      → length w.pending ≤ rounds
      → pump_loop rounds w ≡ some w'
      → IsDrained w'
  unfolding pump_loop
  pump_loop-IsDrained zero w w' enough h = inr (empty_of w.pending w' (ground arith) (ground arith))
    where
      empty_of :
          (ps : List Pending) (u : Worker db) → u.pending ≡ ps → length ps ≤ 0 → u.pending ≡ []
      empty_of [] u e z = e
      empty_of (p ∷ ps) u e z = absurd (omega arith)
  pump_loop-IsDrained (suc rounds) w w' enough h =
      IsDrained-round (pump_loop rounds) w w.holder w.pending w' refl refl
        (λ u less. pump_loop-IsDrained rounds u w' (omega arith)) h

  pub pump-IsDrained : (w w' : Worker db) → pump w ≡ some w' → IsDrained w'
  unfolding pump
  pump-IsDrained w w' h = pump_loop-IsDrained (length w.pending) w w' (omega arith) h
