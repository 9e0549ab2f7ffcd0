-- ===== src/Broker/Worker/Queue.antt =====
-- The order in which waiting requests are served.
use sqlite_broker.Prelude.{
  ℕ, ◌≡◌, ◌≢◌, refl, sym, ◌∙◌, arith, List, [], ◌∷◌, ◌++◌, none, some, All, ◌⊎◌, append_assoc,
}
use sqlite_broker.Protocol.Message.{Request, exec, prepare, close}
use sqlite_broker.Broker.Engine.{Engine}
use sqlite_broker.Broker.Worker.{
  Pending, Worker, output, release, execute_for, settle, run_exec, prepare_for, run_prepare,
  dispatch, pump,
}
use sqlite_broker.Broker.Worker.Pump.{pump_inv, pump-IsDrained}
use sqlite_broker.Broker.Worker.Answers.{answers, waiting}

-- `handle` puts no `Close` in the queue.
abbrev pub IsStatement : Pending → Type 0
IsStatement p = p.req ≢ close

-- The channels put on the newest-first answers, in their order.
abbrev pub rev_onto : List ℕ → List ℕ → List ℕ
rev_onto [] acc = acc
rev_onto (c ∷ cs) acc = rev_onto cs (c ∷ acc)

rev_onto-append :
    (xs : List Pending) (c : Pending) (acc : List ℕ)
    → rev_onto (waiting (xs ++ (c ∷ []))) acc ≡ c.reply ∷ rev_onto (waiting xs) acc
rev_onto-append [] c acc = refl
rev_onto-append (x ∷ xs) c acc = rev_onto-append xs c (x.reply ∷ acc)

module _ {db : Engine} where
  -- A dispatched statement is answered on its own channel and leaves the queue alone.
  pub dispatch_statement :
      (id : ℕ) (req : Request) (reply : ℕ) (w w' : Worker db)
      → req ≢ close
      → dispatch id req reply w ≡ some w'
      → (w'.pending ≡ w.pending) × (answers w'.trace ≡ reply ∷ answers w.trace)
  unfolding dispatch run_exec execute_for settle release run_prepare prepare_for output
  dispatch_statement id (exec sql params) reply w w' s h = ground arith
  dispatch_statement id (prepare sql) reply w w' s h = ground arith
  dispatch_statement id close reply w w' s h = absurd (s refl)

  -- The state after the first `served` of the queue were answered, in their order.
  pub record IsServed (w : Worker db) (served : List Pending) (u : Worker db) : Type 0 where
    pub split : w.pending ≡ served ++ u.pending
    pub in_order : answers u.trace ≡ rev_onto (waiting served) (answers w.trace)
    pub statements : All IsStatement u.pending

  serve_one :
      (w v u : Worker db) (p : Pending) (rest served : List Pending)
      → IsServed w served v
      → v.pending ≡ p ∷ rest
      → dispatch p.id p.req p.reply (record v { pending = rest }) ≡ some u
      → IsServed w (served ++ (p ∷ [])) u
  serve_one w v u p rest served s queue one =
      let all : All IsStatement (p ∷ rest) = rw queue at s.statements in
      let (same, told) =
        dispatch_statement p.id p.req p.reply (record v { pending = rest }) u all.0 one in
      record {
        split = s.split ∙ (rw (queue, same) (sym (append_assoc served (p ∷ []) rest)));
        in_order = told ∙ (rw (s.in_order) (sym (rev_onto-append served p (answers w.trace))));
        statements = rw same all.1;
      }

  -- `pump` serves waiting statements from the front of the queue, each once and in the order in which
  -- they came, and stops only where a session is in a transaction or nothing waits.
  pub pump_fifo :
      (w w' : Worker db)
      → All IsStatement w.pending
      → pump w ≡ some w'
      → ((served : List Pending) × IsServed w served w') × ((w'.holder ≢ none) ⊎ (w'.pending ≡ []))
  pump_fifo w w' s h = (
    pump_inv (λ u. (served : List Pending) × IsServed w served u)
        (λ v p rest u sv free queue one.
          (sv.0 ++ (p ∷ []), serve_one w v u p rest sv.0 sv.1 queue one))
        w w' ([], record { split = refl; in_order = refl; statements = s }) h,
    pump-IsDrained w w' h,
  )
