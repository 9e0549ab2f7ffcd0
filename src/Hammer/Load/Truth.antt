-- ===== src/Hammer/Load/Truth.antt =====
-- What `run_worker` prints is what it did.
use sqlite_broker.Prelude.{
  ℕ, zero, suc, ◌+◌, ◌%◌, ◌^◌, ◌≤◌, ◌<◌, ◌==◌, ltb, ◌≡◌, refl, ap, ◌∙◌, arith, true, ◌&&◌, if-both,
  List, ◌∷◌, ◌++◌, map, Option, none, some, length,
}
use mathlib.Core.Path.{subst}
use sqlite_broker.Prelude.Result.{Result, ok, err}
use sqlite_broker.Text.{Bytes}
use sqlite_broker.Text.Search.{starts_with}
use sqlite_broker.Client.Program.{Action, after, return, DbClient}
use sqlite_broker.Client.Program.Post.{
  Post, Post-mono, Succeeds, after-Succeeds, Keeps, Keeps-Succeeds,
}
use sqlite_broker.Hammer.Rng.{below}
use sqlite_broker.Hammer.Rng.Live.{below-IsLive}
use sqlite_broker.Hammer.Statements.{format, begin_immediate, insert_sql, update_sql, delete_sql}
use sqlite_broker.Hammer.Boot.{dropping}
use sqlite_broker.Hammer.Journal.{Journals, Keeps-dropping, Keeps-open_ready}
use sqlite_broker.Hammer.Load.{
  Kind, inserts, updates, deletes, Write, Load, kind_sql, write_sql, choose_write, recorded_write,
  write_chosen, read_step, reopened, load_step, load_loop,
}
use sqlite_broker.Hammer.Load.Choice.{Chooses, choose_write-Chosen}
use sqlite_broker.Hammer.Load.Tally.{Tally, writes-length, Tally-drawn, Tally-read, Tally-write}

kind_sql-begins :
    (kind : Kind) (worker step : ℕ) (name : Bytes)
    → starts_with begin_immediate (kind_sql kind worker step name) ≡ true
unfolding kind_sql insert_sql update_sql delete_sql format starts_with
kind_sql-begins inserts worker step name = refl
kind_sql-begins updates worker step name = refl
kind_sql-begins deletes worker step name = refl

-- The statements of the writes, the last one first.
abbrev pub made : (worker : ℕ) → List Write → List Bytes
made worker ws = map (write_sql worker) ws

few_live : (step : ℕ) (ws : List Write) (l : Load) → Tally step ws l → length l.live ≤ step
few_live step ws l t = omega (arith, t.steady.balance, t.all_steps, writes-length step ws l t)

module _ (client : DbClient) (laws : Journals client) (worker : ℕ) (before : List Bytes) where
  open client use {World, Db}
  open laws use {journal, opens, makes, others, queries, closes}

  -- After so many steps, these writes and no other were made since the journal was this.
  abbrev pub Steps : (step : ℕ) → Load → World → Type 0
  Steps step l w = (ws : List Write) × Tally step ws l × (journal w ≡ made worker ws ++ before)

  abbrev Stepped : (step : ℕ) → Result Bytes Load → World → Type 0
  Stepped step = Succeeds (Steps step)

  write_chosen-Stepped :
      (db : Db) (step : ℕ) (ws : List Write) (l : Load) (o : Option (Write × Load)) (w : World)
      → Tally step ws l
      → journal w ≡ made worker ws ++ before
      → Chooses step l o
      → Post (Stepped (suc step)) (write_chosen client db worker o w)
  unfolding write_chosen
  write_chosen-Stepped db step ws l none w t j c = absurd c
  write_chosen-Stepped db step ws l (some (write, l')) w t j c =
      executed (client.exec db (write_sql worker write) w) (
        makes db (write_sql worker write) w
          (kind_sql-begins write.kind worker write.step write.recorded))
    where
      executed :
          (o : Option (Result Bytes (Unit {0}) × World))
          → Post
              (λ r w'.
                journal w'
                ≡ elim r [ ok x ↦ write_sql worker write ∷ journal w | err e ↦ journal w ])
              o
          → Post
              (Stepped (suc step))
              (after (λ x. return (recorded_write write l')) (dropping client db (λ u. o) w))
      executed none h = h
      executed (some (ok x, u)) h =
          (write ∷ ws, Tally-write step ws l l' write t c, h ∙ ap (◌∷◌ (write_sql worker write)) j)
      executed (some (err e, u)) h = tt

  read_step-Stepped :
      (db : Db) (step : ℕ) (ws : List Write) (l : Load) (w : World)
      → Tally step ws l
      → journal w ≡ made worker ws ++ before
      → Post (Stepped (suc step)) (read_step client db worker l w)
  unfolding read_step
  read_step-Stepped db step ws l w t j =
      let live = below-IsLive l.rng 4 t.steady.rng (omega arith) (omega arith) in
      after-Succeeds _ (λ rows u. journal u ≡ journal w) (Steps (suc step)) _
        (Keeps-Succeeds journal _ w (Keeps-dropping client laws db _ (queries db _)))
        (λ rows u e. (ws, Tally-read step _ ws l live.0 t, e ∙ j))

  load_step-Stepped :
      (db : Db) (step : ℕ) (ws : List Write) (l : Load) (w : World)
      → step < 2 ^ 32
      → Tally step ws l
      → journal w ≡ made worker ws ++ before
      → Post (Stepped (suc step)) (load_step client db worker step l w)
  unfolding load_step
  load_step-Stepped db step ws l w small t j =
      let (chance, rng) = below l.rng 2 in
      let live = below-IsLive l.rng 2 t.steady.rng (omega arith) (omega arith) in
      let t' = Tally-drawn step rng ws l live.0 t in
      if-both (λ (m : Action World Load). Post (Stepped (suc step)) (m w)) (chance == 0)
        (λ h.
          write_chosen-Stepped db step ws (record l { rng = rng })
            (choose_write worker step (record l { rng = rng })) w t' j
            (choose_write-Chosen worker step (record l { rng = rng }) t'.steady
              (omega (arith, few_live step ws l t))))
        (λ h. read_step-Stepped db step ws (record l { rng = rng }) w t' j)

  Keeps-reopened :
      (path : Bytes) (db : Db) (step : ℕ) → Keeps journal (reopened client path db step)
  unfolding reopened
  Keeps-reopened path db step w =
      if-both (Post (λ r w'. journal w' ≡ journal w)) (ltb 0 step && (step % 200 == 0))
        (λ h.
          Post-mono (λ r w'. journal w' ≡ journal (client.close db w)) _ _
            (λ r w' e. e ∙ closes db w) (Keeps-open_ready client laws path (client.close db w)))
        (λ h. refl)

  pub load_loop-Steps :
      (path : Bytes) (to_go step ops : ℕ) (db : Db) (ws : List Write) (l : Load) (w : World)
      → step + to_go ≡ ops
      → ops < 2 ^ 32
      → Tally step ws l
      → journal w ≡ made worker ws ++ before
      → Post
          (Succeeds (λ done w. Steps ops done.1 w))
          (load_loop client path worker to_go step db l w)
  unfolding load_loop
  load_loop-Steps path zero step ops db ws l w sum small t j =
      (ws, subst (λ (n : ℕ). Tally n ws l) (omega arith) t, j)
  load_loop-Steps path (suc to_go) step ops db ws l w sum small t j =
      after-Succeeds _ (λ db' u. journal u ≡ journal w) (λ done w. Steps ops done.1 w) _
        (Keeps-Succeeds journal _ w (Keeps-reopened path db step))
        (λ db' u e.
          after-Succeeds _ (Steps (suc step)) (λ done w. Steps ops done.1 w) _
            (load_step-Stepped db' step ws l u (omega arith) t (e ∙ j))
            (λ l' v (vs, t', j').
              load_loop-Steps path to_go (suc step) ops db' vs l' v (omega arith) small t' j'))
