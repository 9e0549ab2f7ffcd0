-- ===== src/Hammer/Load/Report.antt =====
-- What `run_worker` prints is what it did, and the audit reads it so.
use sqlite_broker.Prelude.{
  ℕ, ◌+◌, ◌*◌, ◌^◌, ◌≤◌, ◌<◌, ◌==◌, ◌≡◌, refl, ◌∙◌, arith, not, if-both, List, [], ◌∷◌, ◌++◌, All,
  length,
}
use sqlite_broker.Prelude.Result.{Result, ok, err}
use sqlite_broker.Text.{Bytes}
use sqlite_broker.Client.Program.{DbClient}
use sqlite_broker.Client.Program.Post.{Post, Succeeds, after-Succeeds, Keeps-Succeeds}
use sqlite_broker.Hammer.Claim.{Claim, parse_claim}
use sqlite_broker.Hammer.Claim.Words.{IsGraphic}
use sqlite_broker.Hammer.Claim.RoundTrip.{claimed, parse_claim-report_line}
use sqlite_broker.Hammer.Journal.{Journals, Keeps-dropping, Keeps-open_ready, Keeps-boot}
use sqlite_broker.Hammer.Load.{Write, Load, new_load, writes, report_line, verdict, run_worker}
use sqlite_broker.Hammer.Load.Choice.{IsName, inserted, updated, deleted}
use sqlite_broker.Hammer.Load.Tally.{
  total, first_token, last_token, first_token-IsName, StepsBelow, Tally, writes-length,
  new_load-Tally,
}
use sqlite_broker.Hammer.Load.Truth.{made, Steps, load_loop-Steps}

-- The result is a failure just where there were no writes.
abbrev pub Decided : List Write → Result Bytes (Unit {0}) → Type 0
Decided ws (ok x) = 0 < length ws
Decided ws (err e) = length ws ≡ 0

-- The claim that the line stands for tells of these writes, which were made, and of no other.
pub record Told (worker ops : ℕ) (line : Bytes) (result : Result Bytes (Unit {0}))
    (before after_ : List Bytes) : Type 0 where
  pub ws : List Write
  pub claim : Claim
  pub reads_back : parse_claim line ≡ ok claim
  pub made_these : after_ ≡ made worker ws ++ before
  pub decided : Decided ws result
  pub steps : StepsBelow ops ws
  pub all_steps : claim.reads + length ws ≡ ops
  pub worker_told : claim.worker ≡ worker
  pub ops_told : claim.ops ≡ ops
  pub writes_told : claim.writes ≡ length ws
  pub inserts_told : claim.inserts ≡ total (λ w. inserted w.kind) ws
  pub updates_told : claim.updates ≡ total (λ w. updated w.kind) ws
  pub deletes_told : claim.deletes ≡ total (λ w. deleted w.kind) ws
  pub sum_told : claim.sum_seq ≡ total (λ w. w.step) ws
  pub sample_told : claim.sample ≡ first_token ws
  pub last_told : claim.last ≡ last_token ws

square_step : (s n : ℕ) → s < n → s * s + s ≤ n * n
square_step s n h = grind arith

-- The sum of the numbers of the steps.
steps_sum : (n : ℕ) (ws : List Write) → StepsBelow n ws → total (λ w. w.step) ws ≤ n * n
steps_sum n [] h = omega arith
steps_sum n (w ∷ ws) h = omega (arith, steps_sum w.step ws h.1, square_step w.step n h.0)

square_fits : (n : ℕ) → n < 2 ^ 32 → n * n < 2 ^ 64
square_fits n h = grind arith

first_token-IsGraphic :
    (ws : List Write) → All (λ v. IsName v.recorded) ws → All IsGraphic (first_token ws)
first_token-IsGraphic [] h = tt
first_token-IsGraphic (w ∷ ws) h = (first_token-IsName w ws h).1

last_token-IsGraphic :
    (ws : List Write) → All (λ v. IsName v.recorded) ws → All IsGraphic (last_token ws)
last_token-IsGraphic [] h = tt
last_token-IsGraphic (w ∷ ws) h = h.0.1

verdict-Decided :
    (worker ops : ℕ) (ws : List Write) (l : Load)
    → Tally ops ws l
    → Decided ws (verdict worker ops l)
unfolding verdict
verdict-Decided worker ops ws l t =
    let count = writes-length ops ws l t in
    if-both (Decided ws) (not (l.executed == ops)) (λ h. absurd (ground (arith, t.executed)))
      (λ h.
        if-both (Decided ws) (writes l == 0) (λ k. ground (arith, count))
          (λ k. ground (arith, count)))

Tally-Told :
    (worker ops boot_ddl ms : ℕ) (ws : List Write) (l : Load) (before after_ : List Bytes)
    → worker < 2 ^ 64
    → ops < 2 ^ 32
    → Tally ops ws l
    → after_ ≡ made worker ws ++ before
    → Told worker ops (report_line worker ops boot_ddl ms l) (verdict worker ops l) before after_
Tally-Told worker ops boot_ddl ms ws l before after_ worker_fits ops_fits t j = record {
  ws = ws;
  claim = claimed worker ops l;
  reads_back =
      parse_claim-report_line worker ops boot_ddl ms l
        (record {
          worker_fits = worker_fits;
          ops_fits = ops_fits;
          all_steps = omega (arith, t.all_steps, writes-length ops ws l t);
          sum_fits = omega (arith, t.sum_total, steps_sum ops ws t.steps, square_fits ops ops_fits);
        })
        (rw t.first_kept (first_token-IsGraphic ws t.names))
        (rw t.last_kept (last_token-IsGraphic ws t.names));
  made_these = j;
  decided = verdict-Decided worker ops ws l t;
  steps = t.steps;
  all_steps = t.all_steps;
  worker_told = refl;
  ops_told = refl;
  writes_told = writes-length ops ws l t;
  inserts_told = t.insert_total;
  updates_told = t.update_total;
  deletes_told = t.delete_total;
  sum_told = t.sum_total;
  sample_told = t.first_kept;
  last_told = t.last_kept;
}

-- Where the database adds to its journal each transaction that it makes and comes back from each call,
-- and the worker's number is a `u64`, the number of steps a `u32` and the seed a `u64`, `run_worker`
-- comes back and does not panic. When no call of the database failed, the audit reads what it printed as
-- a claim that agrees with the writes that the journal gained: their number, how many were inserts,
-- updates and deletes, the sum of their steps, the first and the last of their tokens, with reads for all other
-- steps; and its result is a failure just where it made no write.
pub run_worker-Told :
    (client : DbClient) (laws : Journals client) (path : Bytes) (worker ops seed ms : ℕ)
    (w : client.World)
    → worker < 2 ^ 64
    → ops < 2 ^ 32
    → seed < 2 ^ 64
    → Post
        (Succeeds
          (λ printed w'. Told worker ops printed.0 printed.1 (laws.journal w) (laws.journal w')))
        (run_worker client path worker ops seed ms w)
unfolding run_worker
run_worker-Told client laws path worker ops seed ms w worker_fits ops_fits seed_fits =
    let j = laws.journal in
    let Q : Bytes × Result Bytes (Unit {0}) → client.World → Type 0 =
      λ printed w'. Told worker ops printed.0 printed.1 (j w) (j w') in
    after-Succeeds _ (λ db u. j u ≡ j w) Q _
      (Keeps-Succeeds j _ w (Keeps-open_ready client laws path))
      (λ db u e.
        after-Succeeds _ (λ n v. j v ≡ j u) Q _
          (Keeps-Succeeds j _ u (Keeps-dropping client laws db _ (Keeps-boot client laws db)))
          (λ boot_ddl v e'.
            after-Succeeds _ (λ done v. Steps client laws worker (j w) ops done.1 v) Q _
              (load_loop-Steps client laws worker (j w) path ops 0 ops db [] (new_load seed) v
                (omega arith) ops_fits (new_load-Tally seed seed_fits) (e' ∙ e))
              (λ done x (ws, t, made_).
                Tally-Told worker ops boot_ddl ms ws done.1 (j w) _ worker_fits ops_fits t
                  (laws.closes done.0 x ∙ made_))))
