-- ===== src/Hammer/Load/Tally.antt =====
-- What the counters of `run_worker` count.
use sqlite_broker.Prelude.{
  ℕ, suc, ◌+◌, ◌^◌, ◌<◌, ◌≡◌, refl, sym, ◌∙◌, arith, if◌then◌else◌, List, [], ◌∷◌, All, length,
  is_empty,
}
use mathlib.Core.Path.{subst}
use sqlite_broker.Text.{Bytes}
use sqlite_broker.Hammer.Rng.{seeded}
use sqlite_broker.Hammer.Rng.Live.{IsLive, seeded-IsLive}
use sqlite_broker.Hammer.Load.{
  Kind, inserts, updates, deletes, Write, Load, recorded_write, new_load, writes,
}
use sqlite_broker.Hammer.Load.Choice.{IsName, inserted, updated, deleted, IsSteady, Chosen}

-- Writes are listed with the last one first.
abbrev pub total : (Write → ℕ) → List Write → ℕ
total f [] = 0
total f (w ∷ ws) = total f ws + f w

abbrev pub first_token : List Write → Bytes
first_token [] = []
first_token (w ∷ []) = w.recorded
first_token (w ∷ v ∷ ws) = first_token (v ∷ ws)

abbrev pub last_token : List Write → Bytes
last_token [] = []
last_token (w ∷ ws) = w.recorded

-- Each write is of a step of its own: the steps fall along the list, from below this one.
abbrev pub StepsBelow : ℕ → List Write → Type 0
StepsBelow step [] = Unit
StepsBelow step (w ∷ ws) = (w.step < step) × StepsBelow w.step ws

-- After so many steps these writes were made.
pub record Tally (step : ℕ) (ws : List Write) (l : Load) : Type 0 where
  pub steady : IsSteady l
  pub executed : l.executed ≡ step
  pub all_steps : l.reads + length ws ≡ step
  pub insert_total : l.insert_count ≡ total (λ w. inserted w.kind) ws
  pub update_total : l.update_count ≡ total (λ w. updated w.kind) ws
  pub delete_total : l.delete_count ≡ total (λ w. deleted w.kind) ws
  pub sum_total : l.sum_seq ≡ total (λ w. w.step) ws
  pub first_kept : l.sample ≡ first_token ws
  pub last_kept : l.last ≡ last_token ws
  pub steps : StepsBelow step ws
  pub names : All (λ w. IsName w.recorded) ws

kind_once : (k : Kind) → inserted k + updated k + deleted k ≡ 1
kind_once inserts = refl
kind_once updates = refl
kind_once deletes = refl

kinds :
    (ws : List Write)
    → total (λ w. inserted w.kind) ws
        + total (λ w. updated w.kind) ws
        + total (λ w. deleted w.kind) ws
      ≡ length ws
kinds [] = refl
kinds (w ∷ ws) = omega (arith, kinds ws, kind_once w.kind)

pub writes-length : (step : ℕ) (ws : List Write) (l : Load) → Tally step ws l → writes l ≡ length ws
writes-length step ws l t = omega (arith, t.insert_total, t.update_total, t.delete_total, kinds ws)

steps_later : (step : ℕ) (ws : List Write) → StepsBelow step ws → StepsBelow (suc step) ws
steps_later step [] h = tt
steps_later step (w ∷ ws) h = (omega arith, h.1)

drawn-IsSteady : (rng : ℕ) (l : Load) → IsLive rng → IsSteady l → IsSteady (record l { rng = rng })
drawn-IsSteady rng l live s = record { rng = live; names = s.names; balance = s.balance }

-- A number drawn.
pub Tally-drawn :
    (step rng : ℕ) (ws : List Write) (l : Load)
    → IsLive rng
    → Tally step ws l
    → Tally step ws (record l { rng = rng })
Tally-drawn step rng ws l live t = record {
  steady = drawn-IsSteady rng l live t.steady;
  executed = t.executed;
  all_steps = t.all_steps;
  insert_total = t.insert_total;
  update_total = t.update_total;
  delete_total = t.delete_total;
  sum_total = t.sum_total;
  first_kept = t.first_kept;
  last_kept = t.last_kept;
  steps = t.steps;
  names = t.names;
}

-- A read more.
pub Tally-read :
    (step rng : ℕ) (ws : List Write) (l : Load)
    → IsLive rng
    → Tally step ws l
    → Tally (suc step) ws (record l { rng = rng; reads = l.reads + 1; executed = l.executed + 1 })
Tally-read step rng ws l live t = record {
  steady = record { rng = live; names = t.steady.names; balance = t.steady.balance };
  executed = omega (arith, t.executed);
  all_steps = omega (arith, t.all_steps);
  insert_total = t.insert_total;
  update_total = t.update_total;
  delete_total = t.delete_total;
  sum_total = t.sum_total;
  first_kept = t.first_kept;
  last_kept = t.last_kept;
  steps = steps_later step ws t.steps;
  names = t.names;
}

pub first_token-IsName :
    (w : Write) (ws : List Write)
    → All (λ v. IsName v.recorded) (w ∷ ws)
    → IsName (first_token (w ∷ ws))
first_token-IsName w [] h = h.0
first_token-IsName w (v ∷ ws) h = first_token-IsName v ws h.1

sampled :
    (w : Write) (ws : List Write) (sample : Bytes)
    → sample ≡ first_token ws
    → All (λ v. IsName v.recorded) ws
    → (if is_empty sample then w.recorded else sample) ≡ first_token (w ∷ ws)
sampled w [] sample e h = rw e
sampled w (v ∷ ws) sample e h = rw e (rw (first_token-IsName v ws h).0 refl)

-- A write more.
pub Tally-write :
    (step : ℕ) (ws : List Write) (l l' : Load) (w : Write)
    → Tally step ws l
    → Chosen step l w l'
    → Tally (suc step) (w ∷ ws) (recorded_write w l')
unfolding recorded_write
Tally-write step ws l l' w t c = record {
  steady = record { rng = c.steady.rng; names = c.steady.names; balance = c.steady.balance };
  executed = omega (arith, c.executed, t.executed);
  all_steps = omega (arith, c.reads, t.all_steps);
  insert_total = omega (arith, c.insert_more, t.insert_total);
  update_total = omega (arith, c.update_more, t.update_total);
  delete_total = omega (arith, c.delete_more, t.delete_total);
  sum_total = omega (arith, c.sum_seq, t.sum_total);
  first_kept = sampled w ws l'.sample (c.sample ∙ t.first_kept) t.names;
  last_kept = refl;
  steps = (omega (arith, c.at), subst (λ (n : ℕ). StepsBelow n ws) (sym c.at) t.steps);
  names = (c.name, t.names);
}

-- No step yet.
pub new_load-Tally : (seed : ℕ) → seed < 2 ^ 64 → Tally 0 [] (new_load seed)
unfolding seeded
new_load-Tally seed h = record {
  steady = record { rng = seeded-IsLive seed h; names = tt; balance = refl };
  executed = refl;
  all_steps = refl;
  insert_total = refl;
  update_total = refl;
  delete_total = refl;
  sum_total = refl;
  first_kept = refl;
  last_kept = refl;
  steps = tt;
  names = tt;
}
