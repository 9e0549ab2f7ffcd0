-- ===== src/Hammer/Load.antt =====
-- `run_worker` of server/src/hammer.rs. The counters are `u32` and `u64` that count up to `ops`, a `u32`.
-- `none` is a panic, or a call of the database that does not come back.
pub mod Choice
pub mod Tally
pub mod Truth
pub mod Report
use Prim.Native.Nat.{bit_or}
use sqlite_broker.Prelude.{
  ℕ, zero, suc, ◌+◌, ◌-◌, ◌%◌, ◌<◌, ◌==◌, ltb, Bool, true, false, not, ◌&&◌, ◌||◌, if◌then◌else◌,
  List, [], ◌∷◌, ◌++◌, Option, none, some, length, get_elem?, is_empty,
}
use sqlite_broker.Prelude.Result.{Result, ok, err}
use sqlite_broker.Text.{Bytes, codes}
use sqlite_broker.Text.Decimal.{decimal}
use sqlite_broker.Client.Program.{Action, after, ◌>>=◌, ◌>>◌, return, failing, DbClient}
use sqlite_broker.Hammer.Rng.{below, seeded}
use sqlite_broker.Hammer.Statements.{
  format, fresh_name, insert_sql, update_sql, delete_sql, read_sql,
}
use sqlite_broker.Hammer.Boot.{dropping, open_ready, boot}

pub data Kind : Type 0 where
  inserts updates deletes : Kind

-- One write: the token that it records and its statement.
pub record Write : Type 0 where
  pub kind : Kind
  pub recorded : Bytes
  pub step : ℕ

-- The local variables of `run_worker`. `live` has the last name first.
pub record Load : Type 0 where
  pub rng : ℕ
  pub live : List Bytes
  pub executed : ℕ
  pub reads : ℕ
  pub insert_count : ℕ
  pub update_count : ℕ
  pub delete_count : ℕ
  pub sum_seq : ℕ
  pub sample : Bytes
  pub last : Bytes

unfoldable pub kind_sql : Kind → (worker step : ℕ) (name : Bytes) → Bytes
kind_sql inserts = insert_sql
kind_sql updates = update_sql
kind_sql deletes = delete_sql

abbrev pub write_sql : (worker : ℕ) → Write → Bytes
write_sql worker w = kind_sql w.kind worker w.step w.recorded

-- `live[i]`: the name that was pushed first has index 0, and stands last here.
abbrev pub live_name : ℕ → List Bytes → Option Bytes
live_name i live = if ltb i (length live) then get_elem? live (length live - 1 - i) else none

unfoldable pub inserting : (worker step : ℕ) → Load → Write × Load
unfolding fresh_name
inserting worker step l =
    let fresh = fresh_name worker step in
    (
      record { kind = inserts; recorded = fresh; step = step },
      record l { live = fresh ∷ l.live; insert_count = l.insert_count + 1 },
    )

-- `live.pop().unwrap()`
unfoldable pub deleting : (step : ℕ) → List Bytes → Load → Option (Write × Load)
deleting step [] l = none
deleting step (name ∷ live) l = some (
  record { kind = deletes; recorded = name; step = step },
  record l { live = live; delete_count = l.delete_count + 1 },
)

unfoldable pub updating_name : (step : ℕ) → Option Bytes → Load → Option (Write × Load)
updating_name step none l = none
updating_name step (some name) l = some (
  record { kind = updates; recorded = name; step = step },
  record l { update_count = l.update_count + 1 },
)

unfoldable pub updating : (step : ℕ) → Load → Option (Write × Load)
unfolding updating_name
updating step l =
    let (at, rng) = below l.rng (length l.live) in
    updating_name step (live_name at l.live) (record l { rng = rng })

-- The write of a step, chosen by chance, and the variables after the choice.
unfoldable pub choose_write : (worker step : ℕ) → Load → Option (Write × Load)
unfolding inserting deleting updating
choose_write worker step l =
    let (kind, rng) = below l.rng 3 in
    let l' = record l { rng = rng } in
    if kind == 0 || is_empty l.live
    then some (inserting worker step l')
    else if kind == 1
    then updating step l'
    else deleting step l'.live l'

-- The variables after a write that was executed.
unfoldable pub recorded_write : Write → Load → Load
recorded_write w l = record l {
  sample = if is_empty l.sample then w.recorded else l.sample;
  last = w.recorded;
  sum_seq = l.sum_seq + w.step;
  executed = l.executed + 1;
}

module _ (client : DbClient) where
  open client use {World, Db, exec, query, close}

  unfoldable pub write_chosen : Db → (worker : ℕ) → Option (Write × Load) → Action World Load
  unfolding recorded_write
  write_chosen db worker none = λ w. none
  write_chosen db worker (some (write, l)) =
      dropping client db (exec db (write_sql worker write)) >> return (recorded_write write l)

  unfoldable pub read_step : Db → (worker : ℕ) → Load → Action World Load
  unfolding read_sql
  read_step db worker l =
      let (choice, rng) = below l.rng 4 in
      dropping client db (query db (read_sql worker choice))
      >> return (record l { rng = rng; reads = l.reads + 1; executed = l.executed + 1 })

  -- Every 200 steps the connection is dropped and opened again.
  unfoldable pub reopened : Bytes → Db → (step : ℕ) → Action World Db
  unfolding open_ready
  reopened path db step w =
      if ltb 0 step && (step % 200 == 0)
      then open_ready client path (close db w)
      else some (ok db, w)

  unfoldable pub load_step : Db → (worker step : ℕ) → Load → Action World Load
  unfolding write_chosen read_step choose_write
  load_step db worker step l =
      let (chance, rng) = below l.rng 2 in
      let l' = record l { rng = rng } in
      if chance == 0
      then write_chosen db worker (choose_write worker step l')
      else read_step db worker l'

  -- `for step in 0..ops`, with so many steps to go.
  unfoldable pub load_loop : Bytes → (worker to_go step : ℕ) → Db → Load → Action World (Db × Load)
  unfolding load_step reopened
  load_loop path worker zero step db l = return (db, l)
  load_loop path worker (suc to_go) step db l = do
    db' ← reopened path db step
    l' ← load_step db' worker step l
    load_loop path worker to_go (suc step) db' l'

abbrev pub new_load : (seed : ℕ) → Load
new_load seed = record {
  rng = bit_or seed 1;
  live = [];
  executed = 0;
  reads = 0;
  insert_count = 0;
  update_count = 0;
  delete_count = 0;
  sum_seq = 0;
  sample = [];
  last = [];
}

-- `inserts + updates + deletes`
abbrev pub writes : Load → ℕ
writes l = l.insert_count + l.update_count + l.delete_count

-- The line that is printed.
unfoldable pub report_line : (worker ops boot_ddl ms : ℕ) → Load → Bytes
unfolding format
report_line worker ops boot_ddl ms l = format (
    codes "worker="
    ∷ decimal worker
    ∷ codes " ops="
    ∷ decimal ops
    ∷ codes " executed="
    ∷ decimal l.executed
    ∷ codes " reads="
    ∷ decimal l.reads
    ∷ codes " writes="
    ∷ decimal (writes l)
    ∷ codes " inserts="
    ∷ decimal l.insert_count
    ∷ codes " updates="
    ∷ decimal l.update_count
    ∷ codes " deletes="
    ∷ decimal l.delete_count
    ∷ codes " sum_seq="
    ∷ decimal l.sum_seq
    ∷ codes " sample="
    ∷ l.sample
    ∷ codes " last="
    ∷ l.last
    ∷ codes " boot_ddl="
    ∷ decimal boot_ddl
    ∷ codes " sql_err=0 fatal=0 ms="
    ∷ decimal ms
    ∷ [])

-- The checks after the line is printed.
unfoldable pub verdict : (worker ops : ℕ) → Load → Result Bytes (Unit {0})
unfolding format
verdict worker ops l =
    if not (l.executed == ops)
    then err (
        format (
          codes "worker "
          ∷ decimal worker
          ∷ codes " executed "
          ∷ decimal l.executed
          ∷ codes " of "
          ∷ decimal ops
          ∷ []))
    else if writes l == 0
    then err (format (codes "worker " ∷ decimal worker ∷ codes " performed no writes" ∷ []))
    else ok tt

module _ (client : DbClient) where
  open client use {World, Db, exec, query, close}

  -- The line that was printed and the result, where no call of the database failed. `ms` is what the
  -- clock says. The connection is dropped at the end.
  unfoldable pub run_worker :
      Bytes → (worker ops seed ms : ℕ) → Action World (Bytes × Result Bytes (Unit {0}))
  unfolding open_ready boot load_loop report_line verdict
  run_worker path worker ops seed ms = do
    db ← open_ready client path
    boot_ddl ← dropping client db (boot client db)
    (db', l) ← load_loop client path worker ops 0 db (new_load seed)
    λ w. some (ok (report_line worker ops boot_ddl ms l, verdict worker ops l), close db' w)
