-- ===== src/Client/Capi.antt =====
-- `Db` of server/src/capi.rs over the functions of libsqlite3 that it is linked to. A pointer is its
-- address, and null is 0.
pub mod Finalized
pub mod Rows
mod Tests
use sqlite_broker.Prelude.{
  ℕ, zero, suc, ◌==◌, ℤ, pos, negsuc, int_eq, Bool, if◌then◌else◌, List, [], ◌∷◌, ◌++◌, Option,
  none, some,
}
use sqlite_broker.Prelude.Result.{Result, ok, err}
use sqlite_broker.Text.{Bytes, codes}
use sqlite_broker.Text.Decimal.{decimal_int}
use sqlite_broker.Text.Utf8.{from_utf8}
use sqlite_broker.Broker.Statement.{c_string, c_text, sqlite_ok, sqlite_row, sqlite_done}
use sqlite_broker.Client.Program.{Action, after, ◌>>=◌, return, DbClient}

pub record Api : Type 1 where
  pub World : Type 0
  pub sqlite3_open : Bytes → World → (ℤ × ℕ) × World
  pub sqlite3_close : ℕ → World → World
  pub sqlite3_exec : ℕ → Bytes → World → ℤ × World
  pub sqlite3_prepare_v2 : ℕ → Bytes → World → (ℤ × ℕ) × World
  pub sqlite3_step : ℕ → World → ℤ × World
  pub sqlite3_finalize : ℕ → World → World
  pub sqlite3_column_count : ℕ → World → ℤ
  pub sqlite3_column_text : ℕ → ℤ → World → Option Bytes
  pub sqlite3_changes : ℕ → World → ℤ
  pub sqlite3_last_insert_rowid : ℕ → World → ℤ
  pub sqlite3_errmsg : ℕ → World → Option Bytes

-- `ok_or`, and `?` on a result.
abbrev pub from_option {ℓ} : {World : Type 0} {A : Type ℓ} → Bytes → Option A → Action World A
from_option e none w = some (err e, w)
from_option e (some a) w = some (ok a, w)

abbrev pub from_result {ℓ} : {World : Type 0} {A : Type ℓ} → Result Bytes A → Action World A
from_result r w = some (r, w)

-- `errmsg`
unfoldable pub message : Option Bytes → Bytes
message none = codes "sqlite error"
message (some text) = c_text text

-- `"{what} ({rc}): {message}"`
abbrev pub call_failure : Bytes → ℤ → Bytes → Bytes
call_failure what rc text = what ++ (codes " (" ++ (decimal_int rc ++ (codes "): " ++ text)))

-- One cell of a row: a null pointer is an empty text.
abbrev pub cell : Option Bytes → Bytes
cell none = []
cell (some text) = c_text text

-- What a query comes to.
abbrev pub QueryOutcome : Type 0 → Type 0
QueryOutcome World = Option (Result Bytes (List (List Bytes)) × World)

module _ (api : Api) where
  open api use {World}

  -- After `sqlite3_open`: where it fails and there is a handle, its message is read and it is closed.
  unfoldable pub after_open : (ℤ × ℕ) × World → Option (Result Bytes ℕ × World)
  after_open ((rc, db), w) =
      if int_eq rc sqlite_ok
      then some (ok db, w)
      else if db == 0
      then some (err (codes "sqlite3_open failed (" ++ (decimal_int rc ++ codes ")")), w)
      else some (err (message (api.sqlite3_errmsg db w)), api.sqlite3_close db w)

  -- `Db::open`
  unfoldable pub open_db : Bytes → Action World ℕ
  unfolding after_open message
  open_db path = do
    text ← from_option (codes "database path is not utf-8") (from_utf8 path)
    c_path ← from_result (c_string text)
    λ w. after_open (api.sqlite3_open c_path w)

  unfoldable pub after_exec : ℕ → ℤ × World → Option (Result Bytes (Unit {0}) × World)
  after_exec db (rc, w) =
      if int_eq rc sqlite_ok
      then some (ok tt, w)
      else some
          (err (call_failure (codes "sqlite3_exec") rc (message (api.sqlite3_errmsg db w))), w)

  -- `Db::exec`
  unfoldable pub exec_db : ℕ → Bytes → Action World (Unit {0})
  unfolding after_exec message
  exec_db db sql = do
    c_sql ← from_result (c_string sql)
    λ w. after_exec db (api.sqlite3_exec db c_sql w)

  -- The cells from `i` on, `n` of them.
  unfoldable pub column_texts : (n i stmt : ℕ) → World → List Bytes
  column_texts zero i stmt w = []
  column_texts (suc n) i stmt w =
      cell (api.sqlite3_column_text stmt (pos i) w) ∷ column_texts n (suc i) stmt w

  -- `Vec::with_capacity` panics where the count is negative.
  unfoldable pub read_texts : (stmt : ℕ) → World → ℤ → Option (List Bytes)
  unfolding column_texts
  read_texts stmt w (pos n) = some (column_texts n 0 stmt w)
  read_texts stmt w (negsuc n) = none

  -- What comes after one `sqlite3_step`; `loop` is the next round.
  unfoldable pub after_step :
      (List (List Bytes) → World → QueryOutcome World)
      → (db stmt : ℕ) → List (List Bytes)
      → ℤ × World
      → QueryOutcome World
  unfolding read_texts
  after_step loop db stmt rows (rc, w) =
      if int_eq rc sqlite_row
      then (elim (read_texts stmt w (api.sqlite3_column_count stmt w)) [
        | none ↦ none
        | some row ↦ loop (rows ++ (row ∷ [])) w
      ])
      else if int_eq rc sqlite_done
      then some (ok rows, api.sqlite3_finalize stmt w)
      else some (
        err (call_failure (codes "sqlite3_step") rc (message (api.sqlite3_errmsg db w))),
        api.sqlite3_finalize stmt w,
      )

  -- The loop of `Db::query`. How many rows a statement has is not bounded: `patience` rounds are made.
  unfoldable pub query_loop :
      (patience db stmt : ℕ) → List (List Bytes) → World → QueryOutcome World
  unfolding after_step
  query_loop zero db stmt rows w = none
  query_loop (suc patience) db stmt rows w =
      after_step (query_loop patience db stmt) db stmt rows (api.sqlite3_step stmt w)

  unfoldable pub after_prepare : (patience db : ℕ) → (ℤ × ℕ) × World → QueryOutcome World
  unfolding query_loop message
  after_prepare patience db ((rc, stmt), w) =
      if int_eq rc sqlite_ok
      then query_loop patience db stmt [] w
      else some (
        err (call_failure (codes "sqlite3_prepare_v2") rc (message (api.sqlite3_errmsg db w))),
        w,
      )

  -- `Db::query`
  unfoldable pub query : (patience db : ℕ) → Bytes → Action World (List (List Bytes))
  unfolding after_prepare
  query patience db sql = do
    c_sql ← from_result (c_string sql)
    λ w. after_prepare patience db (api.sqlite3_prepare_v2 db c_sql w)

  -- `Drop for Db`
  unfoldable pub drop_db : ℕ → World → World
  drop_db db w = if db == 0 then w else api.sqlite3_close db w

  unfoldable pub capi_client : (patience : ℕ) → DbClient
  capi_client patience = record {
    World = api.World;
    Db = ℕ;
    open_db = open_db;
    exec = exec_db;
    query = query patience;
    changes = api.sqlite3_changes;
    last_insert_rowid = api.sqlite3_last_insert_rowid;
    close = drop_db;
  }
