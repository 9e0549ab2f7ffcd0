-- ===== src/Hammer/Audit.antt =====
-- `audit` of server/src/hammer.rs. The answers of /usr/bin/sqlite3 on the storage are a parameter; what is
-- printed is left out.
pub mod Accepts
pub mod Columns
pub mod Ledger
pub mod Truth
use sqlite_broker.Prelude.{
  ℕ, ◌==◌, Bool, true, false, not, ◌&&◌, if◌then◌else◌, List, [], ◌∷◌, ◌++◌, Option, none, some,
  bytes_eq, get_elem?,
}
use sqlite_broker.Prelude.Assoc
use sqlite_broker.Prelude.Assoc.{Assoc}
use sqlite_broker.Prelude.Result.{Result, ok, err, ◌>>=◌, ◌>>◌}
use sqlite_broker.Text.{Bytes, codes}
use sqlite_broker.Text.Decimal.{decimal}
use sqlite_broker.Text.Lines.{lines}
use sqlite_broker.Text.Space.{trim}
use sqlite_broker.Text.Search.{starts_with}
use sqlite_broker.Text.Unsigned.{parse_u64}
use sqlite_broker.Hammer.Statements.{format}
use sqlite_broker.Hammer.Claim.{Claim}

-- `if !test { return Err(e) }`
abbrev pub ensure : Bool → Bytes → Result Bytes (Unit {0})
ensure true e = ok tt
ensure false e = err e

abbrev pub starting : ℕ → List Bytes → List Bytes
starting b [] = (b ∷ []) ∷ []
starting b (col ∷ cols) = (b ∷ col) ∷ cols

-- `split('|')`
unfoldable pub split_columns : Bytes → List Bytes
split_columns [] = [] ∷ []
split_columns (b ∷ bs) =
    let cols = split_columns bs in if b == b'|' then [] ∷ cols else starting b cols

-- `cols.next().unwrap_or("")`, of the column at this place.
abbrev pub or_blank : Option Bytes → Bytes
or_blank none = []
or_blank (some col) = col

abbrev pub column_at : ℕ → Bytes → Bytes
column_at i text = or_blank (get_elem? (split_columns text) i)

abbrev pub in_row : Bytes → Result Bytes ℕ → Result Bytes ℕ
in_row line (ok n) = ok n
in_row line (err e) = err (format (codes "event row " ∷ line ∷ codes ": " ∷ e ∷ []))

-- The events of each worker, by their number and the sum of their steps.
unfoldable pub event_rows : List Bytes → Assoc (ℕ × ℕ) → Result Bytes (Assoc (ℕ × ℕ))
event_rows [] by_worker = ok by_worker
event_rows (line ∷ rest) by_worker = do
  worker ← in_row line (parse_u64 (column_at 0 line))
  count ← in_row line (parse_u64 (column_at 1 line))
  sum_seq ← in_row line (parse_u64 (column_at 2 line))
  event_rows rest (Assoc.insert worker (count, sum_seq) by_worker)

abbrev pub seen_sql : Bytes
seen_sql = codes "SELECT count(*) FROM pragma_table_info('item') WHERE name = 'seen';"

abbrev pub versions_sql : Bytes
versions_sql = codes "SELECT version || ':' || name FROM schema_migration ORDER BY version;"

abbrev pub events_sql : Bytes
events_sql =
    codes
      "SELECT worker, count(*), coalesce(sum(seq), 0) FROM event GROUP BY worker ORDER BY worker;"

unfoldable pub token_sql : (worker : ℕ) (token : Bytes) → Bytes
unfolding format
token_sql worker token = format (
    codes "SELECT count(*) FROM event WHERE worker = "
    ∷ decimal worker
    ∷ codes " AND token = '"
    ∷ token
    ∷ codes "'"
    ∷ [])

unfoldable pub balance_sql : (worker : ℕ) → Bytes
unfolding format
balance_sql worker = format (
    codes "SELECT (SELECT count(*) FROM event WHERE worker = "
    ∷ decimal worker
    ∷ codes " AND kind = 'insert') - (SELECT count(*) FROM event WHERE worker = "
    ∷ decimal worker
    ∷ codes " AND kind = 'delete'), (SELECT count(*) FROM item WHERE worker = "
    ∷ decimal worker
    ∷ codes ")"
    ∷ [])

-- The events that the file has, against those that the worker reported.
unfoldable pub check_count : Claim → Option (ℕ × ℕ) → Result Bytes (Unit {0})
unfolding format
check_count c none = err (
    format (
      codes "worker "
      ∷ decimal c.worker
      ∷ codes " reported "
      ∷ decimal c.writes
      ∷ codes " writes but the file has none"
      ∷ []))
check_count c (some (count, sum_seq)) = ensure ((count == c.writes) && (sum_seq == c.sum_seq)) (
    format (
      codes "worker "
      ∷ decimal c.worker
      ∷ codes " file has "
      ∷ decimal count
      ∷ codes " writes sum "
      ∷ decimal sum_seq
      ∷ codes ", process reported "
      ∷ decimal c.writes
      ∷ codes " writes sum "
      ∷ decimal c.sum_seq
      ∷ []))

-- `raw_sql` is what /usr/bin/sqlite3 prints for a text, or why it failed.
module _ (raw_sql : Bytes → Result Bytes Bytes) where
  unfoldable pub check_token : Claim → (token : Bytes) → Result Bytes (Unit {0})
  unfolding token_sql format
  check_token c token = do
    found ← raw_sql (token_sql c.worker token)
    ensure (not (bytes_eq (trim found) (codes "0"))) (
        format (
          codes "worker "
          ∷ decimal c.worker
          ∷ codes " token "
          ∷ token
          ∷ codes " is missing from the file"
          ∷ []))

  unfoldable pub check_balance : Claim → Result Bytes (Unit {0})
  unfolding balance_sql format
  check_balance c = do
    balance ← raw_sql (balance_sql c.worker)
    ensure (bytes_eq (column_at 0 (trim balance)) (column_at 1 (trim balance))) (
        format (
          codes "worker "
          ∷ decimal c.worker
          ∷ codes " item rows "
          ∷ column_at 1 (trim balance)
          ∷ codes " but inserts-deletes is "
          ∷ column_at 0 (trim balance)
          ∷ []))

  unfoldable pub audit_claim : Assoc (ℕ × ℕ) → Claim → Result Bytes (Unit {0})
  unfolding check_token check_balance check_count
  audit_claim by_worker c = do
    check_count c (Assoc.get c.worker by_worker)
    check_token c c.sample
    check_token c c.last
    check_balance c

  unfoldable pub audit_claims : Assoc (ℕ × ℕ) → List Claim → Result Bytes (Unit {0})
  unfolding audit_claim
  audit_claims by_worker [] = ok tt
  audit_claims by_worker (c ∷ cs) = (audit_claim by_worker c >>= λ x. audit_claims by_worker cs)

  -- `storage` and `stub` are what reading the two files gives.
  unfoldable pub audit : (storage stub : Result Bytes Bytes) → List Claim → Result Bytes (Unit {0})
  unfolding event_rows audit_claims
  audit storage stub claims = do
    header ← storage
    ensure (starts_with (codes "SQLite format 3") header) (codes "storage is not a SQLite file")
    stub_bytes ← stub
    ensure (starts_with (codes "SQLITEBROKER1\n") stub_bytes)
        (codes "replacement path is no longer a stub")
    integrity ← raw_sql (codes "PRAGMA integrity_check;")
    ensure (bytes_eq (trim integrity) (codes "ok")) (codes "integrity check failed: " ++ integrity)
    versions ← raw_sql versions_sql
    seen ← raw_sql seen_sql
    ensure (bytes_eq (trim seen) (codes "1"))
        (codes "ALTER column seen missing in the file: " ++ seen)
    events ← raw_sql events_sql
    by_worker ← event_rows (lines events) []
    audit_claims by_worker claims
