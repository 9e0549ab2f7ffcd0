-- ===== src/Shim/Columns.antt =====
-- The `sqlite3_column_*` functions and the other questions about a statement of shim/src/lib.rs and
-- shim/src/api.rs. How Rust turns an `f64` into an `i64`, an `i64` into an `f64` and a text into an
-- `f64` is a parameter.
use sqlite_broker.Prelude.{
  ℕ, zero, suc, ◌+◌, ◌-◌, ◌*◌, ◌%◌, ◌^◌, ◌==◌, leb, ltb, ◌&&◌, ℤ, pos, negsuc, int_eq, Bool, false,
  if◌then◌else◌, List, [], ◌∷◌, Option, none, some, length, is_empty, ◌>>=◌,
}
use sqlite_broker.Text.{Bytes, codes}
use sqlite_broker.Protocol.Message.{Cell, null, int, real, text, blob}
use sqlite_broker.Shim.State.{
  Net, ProxyDb, ProxyStmt, Shim, Reply, mine, forward, as_db, as_stmt, sqlite_row,
}
use sqlite_broker.Shim.Rows.{at, cell_at, text_ptr}
use sqlite_broker.Shim.Keyword.{keyword, is_reading}

-- `as i32`
unfoldable pub as_i32 : ℤ → ℤ
as_i32 n =
    let m : ℕ = elim n [ pos a ↦ a % 2 ^ 32 | negsuc a ↦ 2 ^ 32 - 1 - a % 2 ^ 32 ] in
    if ltb m (2 ^ 31) then pos m else negsuc (2 ^ 32 - 1 - m)

-- The number in these digits, read from the left.
unfoldable pub digits_value : ℕ → Bytes → Option ℕ
digits_value acc [] = some acc
digits_value acc (b ∷ bs) =
    let rest = digits_value (acc * 10 + (b - b'0')) bs in
    if leb b'0' b && leb b b'9' then rest else none

abbrev pub positive : ℕ → Option ℤ
positive n = if ltb n (2 ^ 63) then some (pos n) else none

abbrev pub negative : ℕ → Option ℤ
negative zero = some (pos 0)
negative (suc n) = if ltb n (2 ^ 63) then some (negsuc n) else none

abbrev pub unsigned : Bytes → Option ℕ
unsigned digits = if is_empty digits then none else digits_value 0 digits

-- `str::parse::<i64>`
unfoldable pub parse_i64 : Bytes → Option ℤ
unfolding digits_value
parse_i64 [] = none
parse_i64 (b ∷ bs) =
    if b == b'-'
    then (unsigned bs >>= negative)
    else if b == b'+'
    then (unsigned bs >>= positive)
    else (unsigned (b ∷ bs) >>= positive)

-- `f64` under Rust's conversions.
pub record Floats : Type 0 where
  pub as_i64 : ℕ → ℤ
  pub of_i64 : ℤ → ℕ
  pub parse : Bytes → Option ℕ

unfoldable pub type_of : Option Cell → ℕ
type_of none = 5
type_of (some null) = 5
type_of (some (int v)) = 1
type_of (some (real v)) = 2
type_of (some (text v)) = 3
type_of (some (blob v)) = 4

abbrev pub or_zero : Option ℤ → ℤ
or_zero none = pos 0
or_zero (some n) = n

-- The pattern of 0.0 is 0.
abbrev pub or_zero_bits : Option ℕ → ℕ
or_zero_bits none = 0
or_zero_bits (some n) = n

unfoldable pub int64_of : Floats → Option Cell → ℤ
unfolding parse_i64
int64_of floats (some (int v)) = v
int64_of floats (some (real v)) = floats.as_i64 v
int64_of floats (some (text v)) = or_zero (parse_i64 v)
int64_of floats _ = pos 0

unfoldable pub double_of : Floats → Option Cell → ℕ
double_of floats (some (real v)) = v
double_of floats (some (int v)) = floats.of_i64 v
double_of floats (some (text v)) = or_zero_bits (floats.parse v)
double_of floats _ = 0

abbrev pub length_at : List Bytes → ℤ → ℤ
length_at xs i = elim (at i xs) [ none ↦ pos 0 | some x ↦ as_i32 (pos (length x)) ]

unfoldable pub bytes_of : ProxyStmt → ℤ → Option Cell → ℤ
unfolding as_i32
bytes_of p i (some (blob v)) = length_at p.blobs i
bytes_of p i (some null) = pos 0
bytes_of p i none = pos 0
bytes_of p i (some (int v)) = length_at p.texts i
bytes_of p i (some (real v)) = length_at p.texts i
bytes_of p i (some (text v)) = length_at p.texts i

-- An empty blob has no pointer.
abbrev pub blob_at : List Bytes → ℤ → Option Bytes
blob_at xs i = (at i xs >>= λ (x : Bytes). if is_empty x then none else some x)

unfoldable pub blob_of : ProxyStmt → ℤ → Option Cell → Option Bytes
blob_of p i (some (blob v)) = blob_at p.blobs i
blob_of p i (some null) = none
blob_of p i none = none
blob_of p i (some (int v)) = text_ptr p i
blob_of p i (some (real v)) = text_ptr p i
blob_of p i (some (text v)) = text_ptr p i

unfoldable pub text_of : ProxyStmt → ℤ → Option Cell → Option Bytes
text_of p i none = none
text_of p i (some null) = none
text_of p i (some (int v)) = text_ptr p i
text_of p i (some (real v)) = text_ptr p i
text_of p i (some (text v)) = text_ptr p i
text_of p i (some (blob v)) = text_ptr p i

-- The statement behind this one on the list of its connection, or 0.
unfoldable pub following : ℕ → List ℕ → ℕ
following stmt [] = 0
following stmt (x ∷ []) = 0
following stmt (x ∷ y ∷ rest) =
    let later = following stmt (y ∷ rest) in if x == stmt then y else later

abbrev pub first : List ℕ → ℕ
first [] = 0
first (x ∷ xs) = x

module _ {net : Net} where
  -- A question about a statement of the shim; any other handle is for the real library.
  unfoldable pub ask {ℓ} : {A : Type ℓ} → Bytes → A → (ProxyStmt → A) → ℕ → Shim net → Reply A
  ask symbol missing answer stmt s = elim (as_stmt stmt s) [
    | none ↦ forward symbol missing
    | some p ↦ mine (answer p)
  ]

  unfoldable pub column_count : ℕ → Shim net → Reply ℤ
  unfolding ask as_i32
  column_count = ask (codes "sqlite3_column_count") (pos 0) λ p. as_i32 (pos (length p.columns))

  unfoldable pub column_text : ℕ → ℤ → Shim net → Reply (Option Bytes)
  unfolding ask text_of
  column_text stmt i = ask (codes "sqlite3_column_text") none (λ p. text_of p i (cell_at p i)) stmt

  unfoldable pub column_name : ℕ → ℤ → Shim net → Reply (Option Bytes)
  unfolding ask
  column_name stmt i = ask (codes "sqlite3_column_name") none (λ p. at i p.columns) stmt

  unfoldable pub column_type : ℕ → ℤ → Shim net → Reply ℕ
  unfolding ask type_of
  column_type stmt i = ask (codes "sqlite3_column_type") 5 (λ p. type_of (cell_at p i)) stmt

  unfoldable pub column_int64 : Floats → ℕ → ℤ → Shim net → Reply ℤ
  unfolding ask int64_of
  column_int64 floats stmt i =
      ask (codes "sqlite3_column_int64") (pos 0) (λ p. int64_of floats (cell_at p i)) stmt

  unfoldable pub column_double : Floats → ℕ → ℤ → Shim net → Reply ℕ
  unfolding ask double_of
  column_double floats stmt i =
      ask (codes "sqlite3_column_double") 0 (λ p. double_of floats (cell_at p i)) stmt

  unfoldable pub column_bytes : ℕ → ℤ → Shim net → Reply ℤ
  unfolding ask bytes_of
  column_bytes stmt i =
      ask (codes "sqlite3_column_bytes") (pos 0) (λ p. bytes_of p i (cell_at p i)) stmt

  unfoldable pub column_blob : ℕ → ℤ → Shim net → Reply (Option Bytes)
  unfolding ask blob_of
  column_blob stmt i = ask (codes "sqlite3_column_blob") none (λ p. blob_of p i (cell_at p i)) stmt

  unfoldable pub column_decltype : ℕ → ℤ → Shim net → Reply (Option Bytes)
  unfolding ask
  column_decltype stmt i =
      ask (codes "sqlite3_column_decltype") none
        (λ p. at i p.decltypes >>= λ (name : Option Bytes). name) stmt

  unfoldable pub data_count : ℕ → Shim net → Reply ℤ
  unfolding ask as_i32
  data_count =
      ask (codes "sqlite3_data_count") (pos 0)
        λ p. if int_eq p.last_step sqlite_row then as_i32 (pos (length p.columns)) else pos 0

  unfoldable pub stmt_busy : ℕ → Shim net → Reply Bool
  unfolding ask
  stmt_busy = ask (codes "sqlite3_stmt_busy") false λ p. int_eq p.last_step sqlite_row

  unfoldable pub stmt_readonly : ℕ → Shim net → Reply Bool
  unfolding ask keyword
  stmt_readonly = ask (codes "sqlite3_stmt_readonly") false λ p. is_reading (keyword p.sql)

  unfoldable pub db_handle : ℕ → Shim net → Reply ℕ
  unfolding ask
  db_handle = ask (codes "sqlite3_db_handle") 0 λ p. p.db

  unfoldable pub sql_text : ℕ → Shim net → Reply (Option Bytes)
  unfolding ask
  sql_text = ask (codes "sqlite3_sql") none λ p. some p.sql_c

  unfoldable pub next_stmt : ℕ → ℕ → Shim net → Reply ℕ
  unfolding following
  next_stmt db stmt s = elim (as_db db s) [
    | none ↦ forward (codes "sqlite3_next_stmt") 0
    | some d ↦ mine (if stmt == 0 then first d.stmts else following stmt d.stmts)
  ]

  -- A question about a connection.
  unfoldable pub ask_db {ℓ} : {A : Type ℓ} → Bytes → A → (ProxyDb net → A) → ℕ → Shim net → Reply A
  ask_db symbol missing answer db s = elim (as_db db s) [
    | none ↦ forward symbol missing
    | some d ↦ mine (answer d)
  ]

  unfoldable pub changes : ℕ → Shim net → Reply ℤ
  unfolding ask_db
  changes = ask_db (codes "sqlite3_changes") (pos 0) λ d. d.changes

  unfoldable pub total_changes : ℕ → Shim net → Reply ℤ
  unfolding ask_db
  total_changes = ask_db (codes "sqlite3_total_changes") (pos 0) λ d. d.total_changes

  unfoldable pub last_insert_rowid : ℕ → Shim net → Reply ℤ
  unfolding ask_db
  last_insert_rowid = ask_db (codes "sqlite3_last_insert_rowid") (pos 0) λ d. d.last_rowid

  unfoldable pub errmsg : ℕ → Shim net → Reply Bytes
  unfolding ask_db
  errmsg = ask_db (codes "sqlite3_errmsg") (codes "sqlite error") λ d. d.errmsg

  unfoldable pub errcode : ℕ → Shim net → Reply ℤ
  unfolding ask_db
  errcode = ask_db (codes "sqlite3_errcode") (pos 1) λ d. d.errcode

  unfoldable pub get_autocommit : ℕ → Shim net → Reply ℤ
  unfolding ask_db
  get_autocommit = ask_db (codes "sqlite3_get_autocommit") (pos 1) λ d. d.autocommit
