-- ===== src/Broker/Statement.antt =====
-- `sqlite_error`, `cstr_at`, `bind_all`, `read_row` and `tail_has_sql` of server/src/broker.rs.
use sqlite_broker.Prelude.{
  ℕ, zero, suc, ◌+◌, ℤ, pos, negsuc, int_eq, at_most_zero, List, [], ◌∷◌, ◌++◌, Bool, not,
  if◌then◌else◌, Option, none, some, is_empty, take,
}
use sqlite_broker.Prelude.Result.{Result, ok, err}
use sqlite_broker.Text.{Bytes, codes}
use sqlite_broker.Text.Decimal.{decimal, decimal_int}
use sqlite_broker.Text.Search.{nul_position, until_nul}
use sqlite_broker.Text.Space.{trim}
use sqlite_broker.Text.Utf8.{from_utf8_lossy}
use sqlite_broker.Protocol.Message.{Cell, null, int, real, text, blob, Param}
use sqlite_broker.Protocol.Base64.{encode_base64, decode_base64}
use sqlite_broker.Broker.Sqlite.{
  Sqlite, Bound, bind_null, bind_int64, bind_double, bind_text, bind_blob,
}

abbrev pub sqlite_ok : ℤ
sqlite_ok = pos 0

abbrev pub sqlite_row : ℤ
sqlite_row = pos 100

abbrev pub sqlite_done : ℤ
sqlite_done = pos 101

-- `CString::new`, with the text of its error.
unfoldable pub c_string : Bytes → Result Bytes Bytes
c_string bytes = elim (nul_position 0 bytes) [
  | none ↦ ok bytes
  | some at ↦ err (codes "nul byte found in provided data at position: " ++ decimal at)
]

-- `CStr::from_ptr(..).to_string_lossy()`
abbrev pub c_text : Bytes → Bytes
c_text bytes = from_utf8_lossy (until_nul bytes)

unfoldable pub cstr_at : Option Bytes → Bytes
cstr_at none = []
cstr_at (some bytes) = c_text bytes

unfoldable pub tail_has_sql : Bytes → Bool
tail_has_sql tail = not (is_empty (trim (c_text tail)))

-- What one parameter binds, or why it cannot be bound.
unfoldable pub bound : Param → Result Bytes Bound
bound p = elim p.value [
  | null ↦ ok bind_null
  | int v ↦ ok (bind_int64 v)
  | real v ↦ ok (bind_double v)
  | text v ↦ (elim (c_string v) [ ok c ↦ ok (bind_text c) | err e ↦ err e ])
  | blob v ↦ (elim (decode_base64 v) [
    | none ↦ err (codes "bind " ++ (decimal_int p.index ++ codes " blob is not base64"))
    | some bytes ↦ ok (bind_blob (if is_empty bytes then none else some bytes))
  ])
]

module _ (db : Sqlite) where
  unfoldable pub sqlite_error : db.Conn → db.World → ℤ × Bytes
  sqlite_error conn w =
      let code = db.errcode conn w in
      (
        if int_eq code (pos 0) then pos 1 else code,
        elim (db.errmsg conn w) [ none ↦ codes "sqlite error" | some m ↦ c_text m ],
      )

  unfoldable pub bind_one :
      db.Stmt → Param → Result Bytes Bound → db.World → Result Bytes (Unit {0}) × db.World
  bind_one stmt p (err e) w = (err e, w)
  bind_one stmt p (ok b) w =
      let (rc, w') = db.bind stmt p.index b w in
      (
        if int_eq rc sqlite_ok
            then ok tt
            else err (
                codes "bind "
                ++ (decimal_int p.index ++ (codes " failed (" ++ (decimal_int rc ++ codes ")")))),
        w',
      )

  -- The first parameter that fails ends the loop.
  unfoldable pub bind_next :
      (db.World → Result Bytes (Unit {0}) × db.World)
      → Result Bytes (Unit {0}) × db.World
      → Result Bytes (Unit {0}) × db.World
  bind_next rest (err e, w) = (err e, w)
  bind_next rest (ok u, w) = rest w

  unfoldable pub bind_all : db.Stmt → List Param → db.World → Result Bytes (Unit {0}) × db.World
  unfolding bind_next
  bind_all stmt [] w = (ok tt, w)
  bind_all stmt (p ∷ ps) w = bind_next (bind_all stmt ps) (bind_one stmt p (bound p) w)

  -- The first `n` bytes at the pointer, where there are any.
  unfoldable pub blob_cell : ℤ → Option Bytes → Cell
  blob_cell n none = blob []
  blob_cell (negsuc n) (some bytes) = blob []
  blob_cell (pos n) (some bytes) =
      if at_most_zero (pos n) then blob [] else blob (encode_base64 (take n bytes))

  unfoldable pub read_cell : db.Stmt → ℕ → db.World → Cell
  unfolding blob_cell
  read_cell stmt i w =
      let kind = db.column_type stmt i w in
      if int_eq kind (pos 5)
      then null
      else if int_eq kind (pos 1)
      then int (db.column_int64 stmt i w)
      else if int_eq kind (pos 2)
      then real (db.column_double stmt i w)
      else if int_eq kind (pos 4)
      then blob_cell (db.column_bytes stmt i w) (db.column_blob stmt i w)
      else elim (db.column_text stmt i w) [ none ↦ null | some t ↦ text (c_text t) ]

  -- `for i in 0..ncols`: `left` rounds are left.
  unfoldable pub read_cells : db.Stmt → ℕ → ℕ → db.World → List Cell
  read_cells stmt zero i w = []
  read_cells stmt (suc left) i w = read_cell stmt i w ∷ read_cells stmt left (i + 1) w

  unfoldable pub read_row : db.Stmt → ℕ → db.World → List Cell
  unfolding read_cells
  read_row stmt ncols w = read_cells stmt ncols 0 w
