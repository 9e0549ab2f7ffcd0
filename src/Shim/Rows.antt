-- ===== src/Shim/Rows.antt =====
-- What `step_stmt` does with the rows of an executed statement, `reset`, and `cell_at`, `text_ptr` and
-- `param_index` of `ProxyStmt` in shim/src/lib.rs.
pub mod Order
pub mod Params
use sqlite_broker.Prelude.{
  ℕ, zero, suc, ◌-◌, ◌==◌, ltb, ◌||◌, ℤ, pos, int_eq, is_negative, Bool, true, false, not,
  if◌then◌else◌, List, [], ◌∷◌, ◌++◌, map, Option, none, some, length, get_elem?, is_empty,
  bytes_eq, ◌>>=◌,
}
use sqlite_broker.Text.{Bytes, codes}
use sqlite_broker.Text.Utf8.{from_utf8_lossy}
use sqlite_broker.Text.Search.{starts_with}
use sqlite_broker.Protocol.Message.{Cell, null, int, real, text, blob, Response}
use sqlite_broker.Protocol.Render.{or_empty, render, blob_bytes}
use sqlite_broker.Shim.State.{ProxyStmt, sqlite_error, sqlite_row, sqlite_done}
use sqlite_broker.Shim.Proxy.{cstring_lossy}

-- What `cache_row` pushes for one cell.
abbrev pub cell_text : (ℕ → Bytes) → Cell → Bytes
cell_text display_real (blob v) = cstring_lossy (from_utf8_lossy (or_empty (blob_bytes (blob v))))
cell_text display_real null = cstring_lossy (render display_real null)
cell_text display_real (int v) = cstring_lossy (render display_real (int v))
cell_text display_real (real v) = cstring_lossy (render display_real (real v))
cell_text display_real (text v) = cstring_lossy (render display_real (text v))

abbrev pub cell_blob : Cell → Bytes
cell_blob cell = or_empty (blob_bytes cell)

unfoldable pub cache_row : (ℕ → Bytes) → ProxyStmt → ProxyStmt
cache_row display_real p = elim (get_elem? p.rows (p.pos - 1)) [
  | none ↦ record p { texts = []; blobs = [] }
  | some row ↦ record p { texts = map (cell_text display_real) row; blobs = map cell_blob row }
]

-- An `Ok` answer to the execution is kept.
unfoldable pub fill : Response → ProxyStmt → ProxyStmt
unfolding cstring_lossy
fill resp p = record p {
  columns = if is_empty resp.columns then p.columns else map cstring_lossy resp.columns;
  rows = resp.rows;
  pos = 0;
  failed = false;
  started = true;
}

unfoldable pub break : ℤ → ProxyStmt → ProxyStmt
break code p = record p { failed = true; started = true; last_step = code }

-- The end of `step_stmt`: the next row, if there is one.
unfoldable pub next_row : (ℕ → Bytes) → ProxyStmt → ℤ × ProxyStmt
unfolding cache_row
next_row display_real p =
    if p.failed
    then ((if int_eq p.last_step (pos 0) then sqlite_error else p.last_step), p)
    else if ltb p.pos (length p.rows)
    then (
      sqlite_row,
      record (cache_row display_real (record p { pos = suc p.pos })) { last_step = sqlite_row },
    )
    else (sqlite_done, record p { last_step = sqlite_done })

-- What `sqlite3_reset` does to the statement.
unfoldable pub cleared : ProxyStmt → ProxyStmt
cleared p = record p {
  started = false;
  failed = false;
  rows = [];
  texts = [];
  blobs = [];
  pos = 0;
  last_step = pos 0;
}

-- An index below zero is not in the list.
abbrev pub at {ℓ} : {A : Type ℓ} → ℤ → List A → Option A
at (pos i) xs = get_elem? xs i
at i xs = none

unfoldable pub cell_at : ProxyStmt → ℤ → Option Cell
cell_at p index =
    if not (int_eq p.last_step sqlite_row) || ((p.pos == 0) || is_negative index)
    then none
    else (get_elem? p.rows (p.pos - 1) >>= λ row. at index row)

-- The text behind the pointer, or null.
unfoldable pub text_ptr : ProxyStmt → ℤ → Option Bytes
text_ptr p index = if is_negative index then none else at index p.texts

-- The first name that is the query, counted from `from`.
unfoldable pub name_position : Bytes → ℕ → List (Option Bytes) → Option ℕ
name_position query from [] = none
name_position query from (none ∷ names) = name_position query (suc from) names
name_position query from (some name ∷ names) =
    let later = name_position query (suc from) names in
    if bytes_eq (from_utf8_lossy name) query then some from else later

unfoldable pub prefixed_position : List Bytes → Bytes → List (Option Bytes) → ℕ
unfolding name_position
prefixed_position [] query names = 0
prefixed_position (prefix ∷ prefixes) query names =
    let later = prefixed_position prefixes query names in
    elim (name_position (prefix ++ query) 1 names) [ some i ↦ i | none ↦ later ]

abbrev pub is_prefixed : Bytes → Bool
is_prefixed query =
    starts_with (codes ":") query
    || (starts_with (codes "@") query
        || (starts_with (codes "$") query || starts_with (codes "?") query))

unfoldable pub param_index : ProxyStmt → Bytes → ℕ
unfolding name_position prefixed_position
param_index p query = elim (name_position query 1 p.param_names) [
  | some i ↦ i
  | none ↦
      if is_prefixed query
      then 0
      else prefixed_position (codes ":" ∷ codes "@" ∷ codes "$" ∷ []) query p.param_names
]
