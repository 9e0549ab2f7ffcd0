-- ===== src/Shim/Bind.antt =====
-- `upsert_param`, `release_destructor` and the `sqlite3_bind_*` functions of shim/src/lib.rs, and
-- `sqlite3_bind_zeroblob`, `sqlite3_clear_bindings` and the functions on parameters of shim/src/api.rs.
pub mod Effect
use sqlite_broker.Prelude.{
  ℕ, zero, suc, ◌*◌, ltb, ◌||◌, ◌&&◌, ◌==◌, ℤ, pos, int_eq, is_negative, at_most_zero, Bool, true,
  false, not, if◌then◌else◌, List, [], ◌∷◌, Option, none, some, take, is_empty,
}
use sqlite_broker.Text.{Bytes, codes}
use sqlite_broker.Text.Utf8.{from_utf8_lossy}
use sqlite_broker.Text.Search.{until_nul}
use sqlite_broker.Protocol.Message.{Cell, null, int, real, text, blob, Param}
use sqlite_broker.Protocol.Base64.{encode_base64}
use sqlite_broker.Shim.State.{
  Net, ProxyStmt, Shim, Reply, mine, forward, as_stmt, put_stmt, sqlite_ok, sqlite_error,
  sqlite_toobig, sqlite_misuse,
}
use sqlite_broker.Shim.Rows.{at, param_index}
use sqlite_broker.Shim.Statement.{sql_from}

-- `upsert_param`, on the parameters of the statement.
unfoldable pub upsert : ℤ → Cell → List Param → List Param
upsert index value [] = record { index = index; value = value } ∷ []
upsert index value (p ∷ ps) =
    let rest = upsert index value ps in
    if int_eq p.index index then record p { value = value } ∷ ps else p ∷ rest

abbrev pub upsert_param : ProxyStmt → ℤ → Cell → ProxyStmt
upsert_param p index value = record p { params = upsert index value p.params }

-- What a bind function answers, whether it runs the destructor, and the statement after it.
pub record Binding : Type 0 where
  pub rc : ℤ
  pub released : Bool
  pub after : ProxyStmt

-- `release_destructor`: does it run? `SQLITE_STATIC` is 0 and `SQLITE_TRANSIENT` is -1.
unfoldable pub release_destructor : ℤ → Option Bytes → Bool
release_destructor dtor none = false
release_destructor (pos n) (some value) = not (n == 0)
release_destructor dtor (some value) = not (int_eq dtor (ℤ.negsuc 0))

abbrev pub not_bound : ℤ → ProxyStmt → Binding
not_bound code p = record { rc = code; released = false; after = p }

abbrev pub is_closed_to : ProxyStmt → ℤ → Bool
is_closed_to p index = p.started || at_most_zero index

-- `sqlite3_bind_double`, `sqlite3_bind_int64`, `sqlite3_bind_int`, `sqlite3_bind_null` bind this value.
unfoldable pub bind_value : ℤ → Cell → ProxyStmt → Binding
bind_value index value p =
    if is_closed_to p index
    then not_bound sqlite_misuse p
    else record { rc = sqlite_ok; released = false; after = upsert_param p index value }

abbrev pub text_value : Option Bytes → ℤ → Cell
text_value none n = null
text_value (some value) n = text (sql_from (some value) n)

unfoldable pub bind_text : ℤ → Option Bytes → ℤ → ℤ → ProxyStmt → Binding
unfolding release_destructor
bind_text index value n dtor p =
    if is_closed_to p index then not_bound sqlite_misuse p else record {
      rc = sqlite_ok;
      released = release_destructor dtor value;
      after = upsert_param p index (text_value value n);
    }

abbrev pub blob_value : Option Bytes → ℤ → Bytes
blob_value (some value) (pos n) = take n value
blob_value value n = []

abbrev pub is_missing : Option Bytes → ℤ → Bool
is_missing none n = not (at_most_zero n)
is_missing (some value) n = false

unfoldable pub bind_blob : ℤ → Option Bytes → ℤ → ℤ → ProxyStmt → Binding
unfolding release_destructor
bind_blob index value n dtor p =
    if is_closed_to p index
    then not_bound sqlite_misuse p
    else if is_missing value n
    then not_bound sqlite_misuse p
    else if is_negative n
    then record { rc = sqlite_toobig; released = release_destructor dtor value; after = p }
    else record {
      rc = sqlite_ok;
      released = release_destructor dtor value;
      after = upsert_param p index (blob (encode_base64 (blob_value value n)));
    }

-- `vec![0u8; n]`
abbrev pub zeros : ℕ → Bytes
zeros zero = []
zeros (suc n) = 0 ∷ zeros n

abbrev pub max_zeroblob : ℕ
max_zeroblob = 8 * 1024 * 1024

unfoldable pub bind_zeroblob : ℤ → ℤ → ProxyStmt → Binding
bind_zeroblob index (pos n) p =
    if is_closed_to p index
    then not_bound sqlite_misuse p
    else if ltb max_zeroblob n
    then not_bound sqlite_toobig p
    else record {
      rc = sqlite_ok;
      released = false;
      after = upsert_param p index (blob (encode_base64 (zeros n)));
    }
bind_zeroblob index n p =
    if is_closed_to p index then not_bound sqlite_misuse p else not_bound sqlite_toobig p

-- `sqlite3_clear_bindings`, whether the statement has started or not.
unfoldable pub clear_bindings : ProxyStmt → Binding
clear_bindings p = record { rc = sqlite_ok; released = false; after = record p { params = [] } }

-- The calls that change the parameters of a statement.
pub data BindCall : Type 0 where
  double : (index : ℤ) (value : ℕ) → BindCall
  int64 : (index value : ℤ) → BindCall
  null_at : (index : ℤ) → BindCall
  text_at : (index : ℤ) (value : Option Bytes) (n dtor : ℤ) → BindCall
  blob_at : (index : ℤ) (value : Option Bytes) (n dtor : ℤ) → BindCall
  zeroblob : (index n : ℤ) → BindCall
  clear : BindCall

unfoldable pub bind : BindCall → ProxyStmt → Binding
bind (double index value) p = bind_value index (real value) p
bind (int64 index value) p = bind_value index (int value) p
bind (null_at index) p = bind_value index null p
bind (text_at index value n dtor) p = bind_text index value n dtor p
bind (blob_at index value n dtor) p = bind_blob index value n dtor p
bind (zeroblob index n) p = bind_zeroblob index n p
bind clear p = clear_bindings p

abbrev pub bind_symbol : BindCall → Bytes
bind_symbol (double index value) = codes "sqlite3_bind_double"
bind_symbol (int64 index value) = codes "sqlite3_bind_int64"
bind_symbol (null_at index) = codes "sqlite3_bind_null"
bind_symbol (text_at index value n dtor) = codes "sqlite3_bind_text"
bind_symbol (blob_at index value n dtor) = codes "sqlite3_bind_blob"
bind_symbol (zeroblob index n) = codes "sqlite3_bind_zeroblob"
bind_symbol clear = codes "sqlite3_clear_bindings"

-- `names[index - 1]`, where `index` is positive.
abbrev pub name_at : List (Option Bytes) → ℤ → Option Bytes
name_at names (pos (suc i)) = elim (at (pos i) names) [ none ↦ none | some name ↦ name ]
name_at names index = none

abbrev pub index_of : ProxyStmt → Option Bytes → ℤ
index_of p none = pos 0
index_of p (some name) = pos (param_index p (from_utf8_lossy (until_nul name)))

module _ {net : Net} where
  unfoldable pub bind_registered :
      BindCall → ℕ → Option ProxyStmt → Shim net → Reply ℤ × Bool × Shim net
  unfolding bind
  bind_registered c stmt none s = (forward (bind_symbol c) sqlite_error, false, s)
  bind_registered c stmt (some p) s =
      let b = bind c p in (mine b.rc, b.released, put_stmt stmt b.after s)

  -- The exported function of the call: its answer, and whether it runs the destructor.
  unfoldable pub bind_stmt : BindCall → ℕ → Shim net → Reply ℤ × Bool × Shim net
  unfolding bind_registered
  bind_stmt c stmt s = bind_registered c stmt (as_stmt stmt s) s

  unfoldable pub bind_parameter_count : ℕ → Shim net → Reply ℤ
  bind_parameter_count stmt s = elim (as_stmt stmt s) [
    | none ↦ forward (codes "sqlite3_bind_parameter_count") (pos 0)
    | some p ↦ mine p.param_count
  ]

  unfoldable pub bind_parameter_name : ℕ → ℤ → Shim net → Reply (Option Bytes)
  bind_parameter_name stmt index s = elim (as_stmt stmt s) [
    | none ↦ forward (codes "sqlite3_bind_parameter_name") none
    | some p ↦ mine (name_at p.param_names index)
  ]

  unfoldable pub bind_parameter_index : ℕ → Option Bytes → Shim net → Reply ℤ
  bind_parameter_index stmt name s = elim (as_stmt stmt s) [
    | none ↦ forward (codes "sqlite3_bind_parameter_index") (pos 0)
    | some p ↦ mine (index_of p name)
  ]
