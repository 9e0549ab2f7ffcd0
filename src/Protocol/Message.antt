-- ===== src/Protocol/Message.antt =====
-- protocol/src/lib.rs: cells, parameters, requests and responses. An `f64` is its 64-bit pattern.
use sqlite_broker.Prelude.{ℕ, ℤ, Bool, List, Option}
use sqlite_broker.Text.{Bytes}

-- `blob` holds the base64 text of the bytes.
pub data Cell : Type 0 where
  null : Cell
  int : ℤ → Cell
  real : ℕ → Cell
  text blob : Bytes → Cell

pub record Param : Type 0 where
  pub index : ℤ
  pub value : Cell

pub record Hello : Type 0 where
  pub ok : Bool
  pub session : ℕ
  pub error : Option Bytes

pub data Request : Type 0 where
  exec : (sql : Bytes) (params : List Param) → Request
  prepare : (sql : Bytes) → Request
  close : Request

pub record Response : Type 0 where
  pub ok : Bool
  pub message : Bytes
  pub code : ℤ
  pub columns : List Bytes
  pub rows : List (List Cell)
  pub changes : ℤ
  pub last_insert_rowid : ℤ
  pub autocommit : Bool
  pub tail : ℕ
  pub param_count : ℤ
  pub param_names : List Bytes
  pub decltypes : List Bytes
  pub total_changes : ℤ
  pub empty : Bool
