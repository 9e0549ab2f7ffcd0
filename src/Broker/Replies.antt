-- ===== src/Broker/Replies.antt =====
-- `ok_closed` and `error_response` of server/src/broker.rs.
use sqlite_broker.Prelude.{ℤ, pos, Bool, true, false, []}
use sqlite_broker.Text.{Bytes}
use sqlite_broker.Protocol.Message.{Response}

unfoldable pub ok_closed : Response
ok_closed = record {
  ok = true;
  message = [];
  code = pos 0;
  columns = [];
  rows = [];
  changes = pos 0;
  last_insert_rowid = pos 0;
  autocommit = true;
  tail = 0;
  param_count = pos 0;
  param_names = [];
  decltypes = [];
  total_changes = pos 0;
  empty = false;
}

unfoldable pub error_response : Bool → ℤ → Bytes → Response
error_response autocommit code message = record {
  ok = false;
  message = message;
  code = code;
  columns = [];
  rows = [];
  changes = pos 0;
  last_insert_rowid = pos 0;
  autocommit = autocommit;
  tail = 0;
  param_count = pos 0;
  param_names = [];
  decltypes = [];
  total_changes = pos 0;
  empty = false;
}
