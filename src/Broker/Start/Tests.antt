-- ===== src/Broker/Start/Tests.antt =====
-- The start of the broker in a directory with a storage and an older stub.
use sqlite_broker.Prelude.{◌≡◌, refl, pos, true, [], if◌then◌else◌, none, some, bytes_eq}
use sqlite_broker.Prelude.Result.{ok}
use sqlite_broker.Text.{Bytes, codes}
use sqlite_broker.Text.Utf8.{valid_from}
use sqlite_broker.Text.Space.{has_space, space_len, is_ascii_space, is_wide_space}
use sqlite_broker.Protocol.Stub.RoundTrip.{IsAddress}
use sqlite_broker.Client.Program.Post.{Post, Succeeds}
use sqlite_broker.Broker.Sqlite.{Sqlite}
use sqlite_broker.Broker.Start.{
  Files, put, whole, torn, moved, Luck, rsplit_once, file_stem, is_trailing, without_trailing,
  temporary, write_stub, Met, serve,
}
use sqlite_broker.Broker.Start.Published.{
  Replaced, IsPublished, write_stub-Replaced, serve-publishes,
}

abbrev files_before : Files
files_before path =
    if bytes_eq path (codes "d/db.sqlite")
    then some (codes "old")
    else if bytes_eq path (codes "d/storage.sqlite")
    then some (codes "SQLite format 3")
    else none

abbrev lucky : Luck
lucky = record { create_dir_all = ok tt; writing = whole; moving = moved }

abbrev disk_full : Luck
disk_full = record lucky { writing = torn (some (codes "SQL")) (codes "no space") }

temporaries :
    (temporary (codes "d/db.sqlite") ≡ codes "d/db.tmp")
    × (temporary (codes "d.x/db") ≡ codes "d.x/db.tmp")
    × (temporary (codes ".db") ≡ codes ".db.tmp")
    × (temporary (codes "db.tmp") ≡ codes "db.tmp")
    × (temporary (codes "d.x/db.sqlite/./") ≡ codes "d.x/db.tmp")
    × (temporary (codes "d.x/..") ≡ codes "d.x/..")
    × (temporary (codes "./") ≡ codes "./")
    × (temporary (codes "d/...") ≡ codes "d/...tmp")
unfolding temporary rsplit_once file_stem without_trailing is_trailing
temporaries = (refl, refl, refl, refl, refl, refl, refl, refl)

abbrev stub_path : Bytes
stub_path = codes "d/db.sqlite"

abbrev address : Bytes
address = codes "127.0.0.1:4000"

write_stub-Replaced_example :
    Post
      (Replaced stub_path address files_before)
      (write_stub disk_full stub_path address files_before)
unfolding temporary rsplit_once file_stem without_trailing is_trailing
write_stub-Replaced_example = write_stub-Replaced disk_full stub_path address files_before refl

address-IsAddress : IsAddress address
unfolding valid_from has_space space_len is_ascii_space is_wide_space
address-IsAddress = record { valid = refl; filled = refl; one_word = refl }

abbrev met : Met
met = record { storage_dir = ok tt; bound = ok tt; local_addr = ok (codes "0.0.0.0:4000") }

-- A SQLite that opens every path, and has no statements; its world is the path that it opened.
abbrev opens_all : Sqlite
opens_all = record {
  Conn = Unit {0};
  Stmt = Unit {0};
  World = Bytes;
  connection_open = λ path w. (ok tt, path);
  busy_timeout = λ ms conn w. (ok tt, w);
  connection_close = λ conn w. w;
  is_autocommit = λ conn w. true;
  changes = λ conn w. pos 0;
  total_changes = λ conn w. pos 0;
  last_insert_rowid = λ conn w. pos 0;
  errcode = λ conn w. pos 0;
  errmsg = λ conn w. none;
  prepare_v2 = λ conn sql w. (record { rc = pos 0; stmt = none; tail = none }, w);
  bind = λ stmt index b w. (pos 0, w);
  step = λ stmt w. (pos 101, w);
  finalize = λ stmt w. w;
  column_count = λ stmt w. 0;
  column_name = λ stmt i w. none;
  column_decltype = λ stmt i w. none;
  bind_parameter_count = λ stmt w. 0;
  bind_parameter_name = λ stmt i w. none;
  column_type = λ stmt i w. pos 5;
  column_int64 = λ stmt i w. pos 0;
  column_double = λ stmt i w. 0;
  column_bytes = λ stmt i w. pos 0;
  column_blob = λ stmt i w. none;
  column_text = λ stmt i w. none;
}

-- The opened file is there.
abbrev created : Bytes → Files → Files
created path files = put path (some (codes "SQLite format 3")) files

serve-publishes_example : Post (Succeeds (IsPublished stub_path)) (
    serve opens_all created [] met lucky
      (codes "d/storage.sqlite")
      stub_path
      (codes "0.0.0.0:4000")
      (some address)
      files_before)
unfolding temporary rsplit_once file_stem without_trailing is_trailing
serve-publishes_example =
    serve-publishes opens_all created [] met lucky (codes "d/storage.sqlite") stub_path
      (codes "0.0.0.0:4000") (some address) files_before refl (λ addr h. address-IsAddress)
