-- ===== src/Broker/Start.antt =====
-- `serve` of server/src/broker.rs up to the point where the worker's loop begins, and `write_stub`.
pub mod Published
mod Tests
use sqlite_broker.Prelude.{
  ℕ, not, ◌&&◌, ◌==◌, Bool, true, false, if◌then◌else◌, List, [], ◌∷◌, ◌++◌, Option, none, some,
  bytes_eq, is_empty,
}
use sqlite_broker.Prelude.Result.{Result, ok, err}
use sqlite_broker.Text.{Bytes, codes}
use sqlite_broker.Protocol.Stub.{format_stub}
use sqlite_broker.Broker.Sqlite.{Sqlite}
use sqlite_broker.Broker.Storage.{open_storage}
use sqlite_broker.Client.Program.{Action, after, ◌>>=◌, ◌>>◌, return, failing}

-- What stands at each path.
abbrev pub Files : Type 0
Files = Bytes → Option Bytes

abbrev pub put : Bytes → Option Bytes → Files → Files
put path content files at = if bytes_eq path at then content else files at

-- What the operating system does: a write that fails leaves any contents, a rename that fails none.
pub data Writing : Type 0 where
  whole : Writing
  torn : (left : Option Bytes) (message : Bytes) → Writing

pub data Moving : Type 0 where
  moved : Moving
  unmoved : (message : Bytes) → Moving

pub record Luck : Type 0 where
  pub create_dir_all : Result Bytes (Unit {0})
  pub writing : Writing
  pub moving : Moving

abbrev pub in_front : ℕ → Bytes → Option (Bytes × Bytes) → Bool → Option (Bytes × Bytes)
in_front b bs (some (front, back)) here = some (b ∷ front, back)
in_front b bs none true = some ([], bs)
in_front b bs none false = none

-- What stands in front of the last separator, and behind it.
unfoldable pub rsplit_once : ℕ → Bytes → Option (Bytes × Bytes)
rsplit_once sep [] = none
rsplit_once sep (b ∷ bs) = in_front b bs (rsplit_once sep bs) (b == sep)

abbrev pub stem_or : Bytes → Option (Bytes × Bytes) → Bytes
stem_or name none = name
stem_or name (some ([], back)) = name
stem_or name (some (c ∷ front, back)) = c ∷ front

-- `Path::file_stem` of a name.
unfoldable pub file_stem : Bytes → Bytes
unfolding rsplit_once
file_stem name = stem_or name (rsplit_once b'.' name)

-- Nothing but separators and `.` components: `bs` stands behind a separator, or behind a `.` there.
unfoldable pub is_trailing : (dotted : Bool) → Bytes → Bool
is_trailing dotted [] = true
is_trailing dotted (b ∷ bs) =
    let behind = is_trailing false bs in
    let after_dot = is_trailing true bs in
    if b == b'/' then behind else not dotted && ((b == b'.') && after_dot)

-- A path without what `Path::components` leaves out at its end.
unfoldable pub without_trailing : Bytes → Bytes
unfolding is_trailing
without_trailing [] = []
without_trailing (b ∷ bs) =
    let rest = without_trailing bs in if (b == b'/') && is_trailing false bs then [] else b ∷ rest

-- A component that names a file: not empty, `.` or `..`.
abbrev pub is_normal : Bytes → Bool
is_normal name =
    not (is_empty name) && (not (bytes_eq name (codes ".")) && not (bytes_eq name (codes "..")))

abbrev pub renamed : Bytes → (clipped : Bytes) → Option (Bytes × Bytes) → Bytes
renamed path clipped none = if is_normal clipped then file_stem clipped ++ codes ".tmp" else path
renamed path clipped (some (dir, name)) =
    if is_normal name then dir ++ (b'/' ∷ (file_stem name ++ codes ".tmp")) else path

-- `with_extension("tmp")`: a path that ends in no name stays as it is.
unfoldable pub temporary : Bytes → Bytes
unfolding rsplit_once file_stem without_trailing
temporary path = renamed path (without_trailing path) (rsplit_once b'/' (without_trailing path))

-- `path.parent()` is there and not empty.
abbrev pub has_parent : Option (Bytes × Bytes) → Bool
has_parent none = false
has_parent (some split) = true

-- `if let Some(parent) = path.parent() { .. create_dir_all(parent)?; }`
unfoldable pub create_parent : Bytes → Result Bytes (Unit {0}) → Action Files (Unit {0})
unfolding rsplit_once without_trailing
create_parent path created files =
    if has_parent (rsplit_once b'/' (without_trailing path))
    then some (created, files)
    else some (ok tt, files)

unfoldable pub write_file : Bytes → Bytes → Writing → Action Files (Unit {0})
write_file path body whole files = some (ok tt, put path (some body) files)
write_file path body (torn left message) files =
    some (err (codes "write stub: " ++ message), put path left files)

unfoldable pub rename_file : (from to : Bytes) → Moving → Action Files (Unit {0})
rename_file from to moved files = some (ok tt, put to (files from) (put from none files))
rename_file from to (unmoved message) files = some (err (codes "rename stub: " ++ message), files)

unfoldable pub write_stub : Luck → (path addr : Bytes) → Action Files (Unit {0})
unfolding create_parent write_file rename_file temporary
write_stub luck path addr = do
  create_parent path luck.create_dir_all
  write_file (temporary path) (format_stub addr) luck.writing
  rename_file (temporary path) path luck.moving

-- What the start meets besides: the storage's directory, the listening socket and its address.
pub record Met : Type 0 where
  pub storage_dir : Result Bytes (Unit {0})
  pub bound : Result Bytes (Unit {0})
  pub local_addr : Result Bytes Bytes

-- `map_err`
abbrev pub told_as {ℓ} : {A : Type ℓ} → Bytes → Result Bytes A → Action Files A
told_as what (ok a) files = some (ok a, files)
told_as what (err e) files = some (err (what ++ e), files)

abbrev pub or_else_addr : Option Bytes → Bytes → Bytes
or_else_addr none addr = addr
or_else_addr (some advertise) addr = advertise

-- `on_disk` is what the files are, where SQLite's world is this one.
module _ (db : Sqlite) (on_disk : db.World → Files → Files) where
  -- `drop(conn)`
  abbrev pub and_closed : Result Bytes db.Conn × db.World → Action Files (Unit {0})
  and_closed (ok conn, w) files = some (ok tt, on_disk (db.connection_close conn w) files)
  and_closed (err e, w) files = some (err e, on_disk w files)

  -- The address that was published, and the one that is listened on, of which the line `ready` tells.
  unfoldable pub serve :
      db.World
      → Met
      → Luck
      → (storage stub listen : Bytes) (advertise : Option Bytes) → Action Files (Bytes × Bytes)
  unfolding write_stub create_parent
  serve w met luck storage stub listen advertise = do
    create_parent storage met.storage_dir
    and_closed (open_storage db storage w)
    told_as (codes "listen " ++ (listen ++ codes ": ")) met.bound
    addr ← told_as (codes "local_addr: ") met.local_addr
    write_stub luck stub (or_else_addr advertise addr)
    return (or_else_addr advertise addr, addr)
