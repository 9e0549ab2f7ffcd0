-- ===== src/Broker/Start/Published.antt =====
-- The stub is published whole.
use sqlite_broker.Prelude.{
  ◌≡◌, refl, false, if-both, ◌++◌, Option, none, some, bytes_eq, bytes_eq_self, eq-bytes_eq, ◌⊎◌,
  inl, inr, Bool-cases,
}
use sqlite_broker.Prelude.Result.{Result, ok, err}
use sqlite_broker.Text.{Bytes, codes}
use sqlite_broker.Protocol.Stub.{format_stub, parse_stub}
use sqlite_broker.Protocol.Stub.RoundTrip.{IsAddress, parse_stub-format_stub}
use sqlite_broker.Broker.Sqlite.{Sqlite}
use sqlite_broker.Broker.Storage.{open_storage}
use sqlite_broker.Client.Program.{Action, after, ◌>>=◌, ◌>>◌, return}
use sqlite_broker.Client.Program.Post.{Post, Succeeds}
use sqlite_broker.Broker.Start.{
  Files, put, Writing, whole, torn, Moving, moved, unmoved, Luck, rsplit_once, without_trailing,
  temporary, has_parent, create_parent, write_file, rename_file, write_stub, Met, told_as,
  or_else_addr, and_closed, serve,
}

-- Where the writing succeeded, this is so.
abbrev pub Done : {A : Type 0} → Result Bytes A → Type 0 → Type 0
Done (ok a) P = P
Done (err e) P = Unit

-- At the stub's path stands what stood there or the whole stub. When the writing succeeded it is the
-- stub, and nothing stands at the temporary path. Every other path has what it had.
pub record Replaced (path addr : Bytes) (before : Files) (r : Result Bytes (Unit {0}))
    (after_ : Files) : Type 0 where
  pub either : (after_ path ≡ before path) ⊎ (after_ path ≡ some (format_stub addr))
  pub done : Done r (after_ path ≡ some (format_stub addr))
  pub gone : Done r (after_ (temporary path) ≡ none)
  pub others :
      (at : Bytes)
      → bytes_eq path at ≡ false
      → bytes_eq (temporary path) at ≡ false
      → after_ at ≡ before at

flipped : (a b : Bytes) → bytes_eq a b ≡ false → bytes_eq b a ≡ false
flipped a b h = elim (Bool-cases (bytes_eq b a)) [
  | inl same ↦ (let e = eq-bytes_eq b a same in let k = bytes_eq_self a in absurd (cc))
  | inr apart ↦ apart
]

untouched : (path addr : Bytes) (files : Files) (e : Bytes) → Replaced path addr files (err e) files
untouched path addr files e = record {
  either = inl refl;
  done = tt;
  gone = tt;
  others = λ at p t. refl;
}

rename_file-Replaced :
    (path addr : Bytes) (files : Files) (moving : Moving)
    → bytes_eq (temporary path) path ≡ false
    → Post (Replaced path addr files) (
        rename_file
          (temporary path)
          path
          moving
          (put (temporary path) (some (format_stub addr)) files))
unfolding rename_file
rename_file-Replaced path addr files moved apart =
    let there : put path (put (temporary path) (some (format_stub addr)) files (temporary path))
          (put (temporary path) none (put (temporary path) (some (format_stub addr)) files)) path
        ≡ some (format_stub addr) =
      rw (bytes_eq_self path, bytes_eq_self (temporary path)) refl in
    record {
      either = inr there;
      done = there;
      gone = rw (flipped (temporary path) path apart, bytes_eq_self (temporary path)) refl;
      others = λ at p t. rw (p, t) refl;
    }
rename_file-Replaced path addr files (unmoved message) apart = record {
  either = inl (rw apart refl);
  done = tt;
  gone = tt;
  others = λ at p t. rw t refl;
}

write_file-Replaced :
    (path addr : Bytes) (files : Files) (luck : Luck) (writing : Writing)
    → bytes_eq (temporary path) path ≡ false
    → Post (Replaced path addr files) (
        after
          (λ x. rename_file (temporary path) path luck.moving)
          (write_file (temporary path) (format_stub addr) writing files))
unfolding write_file
write_file-Replaced path addr files luck whole apart =
    rename_file-Replaced path addr files luck.moving apart
write_file-Replaced path addr files luck (torn left message) apart = record {
  either = inl (rw apart refl);
  done = tt;
  gone = tt;
  others = λ at p t. rw t refl;
}

create_parent-ok :
    {B : Type 0} (path : Bytes) (created : Result Bytes (Unit {0})) (files : Files)
    (next : Action Files B) (P : Result Bytes B → Files → Type 0)
    → Post P (next files)
    → ((e : Bytes) → P (err e) files)
    → Post P (after (λ x. next) (create_parent path created files))
unfolding create_parent
create_parent-ok path (ok x) files next P h fails =
    if-both (λ (o : Option (Result Bytes (Unit {0}) × Files)). Post P (after (λ x. next) o))
      (has_parent (rsplit_once b'/' (without_trailing path))) (λ t. h) (λ f. h)
create_parent-ok path (err e) files next P h fails =
    if-both (λ (o : Option (Result Bytes (Unit {0}) × Files)). Post P (after (λ x. next) o))
      (has_parent (rsplit_once b'/' (without_trailing path))) (λ t. fails e) (λ f. h)

-- Where the stub's path is not its own temporary path, as one in `.tmp` is: whatever the operating system does, and whichever of its
-- calls is the last, there is at the stub's path what was there before or the whole stub, and only this path
-- and the temporary one beside it are written. When `write_stub` succeeds it is the whole stub, and
-- nothing is left at the temporary path, whatever was there before.
pub write_stub-Replaced :
    (luck : Luck) (path addr : Bytes) (files : Files)
    → bytes_eq (temporary path) path ≡ false
    → Post (Replaced path addr files) (write_stub luck path addr files)
unfolding write_stub
write_stub-Replaced luck path addr files apart =
    create_parent-ok path luck.create_dir_all files _ (Replaced path addr files)
      (write_file-Replaced path addr files luck luck.writing apart) (untouched path addr files)

told-Succeeds :
    {A B : Type 0} (what : Bytes) (r : Result Bytes A) (f : A → Action Files B) (files : Files)
    (P : B → Files → Type 0)
    → ((a : A) → Post (Succeeds P) (f a files))
    → Post (Succeeds P) (after f (told_as what r files))
told-Succeeds what (ok a) f files P h = h a
told-Succeeds what (err e) f files P h = tt

-- A client that reads the stub finds the address.
abbrev pub IsPublished : (stub : Bytes) → Bytes × Bytes → Files → Type 0
IsPublished stub told files =
    (bytes : Bytes) × (files stub ≡ some bytes) × (parse_stub bytes ≡ some told.0)

published :
    (addr listened : Bytes) (path : Bytes) (files : Files)
    (o : Option (Result Bytes (Unit {0}) × Files))
    → IsAddress addr
    → Post (Replaced path addr files) o
    → Post (Succeeds (IsPublished path)) (after (λ x. return (addr, listened)) o)
published addr listened path files none is h = h
published addr listened path files (some (ok x, after_)) is h =
    (format_stub addr, h.done, parse_stub-format_stub addr is)
published addr listened path files (some (err e, after_)) is h = tt

and_closed-Succeeds :
    (db : Sqlite) (on_disk : db.World → Files → Files) {B : Type 0}
    (o : Result Bytes db.Conn × db.World) (f : Unit {0} → Action Files B) (files : Files)
    (P : B → Files → Type 0)
    → ((later : Files) → Post (Succeeds P) (f tt later))
    → Post (Succeeds P) (after f (and_closed db on_disk o files))
and_closed-Succeeds db on_disk (ok conn, w) f files P h =
    h (on_disk (db.connection_close conn w) files)
and_closed-Succeeds db on_disk (err e, w) f files P h = tt

-- When the start succeeds, and the address that is published is valid UTF-8 that is one word, there is a
-- file at the stub's path that a client reads as the address that was published, whatever SQLite did to
-- the files when the storage was opened. The stub's path is not its own temporary path, as one in
-- `.tmp` is.
pub serve-publishes :
    (db : Sqlite) (on_disk : db.World → Files → Files) (w : db.World) (met : Met) (luck : Luck)
    (storage stub listen : Bytes) (advertise : Option Bytes) (files : Files)
    → bytes_eq (temporary stub) stub ≡ false
    → ((addr : Bytes) → met.local_addr ≡ ok addr → IsAddress (or_else_addr advertise addr))
    → Post
        (Succeeds (IsPublished stub))
        (serve db on_disk w met luck storage stub listen advertise files)
unfolding serve
serve-publishes db on_disk w met luck storage stub listen advertise files apart is =
    let addressing : Action Files (Bytes × Bytes) =
      told_as (codes "local_addr: ") met.local_addr >>= λ addr.
      write_stub luck stub (or_else_addr advertise addr)
      >> return (or_else_addr advertise addr, addr) in
    let what = codes "listen " ++ (listen ++ codes ": ") in
    create_parent-ok storage met.storage_dir files _ (Succeeds (IsPublished stub))
      (and_closed-Succeeds db on_disk (open_storage db storage w)
        (λ x. told_as what met.bound >> addressing) files (IsPublished stub)
        (λ later.
          told-Succeeds what met.bound (λ y. addressing) later (IsPublished stub)
            (λ y. addressed later met.local_addr refl)))
      (λ e. tt)
  where
    addressed :
        (later : Files) (r : Result Bytes Bytes)
        → met.local_addr ≡ r
        → Post (Succeeds (IsPublished stub)) (
            after
              (λ addr.
                write_stub luck stub (or_else_addr advertise addr)
                >> return (or_else_addr advertise addr, addr))
              (told_as (codes "local_addr: ") r later))
    addressed later (err e) h = tt
    addressed later (ok addr) h =
        published (or_else_addr advertise addr) addr stub later _ (is addr h)
          (write_stub-Replaced luck stub (or_else_addr advertise addr) later apart)
