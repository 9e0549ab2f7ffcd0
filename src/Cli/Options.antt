-- ===== src/Cli/Options.antt =====
-- The arguments: `dispatch`, `serve_cli`, `call_cli` and `session_cli` of server/src/main.rs up to the point
-- where they start, `hammer_cli` and `storm_cli` of server/src/hammer.rs.
use Prim.Native.Nat.{bit_xor}
use sqlite_broker.Prelude.{
  ℕ, ◌*◌, ◌%◌, ◌^◌, Bool, ◌||◌, if◌then◌else◌, List, [], ◌∷◌, ◌++◌, Option, none, some, bytes_eq,
  is_empty,
}
use sqlite_broker.Prelude.Result.{Result, ok, err, ◌>>=◌}
use sqlite_broker.Text.{Bytes, codes}
use sqlite_broker.Text.Unsigned.{parse_u64, parse_u32}

-- `while let Some(arg) = args.next()`: a known flag takes the next argument as its value.
unfoldable pub read_options :
    {O : Type 0}
    → (Bytes → Bool)
    → (Bytes → Bytes → O → Result Bytes O)
    → List Bytes
    → O
    → Result Bytes O
read_options known set [] o = ok o
read_options known set (arg ∷ []) o =
    if known arg
    then err (codes "missing value for " ++ arg)
    else err (codes "unknown argument " ++ arg)
read_options known set (arg ∷ value ∷ rest) o =
    if known arg
    then (set arg value o >>= read_options known set rest)
    else err (codes "unknown argument " ++ arg)

-- `ok_or`
abbrev pub required {ℓ} : {A : Type ℓ} → Bytes → Option A → Result Bytes A
required e none = err e
required e (some a) = ok a

-- What the program is asked to do.
pub data Command : Type 0 where
  serving : (storage stub listen : Bytes) (advertise : Option Bytes) → Command
  calling : (db_path : Bytes) (sqls : List Bytes) → Command
  in_session : (db_path : Bytes) → Command
  hammering : (db_path : Bytes) (worker ops seed : ℕ) → Command
  storming : (apps ops : ℕ) (dir : Option Bytes) → Command
  showing_version : Command
  showing_usage : Command

pub record ServeOptions : Type 0 where
  pub storage : Option Bytes
  pub stub : Option Bytes
  pub listen : Bytes
  pub advertise : Option Bytes

abbrev pub serve_flag : Bytes → Bool
serve_flag flag =
    bytes_eq flag (codes "--storage")
    || (bytes_eq flag (codes "--stub")
        || (bytes_eq flag (codes "--listen") || bytes_eq flag (codes "--advertise")))

unfoldable pub set_serve : (flag value : Bytes) → ServeOptions → Result Bytes ServeOptions
set_serve flag value o =
    if bytes_eq flag (codes "--storage")
    then ok (record o { storage = some value })
    else if bytes_eq flag (codes "--stub")
    then ok (record o { stub = some value })
    else if bytes_eq flag (codes "--listen")
    then ok (record o { listen = value })
    else ok (record o { advertise = some value })

unfoldable pub serve_cli : List Bytes → Result Bytes Command
unfolding read_options set_serve
serve_cli args = do
  o ←
      read_options serve_flag set_serve args
        (record { storage = none; stub = none; listen = codes "127.0.0.1:0"; advertise = none })
  storage ← required (codes "missing --storage") o.storage
  stub ← required (codes "missing --stub") o.stub
  ok (serving storage stub o.listen o.advertise)

pub record CallOptions : Type 0 where
  pub db_path : Option Bytes
  pub sqls : List Bytes

abbrev pub call_flag : Bytes → Bool
call_flag flag = bytes_eq flag (codes "--db") || bytes_eq flag (codes "--sql")

unfoldable pub set_call : (flag value : Bytes) → CallOptions → Result Bytes CallOptions
set_call flag value o =
    if bytes_eq flag (codes "--db")
    then ok (record o { db_path = some value })
    else ok (record o { sqls = o.sqls ++ (value ∷ []) })

unfoldable pub call_cli : List Bytes → Result Bytes Command
unfolding read_options set_call
call_cli args = do
  o ← read_options call_flag set_call args (record { db_path = none; sqls = [] })
  db_path ← required (codes "missing --db") o.db_path
  if is_empty o.sqls then err (codes "missing --sql") else ok (calling db_path o.sqls)

unfoldable pub session_cli : List Bytes → Result Bytes Command
unfolding read_options
session_cli args = do
  o ← read_options (bytes_eq (codes "--db")) (λ flag value o. ok (some value)) args none
  db_path ← required (codes "missing --db") o
  ok (in_session db_path)

pub record HammerOptions : Type 0 where
  pub db : Option Bytes
  pub worker : Option ℕ
  pub ops : ℕ
  pub seed : Option ℕ

abbrev pub hammer_flag : Bytes → Bool
hammer_flag flag =
    bytes_eq flag (codes "--db")
    || (bytes_eq flag (codes "--worker")
        || (bytes_eq flag (codes "--ops") || bytes_eq flag (codes "--seed")))

unfoldable pub set_hammer : (flag value : Bytes) → HammerOptions → Result Bytes HammerOptions
set_hammer flag value o =
    if bytes_eq flag (codes "--db")
    then ok (record o { db = some value })
    else if bytes_eq flag (codes "--worker")
    then (parse_u64 value >>= λ n. ok (record o { worker = some n }))
    else if bytes_eq flag (codes "--ops")
    then (parse_u32 value >>= λ n. ok (record o { ops = n }))
    else (parse_u64 value >>= λ n. ok (record o { seed = some n }))

-- The seed of a worker that is given none.
abbrev pub seed_of : (worker : ℕ) → Option ℕ → ℕ
seed_of worker none = bit_xor 0xa5a55a5a (worker * 0x9e37 % 2 ^ 64)
seed_of worker (some seed) = seed

unfoldable pub hammer_cli : List Bytes → Result Bytes Command
unfolding read_options set_hammer
hammer_cli args = do
  o ←
      read_options hammer_flag set_hammer args
        (record { db = none; worker = none; ops = 1000; seed = none })
  db ← required (codes "missing --db") o.db
  worker ← required (codes "missing --worker") o.worker
  ok (hammering db worker o.ops (seed_of worker o.seed))

pub record StormOptions : Type 0 where
  pub apps : ℕ
  pub ops : ℕ
  pub dir : Option Bytes

abbrev pub storm_flag : Bytes → Bool
storm_flag flag =
    bytes_eq flag (codes "--apps")
    || (bytes_eq flag (codes "--ops") || bytes_eq flag (codes "--dir"))

unfoldable pub set_storm : (flag value : Bytes) → StormOptions → Result Bytes StormOptions
set_storm flag value o =
    if bytes_eq flag (codes "--apps")
    then (parse_u32 value >>= λ n. ok (record o { apps = n }))
    else if bytes_eq flag (codes "--ops")
    then (parse_u32 value >>= λ n. ok (record o { ops = n }))
    else ok (record o { dir = some value })

unfoldable pub storm_cli : List Bytes → Result Bytes Command
unfolding read_options set_storm
storm_cli args = do
  o ← read_options storm_flag set_storm args (record { apps = 10; ops = 1000; dir = none })
  ok (storming o.apps o.ops o.dir)

abbrev pub usage : Bytes
usage =
    codes
      "usage:\n  sqlite-broker serve --storage FILE --stub FILE [--listen ADDR] [--advertise HOST:PORT]\n  sqlite-broker call --db FILE --sql SQL [--sql SQL ...]\n  sqlite-broker session --db FILE\n  sqlite-broker hammer --db FILE --worker N [--ops 1000] [--seed N]\n  sqlite-broker storm [--apps 10] [--ops 1000] [--dir PATH]\n  sqlite-broker version"

-- Over the arguments without the program's name.
unfoldable pub command_line : List Bytes → Result Bytes Command
unfolding serve_cli call_cli session_cli hammer_cli storm_cli
command_line [] = err (codes "missing command\n" ++ usage)
command_line (name ∷ args) =
    if bytes_eq name (codes "serve")
    then serve_cli args
    else if bytes_eq name (codes "call")
    then call_cli args
    else if bytes_eq name (codes "session")
    then session_cli args
    else if bytes_eq name (codes "hammer")
    then hammer_cli args
    else if bytes_eq name (codes "storm")
    then storm_cli args
    else if bytes_eq name (codes "version")
        || (bytes_eq name (codes "--version") || bytes_eq name (codes "-V"))
    then ok showing_version
    else if bytes_eq name (codes "-h") || bytes_eq name (codes "--help")
    then ok showing_usage
    else err (codes "unknown command " ++ (name ++ (codes "\n" ++ usage)))
