-- ===== src/Cli/Spawned.antt =====
-- What the arguments of a command line come to: those of `storm` in server/src/hammer.rs, which starts the
-- broker and the workers as programs of their own, and any sequence of statements for `call`.
use sqlite_broker.Prelude.{
  ℕ, ◌+◌, ◌*◌, ◌%◌, ◌^◌, ◌<◌, ◌≡◌, refl, ◌∙◌, arith, List, [], ◌∷◌, ◌++◌, append_assoc, append-nil,
  none, some,
}
use sqlite_broker.Prelude.Result.{ok}
use sqlite_broker.Text.{Bytes, codes}
use sqlite_broker.Text.Decimal.{decimal}
use sqlite_broker.Hammer.Claim.Words.{parse_below-decimal}
use sqlite_broker.Cli.Options.{
  read_options, serving, calling, hammering, serve_cli, call_flag, set_call, call_cli, hammer_cli,
  set_hammer, set_serve, command_line, CallOptions,
}

-- The arguments with which `storm` starts the broker.
abbrev pub serve_args : (storage stub : Bytes) → List Bytes
serve_args storage stub = codes "serve" ∷ codes "--storage" ∷ storage ∷ codes "--stub" ∷ stub ∷ []

-- The seed that it gives a worker.
abbrev pub storm_seed : (worker : ℕ) → ℕ
storm_seed worker = (0x9e3779b9 + worker * 0x1000 % 2 ^ 64) % 2 ^ 64

-- The arguments with which it starts a worker.
abbrev pub hammer_args : (stub : Bytes) (worker ops : ℕ) → List Bytes
hammer_args stub worker ops =
    codes "hammer"
    ∷ codes "--db"
    ∷ stub
    ∷ codes "--worker"
    ∷ decimal worker
    ∷ codes "--ops"
    ∷ decimal ops
    ∷ codes "--seed"
    ∷ decimal (storm_seed worker)
    ∷ []

-- The broker and the workers that `storm` starts are what it means to start: the broker on the storage
-- and the stub, listening on 127.0.0.1:0, and each worker, whose number and whose number of steps are
-- `u32`, with its number, its steps and its seed, which is a `u64`.
pub command_line-storm :
    (storage stub : Bytes) (worker ops : ℕ)
    → worker < 2 ^ 32
    → ops < 2 ^ 32
    → (command_line (serve_args storage stub)
        ≡ ok (serving storage stub (codes "127.0.0.1:0") none))
      × (command_line (hammer_args stub worker ops)
          ≡ ok (hammering stub worker ops (storm_seed worker)))
      × (storm_seed worker < 2 ^ 64)
unfolding command_line serve_cli hammer_cli read_options set_hammer set_serve
command_line-storm storage stub worker ops few small = (
  refl,
  rw
      (
        parse_below-decimal (2 ^ 64) worker (omega arith),
        parse_below-decimal (2 ^ 32) ops small,
        parse_below-decimal (2 ^ 64) (storm_seed worker) (omega arith),
      )
      refl,
  omega arith,
)

-- `--sql` in front of each statement.
abbrev pub sql_args : List Bytes → List Bytes
sql_args [] = []
sql_args (sql ∷ sqls) = codes "--sql" ∷ sql ∷ sql_args sqls

read_options-sql_args :
    (sqls more : List Bytes) (o : CallOptions)
    → read_options call_flag set_call (sql_args sqls) (record o { sqls = more })
      ≡ ok (record o { sqls = more ++ sqls })
unfolding read_options set_call
read_options-sql_args [] more o = rw (append-nil more) refl
read_options-sql_args (sql ∷ sqls) more o =
    read_options-sql_args sqls (more ++ (sql ∷ [])) o ∙ rw (append_assoc more (sql ∷ []) sqls) refl

-- A command line of `call` with one statement or more, each behind its `--sql`, asks for all of them, in
-- the order in which they stand.
pub command_line-call :
    (db_path sql : Bytes) (sqls : List Bytes)
    → command_line (codes "call" ∷ codes "--db" ∷ db_path ∷ sql_args (sql ∷ sqls))
      ≡ ok (calling db_path (sql ∷ sqls))
unfolding command_line call_cli read_options set_call
command_line-call db_path sql sqls =
    rw (read_options-sql_args sqls (sql ∷ []) (record { db_path = some db_path; sqls = [] })) refl
