-- ===== src/Cli/Tests.antt =====
-- The command line on small inputs.
use sqlite_broker.Prelude.{
  ℕ, ◌+◌, ◌^◌, ◌<◌, ltb, ◌≡◌, refl, arith, pos, true, false, if◌then◌else◌, List, [], ◌∷◌, ◌++◌,
  Option, none, some,
}
use sqlite_broker.Prelude.Result.{Result, ok, err}
use sqlite_broker.Text.{Bytes, codes, join}
use sqlite_broker.Text.Decimal.{decimal, decimal_loop, decimal_int}
use sqlite_broker.Text.Space.{trim, trim_front, trim_back, space_len, is_ascii_space, is_wide_space}
use sqlite_broker.Text.Search.{
  strip_prefix, starts_with, split_once, to_ascii_uppercase, is_char_boundary,
}
use sqlite_broker.Client.Program.{DbClient}
use sqlite_broker.Hammer.Statements.{format}
use sqlite_broker.Cli.Options.{serving, calling, hammering, command_line}
use sqlite_broker.Cli.Spawned.{
  serve_args, storm_seed, hammer_args, sql_args, command_line-storm, command_line-call,
}
use sqlite_broker.Cli.Query.{is_query, is_query_head, skip_comments, after_comment}
use sqlite_broker.Cli.Query.Comments.{is_query-comment}
use sqlite_broker.Cli.Run.{
  Ending, done_line, row_line, emit_line, emit_lines, exec_command, query_command, session_line,
  session_loop, session, Screen,
}
use sqlite_broker.Cli.Run.Written.{Spoken}
use sqlite_broker.Cli.Run.Spoken.{session-Dialogue}

command_line-storm_example :
    (command_line (serve_args (codes "s.sqlite") (codes "d.sqlite"))
      ≡ ok (serving (codes "s.sqlite") (codes "d.sqlite") (codes "127.0.0.1:0") none))
    × (command_line (hammer_args (codes "d.sqlite") 3 1000)
        ≡ ok (hammering (codes "d.sqlite") 3 1000 (storm_seed 3)))
    × (storm_seed 3 < 2 ^ 64)
command_line-storm_example =
    command_line-storm (codes "s.sqlite") (codes "d.sqlite") 3 1000 (omega arith) (omega arith)

command_line-call_example :
    command_line (codes "call" ∷ codes "--db" ∷ codes "d" ∷ sql_args (codes "a" ∷ codes "b" ∷ []))
    ≡ ok (calling (codes "d") (codes "a" ∷ codes "b" ∷ []))
command_line-call_example = command_line-call (codes "d") (codes "a") (codes "b" ∷ [])

is_query-comment_example :
    is_query (b'-' ∷ b'-' ∷ (codes " all" ++ (10 ∷ codes "select 1"))) ≡ is_query (codes "select 1")
is_query-comment_example =
    is_query-comment (codes " all") (codes "select 1") (refl, (refl, (refl, (refl, tt))))

-- A database whose world is the number of statements that were run. A statement fails where it is the
-- third or a later one, and else it changes as many rows as were run, and has one row.
abbrev one_row_client : DbClient
one_row_client = record {
  World = ℕ;
  Db = ℕ;
  open_db = λ path w. some (ok 1, w);
  exec = λ db sql w. some (if ltb w 3 then ok tt else err (codes "late"), w + 1);
  query = λ db sql w. some (ok ((codes "1" ∷ []) ∷ []), w + 1);
  changes = λ db w. pos w;
  last_insert_rowid = λ db w. pos 7;
  close = λ db w. w;
}

abbrev console : List Bytes → Bytes → Result Bytes (Unit {0})
console output line = ok tt

abbrev lines_read : List (Result Bytes Bytes)
lines_read =
    ok (codes "HOLD") ∷ ok (codes "GO ") ∷ ok (codes "EXEC X") ∷ ok [] ∷ ok (codes "QUERY Y") ∷ []

abbrev fresh_screen : Screen one_row_client console
fresh_screen = record { world = 0; output = [] }

session-Dialogue_example :
    Spoken one_row_client console
      (λ output line. refl)
      1
      lines_read
      0
      (codes "READY" ∷ [])
      (session one_row_client console (codes "d") lines_read fresh_screen)
session-Dialogue_example =
    session-Dialogue one_row_client console (λ output line. refl) (λ db sql w. tt) (λ db sql w. tt)
      (codes "d") lines_read fresh_screen 1 0 refl

abbrev lines_of : Option (Result Bytes Ending × Screen one_row_client console) → List Bytes
lines_of none = []
lines_of (some (r, s)) = s.output

session_lines :
    lines_of (session one_row_client console (codes "d") lines_read fresh_screen)
    ≡ codes "READY"
      ∷ codes "HOLDING"
      ∷ codes "START"
      ∷ codes "OK changes=1 rowid=7"
      ∷ codes "START"
      ∷ codes "ROW 1"
      ∷ codes "END"
      ∷ []
unfolding session session_loop session_line exec_command query_command emit_line emit_lines
    done_line row_line format decimal_int decimal decimal_loop join trim trim_front trim_back
    space_len is_ascii_space is_wide_space strip_prefix
session_lines = refl

query_heads :
    (is_query (codes "  -- x\n with t as (select 1) select 2") ≡ true)
    × (is_query (codes "insert 1") ≡ false)
unfolding is_query skip_comments after_comment is_query_head split_once trim_front space_len
    is_ascii_space is_wide_space starts_with to_ascii_uppercase is_char_boundary
query_heads = (refl, refl)
