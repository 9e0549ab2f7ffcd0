-- ===== src/Hammer/Tests.antt =====
-- The load generator against a database that makes every transaction.
use sqlite_broker.Prelude.{
  ◌≢◌, true, bytes_eq, ℕ, ◌<◌, ◌≡◌, refl, arith, pos, if◌then◌else◌, List, [], ◌∷◌, some,
}
use sqlite_broker.Prelude.Assoc
use sqlite_broker.Prelude.Result.{Result, ok, err}
use sqlite_broker.Text.{Bytes, codes}
use sqlite_broker.Text.Search.{starts_with}
use sqlite_broker.Client.Program.{DbClient}
use sqlite_broker.Client.Program.Post.{Post, Succeeds}
use sqlite_broker.Text.Lines.{lines, lines_from}
use sqlite_broker.Text.Unsigned.{parse_below, parse_digits}
use sqlite_broker.Text.Decimal.{decimal, decimal_loop}
use sqlite_broker.Text.Space.{trim, trim_front, trim_back, space_len, is_ascii_space, is_wide_space}
use sqlite_broker.Hammer.Audit.{
  audit, audit_claims, audit_claim, check_count, check_token, check_balance, event_rows,
  split_columns, token_sql, balance_sql, events_sql,
}
use sqlite_broker.Hammer.Audit.Ledger.{
  Ledger, number, of_worker, is_in, IsTruthful, IsAnswered, IsInOrder,
}
use sqlite_broker.Hammer.Audit.Truth.{audit_truth}
use sqlite_broker.Hammer.Rng.{below}
use sqlite_broker.Hammer.Rng.Live.{IsLive, drawn, drawn-IsLive}
use sqlite_broker.Hammer.Claim.{Claim, empty_claim, parse_claim}
use sqlite_broker.Hammer.Claim.RoundTrip.{claimed, parse_claim-report_line}
use sqlite_broker.Hammer.Statements.{begin_immediate, format}
use sqlite_broker.Hammer.Journal.{Journals}
use sqlite_broker.Hammer.Load.{
  Load, inserts, choose_write, recorded_write, new_load, report_line, run_worker,
}
use sqlite_broker.Hammer.Load.Choice.{Chooses, choose_write-Chosen}
use sqlite_broker.Hammer.Load.Tally.{new_load-Tally}
use sqlite_broker.Hammer.Load.Report.{Told, run_worker-Told}

-- Its world is its journal.
abbrev journal_only : DbClient
journal_only = record {
  World = List Bytes;
  Db = ℕ;
  open_db = λ path w. some (ok 1, w);
  exec = λ db sql w. some (ok tt, if starts_with begin_immediate sql then sql ∷ w else w);
  query = λ db sql w. some (ok [], w);
  changes = λ db w. pos 0;
  last_insert_rowid = λ db w. pos 0;
  close = λ db w. w;
}

journal_only-Journals : Journals journal_only
journal_only-Journals = record {
  journal = λ w. w;
  opens = λ path w. refl;
  makes = λ db sql w h. rw h refl;
  others = λ db sql w h. rw h refl;
  queries = λ db sql w. refl;
  closes = λ db w. refl;
}

run_worker-Told_example :
    Post
      (Succeeds (λ printed w'. Told 3 5 printed.0 printed.1 [] w'))
      (run_worker journal_only (codes "db.sqlite") 3 5 42 0 [])
unfolding journal_only-Journals
run_worker-Told_example =
    run_worker-Told journal_only journal_only-Journals (codes "db.sqlite") 3 5 42 0 [] (omega arith)
      (omega arith) (omega arith)

drawn-IsLive_example : IsLive (drawn 42 7) × ((below (drawn 42 7) 10).0 < 10)
drawn-IsLive_example = drawn-IsLive 42 7 10 (omega arith) (omega arith) (omega arith)

-- One insert and one read.
abbrev two_steps : Load
two_steps =
    recorded_write (record { kind = inserts; recorded = codes "w3-s1"; step = 1 })
      (record (new_load 42) {
        reads = 1;
        executed = 1;
        insert_count = 1;
        live = codes "w3-s1" ∷ [];
      })

parse_claim-report_line_example :
    parse_claim (report_line 3 2 0 5 two_steps) ≡ ok (claimed 3 2 two_steps)
unfolding recorded_write
parse_claim-report_line_example =
    parse_claim-report_line 3 2 0 5 two_steps
      (record {
        worker_fits = omega arith;
        ops_fits = omega arith;
        all_steps = refl;
        sum_fits = omega arith;
      })
      (omega arith) (omega arith)

choose_write-Chosen_example : Chooses 4 (new_load 42) (choose_write 3 4 (new_load 42))
choose_write-Chosen_example =
    choose_write-Chosen 3 4 (new_load 42) (new_load-Tally 42 (omega arith)).steady (omega arith)

-- A storage with two events of worker 3, one of them an insert.
abbrev printed_by : Bytes → Result Bytes Bytes
printed_by sql =
    if bytes_eq sql (codes "PRAGMA integrity_check;")
    then ok (codes "ok\n")
    else if bytes_eq sql events_sql
    then ok (codes "3|2|5\n")
    else if starts_with (codes "SELECT (") sql
    then ok (codes "1|1\n")
    else ok (codes "1\n")

abbrev told_two : Claim
told_two = record empty_claim {
  worker = 3;
  ops = 9;
  reads = 7;
  writes = 2;
  sum_seq = 5;
  sample = codes "a";
  last = codes "b";
}

audit_accepts :
    (audit printed_by (ok (codes "SQLite format 3")) (ok (codes "SQLITEBROKER1\n")) (told_two ∷ [])
      ≡ ok tt)
    × (audit printed_by
          (ok (codes "SQLite format 3"))
          (ok (codes "SQLITEBROKER1\n"))
          (record told_two { sum_seq = 6 } ∷ [])
        ≡ err (codes "worker 3 file has 2 writes sum 5, process reported 2 writes sum 6"))
unfolding audit audit_claims audit_claim check_count check_token check_balance event_rows
    split_columns token_sql balance_sql format lines lines_from parse_below parse_digits decimal
    decimal_loop trim trim_front trim_back space_len is_ascii_space is_wide_space starts_with
    Assoc.get Assoc.insert Assoc.remove
audit_accepts = (refl, refl)

abbrev two_events : Ledger
two_events = record {
  integrity = codes "ok";
  columns = codes "n" ∷ codes "seen" ∷ [];
  events =
      record { worker = 3; seq = 2; kind = codes "insert"; token = codes "a" }
      ∷ record { worker = 3; seq = 3; kind = codes "update"; token = codes "b" }
      ∷ [];
  items = 3 ∷ [];
}

listed_three : (w : ℕ) → number (of_worker w) two_events.events ≢ 0 → is_in w (3 ∷ []) ≡ true
listed_three w h = ground arith

three_listed : (w : ℕ) → is_in w (3 ∷ []) ≡ true → number (of_worker w) two_events.events ≢ 0
three_listed w h = ground arith

printed_by-IsTruthful : IsTruthful printed_by two_events
unfolding decimal decimal_loop trim trim_front trim_back space_len is_ascii_space is_wide_space
    starts_with
printed_by-IsTruthful = record {
  checked = (codes "ok\n", refl, refl);
  versions = codes "1\n";
  migrations = refl;
  seen = (codes "1\n", refl, refl);
  groups = 3 ∷ [];
  complete = listed_three;
  occupied = three_listed;
  small = ((omega arith, omega arith, omega arith), tt);
  grouped = refl;
}

printed_by-IsAnswered : IsAnswered printed_by two_events told_two
unfolding decimal decimal_loop trim trim_front trim_back space_len is_ascii_space is_wide_space
    starts_with
printed_by-IsAnswered = record {
  sample = λ plain. (codes "1\n", refl, refl);
  last = λ plain. (codes "1\n", refl, refl);
  balance = (codes "1|1\n", refl, refl);
}

audit_truth_example :
    (audit printed_by (ok (codes "SQLite format 3")) (ok (codes "SQLITEBROKER1\n")) (told_two ∷ [])
        ≡ ok tt
      → IsInOrder two_events (codes "SQLite format 3") (codes "SQLITEBROKER1\n") (told_two ∷ []))
    × (IsInOrder two_events (codes "SQLite format 3") (codes "SQLITEBROKER1\n") (told_two ∷ [])
        → audit printed_by
            (ok (codes "SQLite format 3"))
            (ok (codes "SQLITEBROKER1\n"))
            (told_two ∷ [])
          ≡ ok tt)
audit_truth_example =
    audit_truth printed_by two_events printed_by-IsTruthful (codes "SQLite format 3")
      (codes "SQLITEBROKER1\n") (told_two ∷ []) (printed_by-IsAnswered, tt)
      (((refl, tt), (refl, tt)), tt)
