-- ===== src/Lib.antt =====
-- sqlite-broker: one process, the broker, owns a SQLite database and runs the statements of all
-- clients; a shim that takes libsqlite3's place in the clients speaks to it over TCP.
--
-- The parts and where they are modelled:
--   * protocol/src/lib.rs: the messages, base64, the stub file, the frames. Protocol/Message.antt,
--     Base64.antt, Stub.antt, Frame.antt. serde_json is the parameter `Codec`.
--   * server/src/broker.rs: `Worker` with its sessions, its transaction lock and its queue is
--     Broker/Worker.antt: `handle` is one job, `worker_loop` the jobs in the order in which they come
--     out of the channel. The worker asks SQLite through the interface of Broker/Engine.antt, which
--     Broker/Storage.antt fills with `open_storage`, `execute` (Execute.antt over Statement.antt) and
--     `prepare_meta` (Prepare.antt). libsqlite3 and rusqlite are the parameter `Sqlite` of
--     Broker/Sqlite.antt: calls on a state of SQLite's own. Broker/Clients.antt has the threads:
--     `client_loop` is one thread's step, `Step` lets the threads and the worker go on in any order.
--     `NEXT_SESSION` wraps at 2^64 in `accept`: session numbers are new for so many connections, and
--     what Broker/Worker/Guard.antt has of the lock does not depend on it.
--     Broker/Start.antt is `serve` up to the worker's loop, and `write_stub`, over files by their paths,
--     with the paths of Unix; opening the storage, by `open_storage` over `Sqlite`, may change any file.
--   * shim/src/lib.rs, shim/src/api.rs: a handle is an address, and the registries `DBS` and `STMTS`
--     with the boxes behind the addresses are the two association lists of Shim/State.antt. The
--     broker's end of the socket, the file system and the allocator are the parameter `Net`.
--     Shim/Proxy.antt has the methods of `ProxyDb`, Open.antt `open_v2`, Statement.antt `prepare_v2`,
--     `step_stmt`, `finalize_stmt`, `sqlite3_reset` and `close_db`, Rows.antt the cursor and
--     `param_index`, Bind.antt the `sqlite3_bind_*` functions (`bind_stmt` at each `BindCall`),
--     Columns.antt the `sqlite3_column_*` functions and the other questions, Exec.antt `exec_sql` with its
--     callback, `malloc_cstr` and `sqlite3_free`, Keyword.antt `keyword`.
--     Settings.antt has the functions that answer for a connection's settings, Extensions.antt those
--     that refuse or ignore what the broker does not support. An exported function answers itself
--     (`mine`) or hands the call to libsqlite3 (`forward`). Calls.antt has the states that calls lead
--     to, Forwarding.antt every function with a handle as one call, and whether it is handed on. A
--     function looks its handle up in one registry only, so that a connection where a statement is
--     asked for is a stranger to it; `sqlite3_next_stmt` looks at its connection alone.
--   * server/src/capi.rs: `Db` over the functions of libsqlite3, which are the parameter `Api`, is
--     Client/Capi.antt; Client/Shimmed.antt fills `Api` with the functions of the shim, as under
--     LD_PRELOAD. Client/Program.antt is what programs use of `Db`, the interface `DbClient`, and
--     their steps: each gives an answer or an error and changes the world.
--   * server/src/hammer.rs: the random numbers are Hammer/Rng.antt, `open_ready`, `boot` and `migrate`
--     Hammer/Boot.antt, the SQL texts Hammer/Statements.antt, `run_worker` Hammer/Load.antt and
--     `parse_claim`, by which the audit reads what a worker printed, Hammer/Claim.antt.
--     Hammer/Journal.antt says what `run_worker` relies on of the database. Hammer/Audit.antt is `audit`,
--     over what the files hold and what /usr/bin/sqlite3 prints; Hammer/Audit/Ledger.antt says what the
--     tool prints of the tables, for the SQL texts of `audit` as they stand in the source.
--   * server/src/main.rs: Cli/Options.antt reads the arguments, also those of `hammer` and `storm`, and
--     gives the command that they ask for; Cli/Spawned.antt has the arguments with which `storm` starts
--     other processes; Cli/Query.antt is `is_query`; Cli/Run.antt is `call` and `session` from where they
--     open the database, with the standard input as a list of lines and the lines written so far;
--     Cli/Run/Dialogue.antt is the protocol of a session.
--   * Text.antt and its children hold the operations of Rust's strings that the program uses.
--
-- Conventions. A `String` is the list of its UTF-8 bytes, a C string the bytes in front of its NUL, a
-- null pointer is 0 or `none`. An `f64` is its 64 bits. A reply channel is a number. What the worker
-- does is written down in `trace`, newest first. A call that does not come back, by a panic or by a
-- loop that has no end, is `none`. An `i32` or `i64` that is only passed on is an integer.
--
-- Bounds. `pump` runs as many rounds as the queue is long, and every round takes one entry from it.
-- `execute_inner` runs two rounds more than the text has bytes: each round but the first starts
-- further on in the text. The rows of one statement are SQLite's affair: `patience` bounds them, and
-- the theorem that `execute` returns asks that the statements end within it. `keyword` runs a round
-- more than the text has bytes, and each round but the last takes a byte at least. The loop of `query` in Client/Capi.antt
-- runs as many rounds as `patience` says, and the theorems about its rows ask that there are fewer. The
-- loop of `run_worker` is recursion on the steps to go. `is_query` runs a round more than the text has bytes,
-- and each round but the last takes a comment from it.
--
-- Not modelled: what travels over the sockets of the threads, the use of one handle of the shim by
-- several threads, a callback of `sqlite3_exec` that calls the shim again, the search for the real
-- libsqlite3, the processes of the load generator's `storm` and what it prints, the exit status of
-- `main`, the build scripts.
pub mod Prelude
pub mod Text
pub mod Protocol
pub mod Broker
pub mod Shim
pub mod Client
pub mod Hammer
pub mod Cli
