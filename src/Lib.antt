-- ===== src/Lib.antt =====
-- A verification library for schemago, a runner of SQL migrations written in Go. It models
-- the whole program, from os.Args in cmd/schemago/main.go to the exit code: the command line,
-- the four commands, and the packages under internal/ that they call.
--
-- The parts, in the order in which a run uses them. The command line (internal/cli/cli.go)
-- gives flags and a command, whose handler resolves the configuration
-- (internal/config/config.go), connects (internal/db/db.go) and, to run migrations, takes an
-- advisory lock (internal/lock/lock.go). Migration files are discovered in a directory
-- (internal/migration/discovery.go). They are named by a convention
-- (internal/migration/convention.go), sorted by version, and split into statements
-- (internal/migration/statement.go). The history table (internal/history/history.go) records
-- what was applied; ComputePending compares it with the files. Apply
-- (internal/apply/apply.go) runs each pending file in a transaction of its own, and DryRun
-- (internal/dryrun/dryrun.go) runs them all in one that is rolled back. The status report
-- (internal/status/status.go) puts files and records side by side, and internal/plan/plan.go
-- previews what is pending.
--
-- The files of this library:
--
-- - Base and its children: tests, lists, signed integers, the result type, and lemmas on
--   them.
-- - Text, Sort, Map: what the program uses of the packages strings, sort and of Go maps. A Go
--   string is a list of bytes; TrimSpace is modelled with its Unicode white space.
-- - Files, Database: interfaces of the file system, SHA-256, database/sql and time, which are
--   parameters of the model. Database/Transactions states what is relied on of transactions.
-- - Map/Inserted: an item inserted into a list with keys, wherever the order puts it.
-- - Output: a formatter is a script of writes, print runs it on an io.Writer, which is a
--   parameter. Output/Decimal and Output/Duration are the texts of numbers and durations that
--   fmt and time make.
-- - Migration/Filename (parse_filename is ParseFilename), Migration/Order (validate_and_sort
--   is ValidateAndSort), Migration/Checksum (compute_checksum, compute_file_checksum),
--   Migration/Statement (split_statements is SplitStatements; its loop variables are the
--   record Scan, one turn of the byte loop is step).
-- - History/Table (validate_table_name), History/Store (ensure_table, record_migration,
--   get_applied_migrations), History/Pending (compute_pending is ComputePending).
-- - Apply/NonTransactional (is_non_transactional is IsNonTransactional), Apply/Step (apply is
--   Apply, its body one function per step), DryRun (dry_run is DryRun), both with a world
--   that is passed from step to step. Apply/Effects and Apply/Refines compare Apply with a
--   specification on the contents of the database. Apply/Format and DryRun/Format are the
--   FormatResult functions and MarshalJSON.
-- - History/Reads states what is relied on of the history table as a table of the server.
--   Apply/Recorded, Apply/Progress, Apply/Repeated and Cli/Handlers/Repeated are about the
--   records that a run leaves, and about the next run; Apply/Healthy, Apply/Success and
--   Cli/Handlers/Settled are about runs that go well, and what status and plan say after
--   them.
-- - Migration/Discovery (discover is Discover).
-- - Status (build_report is BuildReport, exit_code is ExitCode), Status/Format (format_report
--   is FormatReport).
-- - Plan (build_plan is BuildPlan, format_plan is FormatPlan).
-- - Config (new_with_opts is NewWithOpts, with os.Getenv as a parameter).
-- - Db (connect, ping, connect_and_ping, format_error), on an interface of sql.Open,
--   PingContext and Close.
-- - Lock (lock, try_lock and unlock are the methods of AdvisoryLock, with the server's answer
--   as an argument), Lock/Key (generate_lock_id is GenerateLockID), Lock/Exclusion (the steps
--   of any number of locks in one process, the waiting for the mutexes included), Lock/Single
--   (the one lock of a handler).
-- - Cli/Flags (parse_flags is ParseFlags), Cli/Dispatch (the choice of the command in
--   RunWithWriters), Cli/Host (the packages that a handler calls, the state of the process,
--   and calls that may return early or wait), Cli/Steps (what the handlers share: checks,
--   deferred calls, the lock), Cli/Handlers (handle_status, handle_plan, handle_apply and
--   handle_dry_run), Cli/Run (run is RunWithWriters, main is main).
-- - Cli/Steps/Held states what is relied on of the server's advisory locks, and
--   Cli/Handlers/Released is about the locks that a command leaves. Apply/Kept and
--   DryRun/Kept are about properties of the world that single statements keep.
-- - Tests: runs at concrete inputs, on a small database with transactions.
--
-- The loops are structural recursion on lines, bytes, files and rows; only the digits of a
-- number are made on fuel, the number itself plus one, which is enough since each digit
-- divides it by ten. Versions are int64 values; the program only compares them, and
-- ParseInt's bound is written out. A time is a number of nanoseconds. The file system does
-- not change while a command runs, and a commit that returns an error is taken not to have
-- committed. The sort is an insertion sort; sort.Slice may order equal items in another way,
-- but equal versions are an error and so the result does not depend on it. A query returns: a
-- server that keeps pg_advisory_lock waiting is an answer that has not come yet, and a call
-- of the lock takes its step when it has come. A write to standard output or standard error
-- whose error the program ignores may still fail.
--
-- Not modelled: the text of an error (an error is the value of its wrapper, and the function
-- that prints it is a parameter; only FormatError, which decides by texts, gives one), the
-- encoding of JSON and the quoting of %q, the alignment of text/tabwriter, deadlines of
-- contexts beyond the errors that they cause, and a nil record, report or file where no
-- caller passes one.
pub mod Base
pub mod Text
pub mod Sort
pub mod Map
pub mod Files
pub mod Migration
pub mod History
pub mod Database
pub mod Apply
pub mod DryRun
pub mod Status
pub mod Cli
pub mod Lock
pub mod Config
pub mod Output
pub mod Plan
pub mod Db
pub mod Tests
