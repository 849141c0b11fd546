-- ===== src/Cli/Run.antt =====
-- The rest of internal/cli/cli.go, from the choice of the command to its exit code, and cmd/schemago/main.go.
pub mod Exits
use schemago.Base.{ℕ, Bool, List, [], ◌∷◌, ◌++◌, Result, ok, err, if◌then◌else◌}
use schemago.Text.{Bytes, codes}
use schemago.Cli.Flags.{parse_flags}
use schemago.Cli.Dispatch.{
  exit_success, exit_usage, Invocation, show_version, show_help, no_subcommand, unknown_command,
  run_with_writers,
}
use schemago.Cli.Host.{
  Host, Machine, Ended, ended, blocks, crashes, version_document, help_document, print_out,
  print_error_out, json_line, write_error,
}
use schemago.Cli.Handlers.{handle_status, handle_plan, handle_apply, handle_dry_run}

-- `usage`, by its lines.
abbrev usage_lines : List Bytes
usage_lines =
    codes "schemago - a standalone database migration runner\n"
    ∷ codes "\n"
    ∷ codes "Usage:\n"
    ∷ codes "  schemago [flags] <command> [command flags]\n"
    ∷ codes "\n"
    ∷ codes "Commands:\n"
    ∷ codes "  status    Show which migrations have run and which are pending\n"
    ∷ codes "  plan      Preview the changes that apply would make\n"
    ∷ codes "  apply     Apply pending migrations, one at a time, in a transaction\n"
    ∷ codes "  dry-run   Go through apply without touching the database\n"
    ∷ codes "  version   Show schemago version\n"
    ∷ codes "  help      Show this help\n"
    ∷ codes "\n"
    ∷ codes "Global Flags:\n"
    ∷ codes
        "  --database-url string   PostgreSQL connection string (overrides DATABASE_URL env var)\n"
    ∷ codes
        "  --dir string            Directory containing migration files (default \"migrations\")\n"
    ∷ codes
        "  --table string          Schema history table name (default \"schemago_migrations\")\n"
    ∷ codes "  --sql                   Show full SQL statements in plan output\n"
    ∷ codes "  --no-lock               Disable advisory locking during migration apply\n"
    ∷ codes
        "  --json                  Output status, plan, apply, dry-run, and errors as structured JSON\n"
    ∷ codes "  --version               Show schemago version\n"
    ∷ codes "\n"
    ∷ codes "Exit Codes:\n"
    ∷ codes "  0    Success\n"
    ∷ codes "  1    Execution failure, DB error, transaction rollback, or pending/drifted status\n"
    ∷ codes "  2    CLI usage error, invalid flags, or unknown command\n"
    ∷ codes "\n"
    ∷ codes "Run \"schemago <command> --help\" for details on a command.\n"
    ∷ []

abbrev join_all : List Bytes → Bytes
join_all [] = []
join_all (l ∷ ls) = l ++ join_all ls

unfoldable pub usage : Bytes
usage = join_all usage_lines

-- `Version`
abbrev version : Bytes
version = codes "dev"

-- `ParseGlobalFlags`
unfoldable pub parse_global_flags : List Bytes → Bytes × List Bytes
unfolding parse_flags
parse_global_flags args = let (f, rest) = parse_flags args in (f.db_url, rest)

module _ (host : Host) where
  -- A handler has either come to its end or returned early, with an exit code in both cases.
  abbrev pub code_of : Result ℕ ℕ → ℕ
  code_of (ok code) = code
  code_of (err code) = code

  abbrev pub exit_of : Ended host (Result ℕ ℕ) → Ended host ℕ
  exit_of (ended r m) = ended (code_of r) m
  exit_of blocks = blocks
  exit_of crashes = crashes

  abbrev unknown_text : Bytes → Bytes
  unknown_text cmd = codes "unknown command " ++ host.quote cmd

  -- The cases of the switch in `RunWithWriters`.
  unfoldable pub perform : Invocation → Machine host → Ended host ℕ
  unfolding handle_status handle_plan handle_apply handle_dry_run write_error usage
  perform (Invocation.handle_status db_url dir table json) m =
      exit_of (handle_status host db_url dir table json m)
  perform (Invocation.handle_plan db_url dir table show_sql json) m =
      exit_of (handle_plan host db_url dir table show_sql json m)
  perform (Invocation.handle_apply db_url dir table no_lock json) m =
      exit_of (handle_apply host db_url dir table no_lock json m)
  perform (Invocation.handle_dry_run db_url dir table no_lock json) m =
      exit_of (handle_dry_run host db_url dir table no_lock json m)
  perform (show_version json) m = ended exit_success (
      if json
      then print_out host (json_line host (version_document version)) m
      else print_out host (codes "schemago version " ++ (version ++ b'\n' ∷ [])) m)
  perform (show_help json) m =
      ended exit_success
        (if json then print_out host (json_line host help_document) m else print_out host usage m)
  perform (no_subcommand json) m = ended exit_usage (
      if json
      then write_error host [] (codes "no subcommand provided") json exit_usage m
      else print_error_out host usage m)
  perform (unknown_command cmd json) m = ended exit_usage (
      if json
      then write_error host [] (unknown_text cmd) json exit_usage m
      else print_error_out host
          (codes "schemago: " ++ (unknown_text cmd ++ (codes "\n\n" ++ usage))) m)

  -- `RunWithWriters`, whose writers the machine holds.
  unfoldable pub run : List Bytes → Machine host → Ended host ℕ
  unfolding run_with_writers perform
  run args m = perform (run_with_writers args) m

  abbrev rest_of : List Bytes → List Bytes
  rest_of [] = []
  rest_of (program ∷ args) = args

  -- `main`, on os.Args.
  unfoldable pub main : List Bytes → Machine host → Ended host ℕ
  unfolding run
  main os_args m = run (rest_of os_args) m
