-- ===== src/Cli/Host.antt =====
-- What the handlers of internal/cli/cli.go run on: the packages that they call, the state of the
-- process, and calls that may return early.
use schemago.Base.{ℕ, Bool, Option, List, Result, ok, err, ◌++◌, [], ◌∷◌, if◌then◌else◌}
use schemago.Base.Int.{ℤ}
use schemago.Text.{Bytes, codes, is_empty}
use schemago.Files.{Files}
use schemago.History.{Time}
use schemago.History.Store.{StoreError}
use schemago.History.Pending.{PendingError, or_empty}
use schemago.Migration.Discovery.{DiscoverError}
use schemago.Database.{Runtime, SqlError}
use schemago.Db.{GoError, Connector}
use schemago.Config.{ConfigError}
use schemago.Lock.{LockError, Mutexes}
use schemago.Status.{Report}
use schemago.Plan.{Plan, PlanError}
use schemago.Apply.{RunError}
use schemago.Apply.Format.{MigrationResultJson}
use schemago.Output.{Writer, PrintError}

-- The errors that the handlers meet. That of a writer or of json is given by its text.
pub data CliError : Type 0 where
  config_error : ConfigError → CliError
  connection_error : GoError → CliError
  lock_error : LockError → CliError
  store_error : StoreError → CliError
  discover_error : DiscoverError → CliError
  pending_error : PendingError → CliError
  run_error : RunError → CliError
  print_error : PrintError (Unit {0}) → CliError
  plan_error : PrintError PlanError → CliError
  json_error : Bytes → CliError

-- The result of a run as JSON has it.
pub record RunResultJson : Type 0 where
  pub applied : List MigrationResultJson
  pub failed : Option MigrationResultJson
  pub total_pending : ℕ

-- What the program hands over to `json.MarshalIndent`; an error is a `CLIErrorResponse`.
pub data Document : Type 0 where
  report_document : Report → Document
  plan_document : Plan → Document
  result_document : RunResultJson → Document
  error_document : Bytes → Bytes → ℕ → Document
  version_document : Bytes → Document
  help_document : Document

-- The packages. `conn` is `dbConn.Conn`, `release` closes what it gave, and the two queries are those
-- of the advisory lock.
pub record Host : Type 1 where
  pub rt : Runtime
  pub fs : Files
  pub out : Writer
  pub error_out : Writer
  pub connector : Connector rt.World
  pub conn : rt.World → Option GoError × rt.World
  pub release : rt.World → rt.World
  pub lock_query : ℤ → rt.World → Result SqlError (Unit {0}) × rt.World
  pub unlock_query : ℤ → rt.World → Result SqlError Bool × rt.World
  pub getenv : Bytes → Bytes
  pub format_duration : ℤ → Bytes
  pub format_utc : Time → Bytes
  pub align : Bytes → List Bytes
  pub quote : Bytes → Bytes
  pub encode : Document → Result Bytes Bytes
  -- The text of an error, and of the error of a migration.
  pub error_text : CliError → Bytes

-- The process: the world of the database, the mutexes of the locks, and what was printed.
pub record Machine (host : Host) : Type 0 where
  pub world : host.rt.World
  pub mutexes : Mutexes
  pub stdout : host.out.State
  pub stderr : host.error_out.State

-- A call returns, it waits for a mutex, or the runtime stops the program.
pub data Ended (host : Host) (A : Type 0) : Type 0 where
  ended : A → Machine host → Ended host A
  blocks crashes : Ended host A

module _ (host : Host) where
  -- A part of a handler: it gives a value, or the handler returns an exit code.
  abbrev pub Act : Type 0 → Type 0
  Act A = Machine host → Ended host (Result ℕ A)

  -- `fmt.Fprint(stdout, text)` and `fmt.Fprint(stderr, text)`, whose errors are ignored.
  abbrev pub print_out : Bytes → Machine host → Machine host
  print_out text m = record m { stdout = (host.out.write_to text m.stdout).1 }

  abbrev pub print_error_out : Bytes → Machine host → Machine host
  print_error_out text m = record m { stderr = (host.error_out.write_to text m.stderr).1 }

  -- What `data, _ := json.MarshalIndent(…)` leaves, as a line.
  abbrev pub json_line : Document → Bytes
  json_line doc = or_empty (host.encode doc) ++ b'\n' ∷ []

  -- `writeError`, with the text of the error.
  unfoldable pub write_error : Bytes → Bytes → Bool → ℕ → Machine host → Machine host
  write_error cmd_name text json_output code m =
      if json_output
      then print_error_out (json_line (error_document cmd_name text code)) m
      else if is_empty cmd_name
      then print_error_out (codes "schemago error: " ++ (text ++ b'\n' ∷ [])) m
      else print_error_out
          (codes "schemago " ++ (cmd_name ++ (codes " error: " ++ (text ++ b'\n' ∷ [])))) m

module _ {host : Host} where
  abbrev pub continue :
      {A B : Type 0} → Ended host (Result ℕ A) → (A → Act host B) → Ended host (Result ℕ B)
  continue (ended (ok a) m) f = f a m
  continue (ended (err code) m) f = ended (err code) m
  continue blocks f = blocks
  continue crashes f = crashes

  infixl 5 ◌>>=◌
  abbrev pub ◌>>=◌ : {A B : Type 0} → Act host A → (A → Act host B) → Act host B
  ◌>>=◌ act f m = continue (act m) f

  -- `defer`: what is done when the rest of the handler has returned.
  abbrev pub ended_with :
      {A : Type 0} → (Machine host → Ended host (Unit {0})) → A → Machine host → Ended host A
  ended_with cleanup a m = elim (cleanup m) [
    | ended u m' ↦ ended a m'
    | blocks ↦ blocks
    | crashes ↦ crashes
  ]

  abbrev pub clean_up :
      {A : Type 0} → (Machine host → Ended host (Unit {0})) → Ended host A → Ended host A
  clean_up cleanup (ended a m) = ended_with cleanup a m
  clean_up cleanup blocks = blocks
  clean_up cleanup crashes = crashes

  abbrev pub deferring :
      {A : Type 0} → (Machine host → Ended host (Unit {0})) → Act host A → Act host A
  deferring cleanup act m = clean_up cleanup (act m)
