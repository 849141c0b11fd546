-- ===== src/Apply.antt =====
-- `Apply` of internal/apply/apply.go: each pending migration in a transaction of its own.
pub mod NonTransactional
pub mod Step
pub mod Laws
pub mod Atomic
pub mod Effects
pub mod Migrated
pub mod Refines
pub mod Kept
pub mod Healthy
pub mod Success
pub mod Recorded
pub mod Progress
pub mod Repeated
pub mod Complete
pub mod Format
use schemago.Base.{
  ℕ, ◌+◌, ◌-◌, ◌/◌, Bool, true, false, not, ◌&&◌, Option, none, some, List, [], ◌∷◌, ◌++◌, Result,
  ok, err, length,
}
use schemago.Text.{Bytes}
use schemago.Files.{OsError}
use schemago.Migration.Filename.{MigrationFile}
use schemago.History.{Time}
use schemago.History.Table.{TableError}
use schemago.History.Store.{StoreError}
use schemago.Database.{SqlError}

-- The error of a migration, in the wrapper of the step that failed.
pub data MigrationError : Type 0 where
  read_failed : Bytes → OsError → MigrationError
  non_transactional : Bytes → MigrationError
  begin_failed : Bytes → SqlError → MigrationError
  statement_failed : ℕ → ℕ → Bytes → SqlError → MigrationError
  history_failed : Bytes → StoreError → MigrationError
  commit_failed : Bytes → SqlError → MigrationError

-- `MigrationResult`. ErrMessage is the text of `error`, and is left out.
pub record MigrationResult : Type 0 where
  pub file : MigrationFile
  pub duration : Time
  pub duration_ms : ℕ
  pub error : Option MigrationError
  pub statement_idx : ℕ
  pub line_number : ℕ
  pub statement_sql : Bytes

-- `Result` of internal/apply and of internal/dryrun.
pub record RunResult : Type 0 where
  pub applied : List MigrationResult
  pub failed : Option MigrationResult
  pub total_pending : ℕ

-- The error that a run returns.
pub data RunError : Type 0 where
  nil_db : RunError
  bad_table : TableError → RunError
  cannot_begin : SqlError → RunError
  cannot_ensure : StoreError → RunError
  migration_failed : MigrationError → RunError

-- The two results of a run: the report, nil where it returns none, and the error.
pub record Run : Type 0 where
  pub result : Option RunResult
  pub error : Option RunError

-- `res` before the loop.
abbrev pub new_result : ℕ → RunResult
new_result n = record { applied = []; failed = none; total_pending = n }

-- `dur.Milliseconds()`
abbrev pub milliseconds : Time → ℕ
milliseconds d = d / 1_000_000

-- A migration that went through.
abbrev pub success : MigrationFile → Time → MigrationResult
success file dur = record {
  file = file;
  duration = dur;
  duration_ms = milliseconds dur;
  error = none;
  statement_idx = 0;
  line_number = 0;
  statement_sql = [];
}

-- A migration that failed before or after its statements.
abbrev pub failure : MigrationFile → Time → MigrationError → MigrationResult
failure file dur e = record (success file dur) { error = some e }

-- `res.Applied = append(res.Applied, …)`
abbrev pub grow : RunResult → MigrationFile → Time → RunResult
grow res file dur = record res { applied = res.applied ++ success file dur ∷ [] }

abbrev pub finished : RunResult → Run
finished res = record { result = some res; error = none }

-- `res.Failed = …; return res, migErr`
abbrev pub halted : RunResult → MigrationResult → MigrationError → Run
halted res failed e = record {
  result = some (record res { failed = some failed });
  error = some (migration_failed e);
}

-- `return nil, err`
abbrev pub refused : RunError → Run
refused e = record { result = none; error = some e }
