-- ===== src/DryRun.antt =====
-- `DryRun` of internal/dryrun/dryrun.go: all pending migrations in one transaction, which a
-- deferred call rolls back.
pub mod Rollback
pub mod Kept
pub mod Format
use schemago.Base.{◌-◌, Option, none, some, List, [], ◌∷◌, ◌++◌, Result, ok, err, length}
use schemago.Text.{Bytes}
use schemago.Files.{Files}
use schemago.Migration.Filename.{MigrationFile}
use schemago.Migration.Statement.{split_statements}
use schemago.History.{Time}
use schemago.History.Table.{validate_table_name}
use schemago.History.Store.{ensure_table}
use schemago.Database.{Runtime}
use schemago.Apply.{
  RunResult, RunError, nil_db, bad_table, cannot_begin, cannot_ensure, migration_failed, Run,
  new_result, grow, finished, halted, refused, success,
}
use schemago.Apply.Step.{
  Failure, failed_result, Handle, nil, Act, ◌>>=◌, read_step, check_step, run_statements,
  record_step, roll_back,
}

module _ (rt : Runtime) (fs : Files) where
  -- A failure is left to the deferred call.
  abbrev no_cleanup : rt.World → rt.World
  no_cleanup w = w

  -- The steps of one migration, inside the transaction.
  unfoldable pub simulate : Bytes → MigrationFile → Act rt.World (Unit {0})
  unfolding read_step check_step run_statements record_step split_statements
  simulate table file = read_step rt fs file >>= λ content. check_step rt fs file content >>= λ _.
      run_statements rt fs no_cleanup file (split_statements content) >>= λ _.
      record_step rt fs no_cleanup table file

  unfoldable pub simulate_file :
      Bytes → MigrationFile → rt.World → (Result Failure (Unit {0}) × Time) × rt.World
  unfolding simulate
  simulate_file table file w =
      let (start, w0) = rt.now w in
      let (r, w1) = simulate table file w0 in
      let (end_time, w2) = rt.now w1 in ((r, end_time - start), w2)

  -- The loop over the pending files, of which some may be nil.
  unfoldable pub simulate_files :
      Bytes → RunResult → List (Option MigrationFile) → rt.World → Run × rt.World
  unfolding simulate_file
  simulate_files table res [] w = (finished res, w)
  simulate_files table res (none ∷ files) w = simulate_files table res files w
  simulate_files table res (some file ∷ files) w =
      let ((r, dur), w') = simulate_file table file w in
      elim r [
        | ok done ↦ simulate_files table (grow res file dur) files w'
        | err f ↦ (halted res (failed_result file dur f) f.error, w')
      ]

  -- What follows BeginTx, up to the deferred call.
  unfoldable pub dry_run_in_tx : Bytes → List (Option MigrationFile) → rt.World → Run × rt.World
  unfolding ensure_table simulate_files
  dry_run_in_tx table pending w =
      let (r, w') = ensure_table rt table w in
      elim r [
        | ok done ↦ simulate_files table (new_result (length pending)) pending w'
        | err e ↦ (refused (cannot_ensure e), w')
      ]

  abbrev dry_run_to : Bytes → List (Option MigrationFile) → rt.World → Run × rt.World
  dry_run_to name [] w = (finished (new_result 0), w)
  dry_run_to name (file ∷ files) w = elim (validate_table_name name) [
    | err e ↦ (refused (bad_table e), w)
    | ok table ↦
        let (r, w') = rt.begin_tx w in
        elim r [
          | err e ↦ (refused (cannot_begin e), w')
          | ok done ↦
              let (run, w'') = dry_run_in_tx table (file ∷ files) w' in (run, roll_back rt fs w'')
        ]
  ]

  -- `DryRun`
  unfoldable pub dry_run : Handle → Bytes → List (Option MigrationFile) → rt.World → Run × rt.World
  unfolding dry_run_in_tx validate_table_name
  dry_run nil name pending w = (refused nil_db, w)
  dry_run db name pending w = dry_run_to name pending w
