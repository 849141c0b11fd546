-- ===== src/Apply/Step.antt =====
-- The steps of one migration, which `Apply` and `DryRun` share, and the loop of `Apply`.
use schemago.Base.{
  ℕ, ◌-◌, Bool, true, false, Option, none, some, List, [], ◌∷◌, Result, ok, err, length,
  if◌then◌else◌,
}
use schemago.Text.{Bytes, is_empty}
use schemago.Text.Trim.{trim_space}
use schemago.Files.{Files}
use schemago.Migration.Filename.{MigrationFile}
use schemago.Migration.Statement.{Statement, split_statements}
use schemago.Map.Keys.{has_key}
use schemago.History.{Time, AppliedMigration}
use schemago.History.Pending.{disc_checksum}
use schemago.History.Table.{validate_table_name}
use schemago.History.Store.{record_migration, get_applied_migrations}
use schemago.Database.{SqlError, Runtime}
use schemago.Apply.{
  MigrationError, read_failed, non_transactional, begin_failed, statement_failed, history_failed,
  commit_failed, MigrationResult, RunResult, nil_db, bad_table, Run, new_result, grow, finished,
  halted, refused, failure,
}
use schemago.Apply.NonTransactional.{is_non_transactional}

-- A migration's error, with the statement that it cites, if any.
pub record Failure : Type 0 where
  pub error : MigrationError
  pub statement_idx : ℕ
  pub line_number : ℕ
  pub statement_sql : Bytes

abbrev pub plain : MigrationError → Failure
plain e = record { error = e; statement_idx = 0; line_number = 0; statement_sql = [] }

-- The MigrationResult of a failure.
abbrev pub failed_result : MigrationFile → Time → Failure → MigrationResult
failed_result file dur f = record (failure file dur f.error) {
  statement_idx = f.statement_idx;
  line_number = f.line_number;
  statement_sql = f.statement_sql;
}

-- The handle that is passed as `db`: nil, one that only begins transactions, and one that runs
-- queries too, as `*sql.DB` and `*sql.Conn` do.
pub data Handle : Type 0 where
  nil beginner execer : Handle

-- A step of a migration, on a world `W`.
abbrev pub Act : Type 0 → Type 0 → Type 0
Act W A = W → Result Failure A × W

abbrev pub continue : {W A B : Type 0} → Result Failure A → (A → Act W B) → Act W B
continue (ok a) f w = f a w
continue (err e) f w = (err e, w)

infixl 5 ◌>>=◌
abbrev pub ◌>>=◌ : {W A B : Type 0} → Act W A → (A → Act W B) → Act W B
◌>>=◌ m f w = let (r, w') = m w in continue r f w'

-- `if err != nil { … }` behind a call: the failure, and what is done before the return.
abbrev pub settle :
    {W E : Type 0} → (W → W) → (E → Failure) → Result E (Unit {0}) → Act W (Unit {0})
settle cleanup f (ok done) w = (ok tt, w)
settle cleanup f (err e) w = (err (f e), cleanup w)

-- A failure that cites the statement.
abbrev statement_failure : MigrationFile → Statement → SqlError → Failure
statement_failure file stmt e = record {
  error = statement_failed stmt.index stmt.line_number file.filename e;
  statement_idx = stmt.index;
  line_number = stmt.line_number;
  statement_sql = trim_space stmt.sql;
}

module _ (rt : Runtime) (fs : Files) where
  -- `os.ReadFile(file.Path)`
  unfoldable pub read_step : MigrationFile → Act rt.World Bytes
  read_step file w = (
    elim (fs.read_file file.path) [
      | ok content ↦ ok content
      | err e ↦ err (plain (read_failed file.path e))
    ],
    w,
  )

  unfoldable pub check_step : MigrationFile → Bytes → Act rt.World (Unit {0})
  unfolding is_non_transactional
  check_step file content w = (
    if is_non_transactional content then err (plain (non_transactional file.filename)) else ok tt,
    w,
  )

  -- `tx.Rollback` is not called where no transaction could begin.
  unfoldable pub begin_step : MigrationFile → Act rt.World (Unit {0})
  begin_step file w =
      let (r, w') = rt.begin_tx w in
      settle (λ v. v) (λ e. plain (begin_failed file.filename e)) r w'

  -- One statement; `cleanup` is what follows a failure.
  unfoldable pub exec_step :
      (rt.World → rt.World) → MigrationFile → Statement → Act rt.World (Unit {0})
  exec_step cleanup file stmt w =
      let (r, w') = rt.exec stmt.sql [] w in settle cleanup (statement_failure file stmt) r w'

  -- The loop over the statements.
  unfoldable pub run_statements :
      (rt.World → rt.World) → MigrationFile → List Statement → Act rt.World (Unit {0})
  unfolding trim_space exec_step
  run_statements cleanup file [] w = (ok tt, w)
  run_statements cleanup file (stmt ∷ stmts) w = elim (is_empty (trim_space stmt.sql)) [
    | true ↦ run_statements cleanup file stmts w
    | false ↦
        let (r, w') = exec_step cleanup file stmt w in
        continue r (λ _. run_statements cleanup file stmts) w'
  ]

  -- The record of a file, whose checksum is computed where discovery has left it empty.
  abbrev pub record_of : MigrationFile → Time → AppliedMigration
  record_of file applied_at = record {
    version = file.version;
    name = file.filename;
    applied_at = applied_at;
    checksum = disc_checksum fs file;
  }

  -- The insertion of the file's record.
  unfoldable pub record_step :
      (rt.World → rt.World) → Bytes → MigrationFile → Act rt.World (Unit {0})
  unfolding record_migration disc_checksum
  record_step cleanup table file w =
      let (applied_at, w1) = rt.now w in
      let (r, w2) = record_migration rt table (record_of file applied_at) w1 in
      settle cleanup (λ e. plain (history_failed file.filename e)) r w2

  -- `_ = tx.Rollback()`
  abbrev pub roll_back : rt.World → rt.World
  roll_back w = (rt.rollback w).1

  unfoldable pub commit_step : MigrationFile → Act rt.World (Unit {0})
  commit_step file w =
      let (r, w') = rt.commit w in
      settle roll_back (λ e. plain (commit_failed file.filename e)) r w'

  -- The steps of `Apply` from the transaction on.
  unfoldable pub transaction : Bytes → MigrationFile → Bytes → Act rt.World (Unit {0})
  unfolding begin_step run_statements record_step commit_step split_statements
  transaction table file content = begin_step file >>= λ _.
      run_statements roll_back file (split_statements content) >>= λ _.
      record_step roll_back table file >>= λ _. commit_step file

  unfoldable pub perform : Bytes → MigrationFile → Act rt.World (Unit {0})
  unfolding read_step check_step transaction
  perform table file =
      read_step file >>= λ content. check_step file content >>= λ _. transaction table file content

  -- One migration with its clock: what is appended to `Applied`, or what `Failed` becomes.
  unfoldable pub apply_file :
      Bytes → MigrationFile → rt.World → (Result Failure (Unit {0}) × Time) × rt.World
  unfolding perform
  apply_file table file w =
      let (start, w0) = rt.now w in
      let (r, w1) = perform table file w0 in
      let (end_time, w2) = rt.now w1 in ((r, end_time - start), w2)

  -- The check for a record that another runner has written since.
  unfoldable pub is_already_applied : Handle → Bytes → MigrationFile → rt.World → Bool
  unfolding get_applied_migrations
  is_already_applied execer table file w = elim (get_applied_migrations rt table w) [
    | ok applied ↦ has_key (λ app. app.version) file.version applied
    | err e ↦ false
  ]
  is_already_applied _ table file w = false

  -- The loop over the pending files, of which some may be nil.
  unfoldable pub apply_files :
      Handle → Bytes → RunResult → List (Option MigrationFile) → rt.World → Run × rt.World
  unfolding is_already_applied apply_file
  apply_files db table res [] w = (finished res, w)
  apply_files db table res (none ∷ files) w = apply_files db table res files w
  apply_files db table res (some file ∷ files) w = elim (is_already_applied db table file w) [
    | true ↦ apply_files db table res files w
    | false ↦
        let ((r, dur), w') = apply_file table file w in
        elim r [
          | ok done ↦ apply_files db table (grow res file dur) files w'
          | err f ↦ (halted res (failed_result file dur f) f.error, w')
        ]
  ]

  -- The end of `Apply`, for a handle that is not nil.
  abbrev pub apply_to : Handle → Bytes → List (Option MigrationFile) → rt.World → Run × rt.World
  apply_to db name [] w = (finished (new_result 0), w)
  apply_to db name (file ∷ files) w = elim (validate_table_name name) [
    | err e ↦ (refused (bad_table e), w)
    | ok table ↦ apply_files db table (new_result (length (file ∷ files))) (file ∷ files) w
  ]

  -- `Apply`
  unfoldable pub apply : Handle → Bytes → List (Option MigrationFile) → rt.World → Run × rt.World
  unfolding apply_files validate_table_name
  apply nil name pending w = (refused nil_db, w)
  apply db name pending w = apply_to db name pending w
