-- ===== src/Tests/Runs.antt =====
-- Runs of `Apply` and `DryRun` on the small database.
use schemago.Base.{◌≡◌, refl, subst, false, Option, none, some, List, [], ◌∷◌, All, ok}
use schemago.History.Table.{validate_table_name}
use schemago.Text.{Bytes, codes, eq_bytes}
use schemago.Files.{Files}
use schemago.Migration.Filename.{MigrationFile}
use schemago.Migration.Statement.{Statement, split_statements}
use schemago.Text.Trim.{trim_space}
use schemago.History.Store.{insert_query, create_query}
use schemago.Apply.{Run, new_result, migration_failed, statement_failed}
use schemago.Apply.Step.{beginner, execer, apply_files, apply}
use schemago.Apply.Laws.{IsContained, KeepsTable}
use schemago.Apply.Atomic.{Stopped, apply_files-Stopped, failed_file, applied_files}
use schemago.Apply.Complete.{Covers, apply-Covers}
use schemago.Apply.Effects.{MigratesAll}
use schemago.Apply.Refines.{table_of, apply-MigratesAll}
use schemago.DryRun.{dry_run}
use schemago.DryRun.Rollback.{IsContained?, dry_run-committed}
use schemago.Base.Int.{pos}
use schemago.Database.{other_value}
use schemago.Tests.Tables.{Store, store}
use schemago.Tests.World.{sim, sim_transactions, disk, file_a, file_b, start}

pub sim_keeps_on : (fs : Files) → KeepsTable sim sim_transactions fs
unfolding insert_query create_query eq_bytes
sim_keeps_on fs = record { insert_kept = λ name table e. refl; create_kept = λ name table e. refl }

pub sim_keeps : KeepsTable sim sim_transactions disk
sim_keeps = sim_keeps_on disk

abbrev pub HasNone : Bytes → Type 0
HasNone content =
    All (λ (st : Statement). sim_transactions.ends_tx st.sql ≡ false) (split_statements content)

file_a-IsContained : IsContained sim sim_transactions disk file_a
unfolding split_statements trim_space eq_bytes
file_a-IsContained content h =
    let same : codes "CREATE TABLE a (id INT);\nINSERT INTO a VALUES (1);\n" ≡ content = cc h in
    subst HasNone same (refl, (refl, tt))

file_b-IsContained : IsContained sim sim_transactions disk file_b
unfolding split_statements trim_space eq_bytes
file_b-IsContained content h =
    let same : codes "DROP TABLE a;\nBAD;\n" ≡ content = cc h in
    subst HasNone same (refl, (refl, tt))

abbrev files : List (Option MigrationFile)
files = some file_a ∷ none ∷ some file_b ∷ []

files-IsContained : All (IsContained? sim sim_transactions disk) files
files-IsContained = (file_a-IsContained, (tt, (file_b-IsContained, tt)))

-- The dry run fails at the second file.
dry_run_test : failed_file (dry_run sim disk beginner [] files start).0 ≡ some file_b
unfolding dry_run eq_bytes
dry_run_test = refl

dry_run-committed_example :
    (dry_run sim disk beginner [] files start).1.committed ≡ codes "OLD" ∷ []
dry_run-committed_example =
    dry_run-committed sim sim_transactions disk sim_keeps beginner [] files start files-IsContained

apply_files_fails :
    (apply_files sim disk beginner (codes "hist") (new_result 3) files start).0.error
    ≡ some (migration_failed (statement_failed 2 2 (codes "2_b.sql") (codes "syntax error")))
unfolding apply_files eq_bytes
apply_files_fails = refl

apply_files-Stopped_example :
    Stopped sim sim_transactions disk sim_keeps beginner (codes "hist") files (new_result 3) start
apply_files-Stopped_example =
    apply_files-Stopped sim sim_transactions disk sim_keeps beginner (codes "hist") files
      (new_result 3) start files-IsContained apply_files_fails

-- The run keeps the first file, and its record.
apply_test : applied_files (apply sim disk beginner [] files start).0 ≡ file_a ∷ []
unfolding apply eq_bytes
apply_test = refl

apply-MigratesAll_example :
    let (run, w') = apply sim disk beginner [] files start in
    MigratesAll sim sim_transactions disk
      (table_of sim sim_transactions disk sim_keeps [])
      (applied_files run)
      (codes "OLD" ∷ [])
      w'.committed
apply-MigratesAll_example =
    apply-MigratesAll sim sim_transactions disk sim_keeps beginner [] files start files-IsContained

-- The table has a record of the first file.
abbrev recorded : Store
recorded = record {
  clock = 1;
  committed =
      record { version = pos 1; name = codes "1_a.sql"; applied_at = other_value; checksum = [] }
      ∷ [];
  working = [];
  in_tx = false;
}

abbrev covered_run : Run × Store
covered_run = apply store disk execer [] files recorded

covered_test : applied_files covered_run.0 ≡ file_b ∷ []
unfolding apply eq_bytes
covered_test = refl

went_through : covered_run.0.error ≡ none
unfolding apply eq_bytes
went_through = refl

default_accepted : validate_table_name [] ≡ ok (codes "schemago_migrations")
unfolding validate_table_name
default_accepted = refl

apply-Covers_example :
    Covers store disk execer
      (codes "schemago_migrations")
      files
      recorded
      (applied_files covered_run.0)
      covered_run.1
apply-Covers_example =
    apply-Covers store disk execer [] (codes "schemago_migrations") files recorded default_accepted
      went_through
