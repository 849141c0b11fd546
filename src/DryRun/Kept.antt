-- ===== src/DryRun/Kept.antt =====
-- A property of the world that the statements of the program and of the files keep, across whole runs
-- of `DryRun`.
use schemago.Base.{none, some, List, [], ◌∷◌, Option, Result-cases, inl, inr}
use schemago.Text.{Bytes}
use schemago.Files.{Files}
use schemago.Migration.Filename.{MigrationFile}
use schemago.Migration.Statement.{split_statements}
use schemago.History.Table.{validate_table_name}
use schemago.History.Store.{ensure_table}
use schemago.Database.{Runtime}
use schemago.Apply.{RunResult}
use schemago.Apply.Step.{
  Handle, nil, beginner, execer, ◌>>=◌, check_step, run_statements, record_step,
}
use schemago.Apply.Kept.{
  RunsKeep, bind-IsKept, reading, checking, run_statements-IsKept, record_step-IsKept,
  ensure_table-Kept,
}
use schemago.DryRun.{
  no_cleanup, simulate, simulate_file, simulate_files, dry_run_in_tx, dry_run_to, dry_run,
}

module _ (rt : Runtime) (fs : Files) (K : rt.World → Type 0) (kept : RunsKeep rt fs K) where
  simulate_file-Kept :
      (table : Bytes) (file : MigrationFile) (w : rt.World)
      → K w
      → K (simulate_file rt fs table file w).1
  unfolding simulate_file simulate
  simulate_file-Kept table file w h =
      let cleanup = no_cleanup rt fs in
      let recorded = record_step rt fs cleanup table file in
      kept.nows _ (
        reading rt fs K kept file
          (λ content. check_step rt fs file content >>= λ _.
            run_statements rt fs cleanup file (split_statements content) >>= λ _. recorded)
          (λ content e.
            checking rt fs K kept file content
              (λ _. run_statements rt fs cleanup file (split_statements content) >>= λ _. recorded)
              (bind-IsKept rt fs K kept
                (run_statements rt fs cleanup file (split_statements content)) (λ _. recorded)
                (run_statements-IsKept rt fs K kept cleanup (λ v i. i) file
                  (split_statements content) (kept.statements file.path content e))
                (λ _. record_step-IsKept rt fs K kept cleanup (λ v i. i) table file)))
          (rt.now w).1 (kept.nows w h))

  simulate_files-Kept :
      (table : Bytes) (files : List (Option MigrationFile)) (res : RunResult) (w : rt.World)
      → K w
      → K (simulate_files rt fs table res files w).1
  unfolding simulate_files
  simulate_files-Kept table [] res w h = h
  simulate_files-Kept table (none ∷ files) res w h = simulate_files-Kept table files res w h
  simulate_files-Kept table (some f ∷ files) res w h =
      let next = simulate_file-Kept table f w h in
      elim (Result-cases (simulate_file rt fs table f w).0.0) [
        | inl (a, e) ↦ rw (e, simulate_files) (simulate_files-Kept table files _ _ next)
        | inr (x, e) ↦ rw (e, simulate_files) next
      ]

  dry_run_in_tx-Kept :
      (table : Bytes) (pending : List (Option MigrationFile)) (w : rt.World)
      → K w
      → K (dry_run_in_tx rt fs table pending w).1
  unfolding dry_run_in_tx
  dry_run_in_tx-Kept table pending w h =
      let next = ensure_table-Kept rt fs K kept table w h in
      elim (Result-cases (ensure_table rt table w).0) [
        | inl (a, e) ↦ rw (e, dry_run_in_tx) (simulate_files-Kept table pending _ _ next)
        | inr (x, e) ↦ rw (e, dry_run_in_tx) next
      ]

  dry_run_to-Kept :
      (name : Bytes) (pending : List (Option MigrationFile)) (w : rt.World)
      → K w
      → K (dry_run_to rt fs name pending w).1
  dry_run_to-Kept name [] w h = h
  dry_run_to-Kept name (file ∷ files) w h = elim (Result-cases (validate_table_name name)) [
    | inr (x, e) ↦ rw (e, dry_run_to) h
    | inl (table, e) ↦
        let begun = kept.begins w h in
        elim (Result-cases (rt.begin_tx w).0) [
          | inr (x, d) ↦ rw (e, dry_run_to) (rw d begun)
          | inl (a, d) ↦
              rw (e, dry_run_to)
                (rw d (
                  kept.rollbacks _
                    (dry_run_in_tx-Kept table (file ∷ files) (rt.begin_tx w).1 begun)))
        ]
  ]

  pub dry_run-Kept :
      (db : Handle) (name : Bytes) (pending : List (Option MigrationFile)) (w : rt.World)
      → K w
      → K (dry_run rt fs db name pending w).1
  unfolding dry_run
  dry_run-Kept nil name pending w h = h
  dry_run-Kept beginner name pending w h = dry_run_to-Kept name pending w h
  dry_run-Kept execer name pending w h = dry_run_to-Kept name pending w h
