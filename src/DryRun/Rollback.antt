-- ===== src/DryRun/Rollback.antt =====
-- What `DryRun` leaves committed.
use schemago.Base.{
  ◌≡◌, refl, ◌∙◌, Option, none, some, List, [], ◌∷◌, All, Result, ok, err, Bool-cases, length,
  Result-cases, inl, inr,
}
use schemago.Text.{Bytes}
use schemago.Files.{Files}
use schemago.Migration.Filename.{MigrationFile}
use schemago.Migration.Statement.{split_statements}
use schemago.History.Table.{validate_table_name}
use schemago.History.Store.{ensure_table, create_query}
use schemago.Database.{Runtime}
use schemago.Database.Transactions.{Transactions}
use schemago.Apply.{RunResult, grow, new_result}
use schemago.Apply.NonTransactional.{is_non_transactional}
use schemago.Apply.Step.{Failure, Handle, nil, beginner, execer, read_step, check_step, record_step}
use schemago.Apply.Laws.{
  IsContained, KeepsTable, Inside, Left, Left-continue, Inside-now, Inside-exec,
  run_statements-Left, record_step-Left,
}
use schemago.DryRun.{
  no_cleanup, simulate, simulate_file, simulate_files, dry_run_in_tx, dry_run_to, dry_run,
}

-- A file that is nil, or whose statements end no transaction.
abbrev pub IsContained? :
    (rt : Runtime) (tx : Transactions rt) (fs : Files) → Option MigrationFile → Type 0
IsContained? rt tx fs none = Unit
IsContained? rt tx fs (some file) = IsContained rt tx fs file

module _ (rt : Runtime) (tx : Transactions rt) (fs : Files) (k : KeepsTable rt tx fs) where
  simulate-Left :
      (c : tx.Contents) (table : Bytes) (file : MigrationFile) (w : rt.World)
      → IsContained rt tx fs file
      → Inside rt tx fs c w
      → let (r, w') = simulate rt fs table file w in Left rt tx fs c r w'
  unfolding simulate read_step check_step
  simulate-Left c table file w contained h = elim (Result-cases (fs.read_file file.path)) [
    | inr (x, e) ↦ rw (e, simulate, read_step) h.0
    | inl (content, e) ↦ elim (Bool-cases (is_non_transactional content)) [
      | inl t ↦ rw (e, simulate, read_step) (rw (t, check_step) h.0)
      | inr t ↦
          rw (e, simulate, read_step)
            (rw (t, check_step)
              (Left-continue rt tx fs c _ (λ _. record_step rt fs (no_cleanup rt fs) table file) _
                (run_statements-Left rt tx fs (no_cleanup rt fs) (λ v. refl) c file
                  (split_statements content) w (contained content e) h)
                (λ a v _ i.
                  record_step-Left rt tx fs (no_cleanup rt fs) (λ v. refl) c table file v k i)))
    ]
  ]

  Left-now :
      {A : Type 0} (c : tx.Contents) (r : Result Failure A) (w : rt.World)
      → Left rt tx fs c r w
      → Left rt tx fs c r (rt.now w).1
  Left-now c (ok a) w h = Inside-now rt tx fs c w h
  Left-now c (err f) w h = tx.now_committed w ∙ h

  simulate_file-Left :
      (c : tx.Contents) (table : Bytes) (file : MigrationFile) (w : rt.World)
      → IsContained rt tx fs file
      → Inside rt tx fs c w
      → let ((r, dur), w') = simulate_file rt fs table file w in Left rt tx fs c r w'
  unfolding simulate_file
  simulate_file-Left c table file w contained h =
      let (r, w1) = simulate rt fs table file (rt.now w).1 in
      Left-now c r w1
        (simulate-Left c table file (rt.now w).1 contained (Inside-now rt tx fs c w h))

  simulate_files-committed :
      (c : tx.Contents) (table : Bytes) (files : List (Option MigrationFile)) (res : RunResult)
      (w : rt.World)
      → All (IsContained? rt tx fs) files
      → Inside rt tx fs c w
      → tx.committed (simulate_files rt fs table res files w).1 ≡ c
  unfolding simulate_files
  simulate_files-committed c table [] res w all h = h.0
  simulate_files-committed c table (none ∷ files) res w all h =
      simulate_files-committed c table files res w all.1 h
  simulate_files-committed c table (some file ∷ files) res w all h =
      elim (Result-cases (simulate_file rt fs table file w).0.0) [
        | inl (a, e) ↦
            rw (e, simulate_files)
              (simulate_files-committed c table files
                (grow res file (simulate_file rt fs table file w).0.1)
                (simulate_file rt fs table file w).1 all.1
                (rw e at (simulate_file-Left c table file w all.0 h)))
        | inr (x, e) ↦ rw (e, simulate_files) (rw e at (simulate_file-Left c table file w all.0 h))
      ]

  ensure_table-Inside :
      (c : tx.Contents) (name : Bytes) (w : rt.World)
      → Inside rt tx fs c w
      → Inside rt tx fs c (ensure_table rt name w).1
  unfolding ensure_table
  ensure_table-Inside c name w h = elim (Result-cases (validate_table_name name)) [
    | inl (table, e) ↦
        rw (e, ensure_table)
          (Inside-exec rt tx fs c (create_query table) [] w (k.create_kept name table e) h)
    | inr (x, e) ↦ rw (e, ensure_table) h
  ]

  dry_run_in_tx-committed :
      (c : tx.Contents) (table : Bytes) (files : List (Option MigrationFile)) (w : rt.World)
      → All (IsContained? rt tx fs) files
      → Inside rt tx fs c w
      → tx.committed (dry_run_in_tx rt fs table files w).1 ≡ c
  unfolding dry_run_in_tx
  dry_run_in_tx-committed c table files w all h = elim (Result-cases (ensure_table rt table w).0) [
    | inl (a, e) ↦
        rw (e, dry_run_in_tx)
          (simulate_files-committed c table files (new_result (length files))
            (ensure_table rt table w).1 all (ensure_table-Inside c table w h))
    | inr (x, e) ↦ rw (e, dry_run_in_tx) (ensure_table-Inside c table w h).0
  ]

  dry_run_to-committed :
      (name : Bytes) (pending : List (Option MigrationFile)) (w : rt.World)
      → All (IsContained? rt tx fs) pending
      → tx.committed (dry_run_to rt fs name pending w).1 ≡ tx.committed w
  dry_run_to-committed name [] w all = refl
  dry_run_to-committed name (file ∷ files) w all = elim (Result-cases (validate_table_name name)) [
    | inr (x, e) ↦ rw (e, dry_run_to) refl
    | inl (table, e) ↦ elim (Result-cases (rt.begin_tx w).0) [
      | inr (y, b) ↦ rw (e, dry_run_to) (rw b (tx.begin_committed w))
      | inl (a, b) ↦
          rw (e, dry_run_to)
            (rw b (
              tx.rollback_committed _
              ∙ dry_run_in_tx-committed (tx.committed w) table (file ∷ files) (rt.begin_tx w).1 all
                  (tx.begin_committed w, tx.begin_in_tx w b)))
    ]
  ]

  -- Whatever a dry run returns, errors included, what is committed stays as it was. This takes the
  -- laws of transactions, and that neither the statements on the history table nor those of the files
  -- end the transaction themselves, as COMMIT does.
  pub dry_run-committed :
      (db : Handle) (name : Bytes) (pending : List (Option MigrationFile)) (w : rt.World)
      → All (IsContained? rt tx fs) pending
      → tx.committed (dry_run rt fs db name pending w).1 ≡ tx.committed w
  unfolding dry_run
  dry_run-committed nil name pending w all = refl
  dry_run-committed beginner name pending w all = dry_run_to-committed name pending w all
  dry_run-committed execer name pending w all = dry_run_to-committed name pending w all
