-- ===== src/Apply/Refines.antt =====
-- `Apply` beside the abstract view of its migrations, on the contents of the database.
use mathlib.Core.List.{map-append}
use schemago.Base.{
  ◌≡◌, refl, sym, ◌∙◌, Option, none, some, List, [], ◌∷◌, ◌++◌, All, ok, err, Bool-cases,
  Result-cases, inl, inr, length, map, append_assoc, append-nil,
}
use schemago.Text.{Bytes}
use schemago.Files.{Files}
use schemago.Migration.Filename.{MigrationFile}
use schemago.History.{Time}
use schemago.History.Table.{accepted_twice, validate_table_name}
use schemago.Database.{Runtime}
use schemago.Database.Transactions.{Transactions}
use schemago.Apply.{RunResult, Run, grow, new_result}
use schemago.Apply.Step.{
  Handle, nil, beginner, execer, apply_file, is_already_applied, apply_files, apply_to, apply,
}
use schemago.Apply.Laws.{KeepsTable, apply_file-Ended}
use schemago.Apply.Migrated.{apply_file-Post}
use schemago.Apply.Atomic.{applied_files}
use schemago.DryRun.Rollback.{IsContained?}
use schemago.Apply.Effects.{Migrates, MigratesAll}

module _ (rt : Runtime) (tx : Transactions rt) (fs : Files) (k : KeepsTable rt tx fs) where
  module _ (table : Bytes) (valid : validate_table_name table ≡ ok table) where
    -- The files that a run applies after those in `res`, and what they make of the contents.
    abbrev Added : RunResult → Run → tx.Contents → tx.Contents → Type 0
    Added res run c c' =
        (new : List MigrationFile) × (applied_files run ≡ map (λ m. m.file) res.applied ++ new)
        × MigratesAll rt tx fs table new c c'

    Added-grow :
        (res : RunResult) (file : MigrationFile) (dur : Time) (run : Run) (c d c' : tx.Contents)
        → Migrates rt tx fs table file c d
        → Added (grow res file dur) run d c'
        → Added res run c c'
    Added-grow res file dur run c d c' m (new, e, all) = (
      file ∷ new,
      e ∙ rw map-append (append_assoc (map (λ m'. m'.file) res.applied) (file ∷ []) new),
      (d, m, all),
    )

    apply_files-Added :
        (db : Handle) (files : List (Option MigrationFile)) (res : RunResult) (w : rt.World)
        → All (IsContained? rt tx fs) files
        → let (run, w') = apply_files rt fs db table res files w in
          Added res run (tx.committed w) (tx.committed w')
    unfolding apply_files
    apply_files-Added db [] res w all = ([], sym (append-nil _), refl)
    apply_files-Added db (none ∷ files) res w all = apply_files-Added db files res w all.1
    apply_files-Added db (some f ∷ files) res w all =
        elim (Bool-cases (is_already_applied rt fs db table f w)) [
          | inl t ↦ rw (t, apply_files) (apply_files-Added db files res w all.1)
          | inr t ↦ elim (Result-cases (apply_file rt fs table f w).0.0) [
            | inl (a, e) ↦
                let dur = (apply_file rt fs table f w).0.1 in
                let w' = (apply_file rt fs table f w).1 in
                let (run, v) = apply_files rt fs db table (grow res f dur) files w' in
                rw (t, apply_files)
                  (rw e (
                    Added-grow res f dur run (tx.committed w) (tx.committed w') (tx.committed v)
                      (rw e at (apply_file-Post rt tx fs k table valid f w all.0))
                      (apply_files-Added db files (grow res f dur) w' all.1)))
            | inr (x, e) ↦
                rw (t, apply_files)
                  (rw e
                    ([], sym (append-nil _), rw e at (apply_file-Ended rt tx fs table f w k all.0)))
          ]
        ]

  -- The table that a name stands for, where it is accepted.
  abbrev pub table_of : Bytes → Bytes
  table_of name = elim (validate_table_name name) [ ok table ↦ table | err e ↦ name ]

  apply_to-MigratesAll :
      (db : Handle) (name : Bytes) (pending : List (Option MigrationFile)) (w : rt.World)
      → All (IsContained? rt tx fs) pending
      → let (run, w') = apply_to rt fs db name pending w in
        MigratesAll rt tx fs (table_of name) (applied_files run) (tx.committed w) (tx.committed w')
  apply_to-MigratesAll db name [] w all = refl
  apply_to-MigratesAll db name (file ∷ files) w all =
      elim (Result-cases (validate_table_name name)) [
        | inr (x, e) ↦ rw (e, apply_to) refl
        | inl (table, e) ↦
            let (new, same, ran) =
              apply_files-Added table (accepted_twice name e) db (file ∷ files)
                (new_result (length (file ∷ files))) w all in
            rw (e, apply_to, table_of) (rw same ran)
      ]

  -- Whatever `Apply` returns, errors included, it has run the migrations that it lists as applied, in
  -- their order and each as a whole, on the contents that were committed, and nothing else is
  -- committed. A migration runs the statements of its file one by one and inserts its row in the
  -- history table. This takes the laws of transactions, and that neither the statements on the history
  -- table nor those of the files end the transaction.
  pub apply-MigratesAll :
      (db : Handle) (name : Bytes) (pending : List (Option MigrationFile)) (w : rt.World)
      → All (IsContained? rt tx fs) pending
      → let (run, w') = apply rt fs db name pending w in
        MigratesAll rt tx fs (table_of name) (applied_files run) (tx.committed w) (tx.committed w')
  unfolding apply
  apply-MigratesAll nil name pending w all = refl
  apply-MigratesAll beginner name pending w all = apply_to-MigratesAll beginner name pending w all
  apply-MigratesAll execer name pending w all = apply_to-MigratesAll execer name pending w all
