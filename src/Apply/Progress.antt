-- ===== src/Apply/Progress.antt =====
-- How far a run of `Apply` has come, by the records of the history table.
use mathlib.Core.List.{map-append}
use schemago.Base.{
  ◌≡◌, refl, sym, ap, ◌∙◌, false, none, some, List, [], ◌∷◌, ◌++◌, map, append_assoc, append-nil,
  ok, All, Sorted, Result-cases, inl, inr, arith,
}
use schemago.Text.{Bytes}
use schemago.Files.{Files}
use schemago.Map.Keys.{has_key}
use schemago.Map.Inserted.{has_key-Inserted}
use schemago.Migration.Filename.{MigrationFile}
use schemago.Migration.Order.Sorted.{IsOther}
use schemago.History.Table.{validate_table_name}
use schemago.History.Store.{get_applied_migrations}
use schemago.History.Reads.{HistoryTable, records, get_applied_migrations_inv}
use schemago.History.Pending.Exact.{record_version}
use schemago.History.Pending.Grown.{Records, RecordsAll}
use schemago.Database.{Runtime}
use schemago.Database.Transactions.{Transactions}
use schemago.Apply.{RunResult, Run, grow}
use schemago.Apply.Step.{Handle, nil, beginner, execer, apply_file, is_already_applied, apply_files}
use schemago.Apply.Recorded.{IsIdle, IsProper, Migrates-Records, apply_file-Idle}
use schemago.Apply.Laws.{KeepsTable}
use schemago.Apply.Atomic.{applied_files}
use schemago.Apply.Migrated.{apply_file-Post}
use schemago.Apply.Laws.{apply_file-Ended}

module _ (rt : Runtime) (tx : Transactions rt) (fs : Files) (ht : HistoryTable rt tx)
    (k : KeepsTable rt tx fs) (table : Bytes) (valid : validate_table_name table ≡ ok table) where
  -- The history has no record of the file's version.
  abbrev IsNew : tx.Contents → MigrationFile → Type 0
  IsNew c file = has_key record_version file.version (records rt tx ht table c) ≡ false

  -- What a run has done from a world to another: it has recorded the first of the pending files, and all of them if
  -- it has no error.
  abbrev pub Progress : RunResult → Run → List MigrationFile → rt.World → rt.World → Type 0
  Progress res run pending w w' =
      (done : List MigrationFile) × (left : List MigrationFile) × (done ++ left ≡ pending)
      × (applied_files run ≡ map (λ m. m.file) res.applied ++ done)
      × RecordsAll fs done (records rt tx ht table (tx.committed w))
          (records rt tx ht table (tx.committed w'))
      × (run.error ≡ none → left ≡ [])

  IsNew-Records :
      (file : MigrationFile) (pending : List MigrationFile) (c d : tx.Contents)
      → Records fs file (records rt tx ht table c) (records rt tx ht table d)
      → All (IsOther file) pending
      → All (IsNew c) pending
      → All (IsNew d) pending
  IsNew-Records file [] c d r o n = tt
  IsNew-Records file (f ∷ pending) c d r o n = (
    (let eq = has_key-Inserted record_version f.version r.inserted in
        let kept = r.version_kept in rw (eq, kept) (ground (arith, o.0, n.0))),
    IsNew-Records file pending c d r o.1 n.1,
  )

  not_already_applied :
      (db : Handle) (file : MigrationFile) (w : rt.World)
      → IsIdle rt tx fs ht w
      → IsNew (tx.committed w) file
      → is_already_applied rt fs db table file w ≡ false
  unfolding is_already_applied
  not_already_applied nil file w idle n = refl
  not_already_applied beginner file w idle n = refl
  not_already_applied execer file w idle n =
      elim (Result-cases (get_applied_migrations rt table w)) [
        | inr (x, e) ↦ rw (e, is_already_applied) refl
        | inl (applied, e) ↦
            let same = get_applied_migrations_inv rt tx ht table table w idle valid e in
            rw (e, is_already_applied) (rw same n)
      ]

  pub apply_files-Progress :
      (db : Handle) (pending : List MigrationFile) (res : RunResult) (w : rt.World)
      → IsIdle rt tx fs ht w
      → All (IsProper rt tx fs ht table) pending
      → Sorted IsOther pending
      → All (IsNew (tx.committed w)) pending
      → let (run, w') = apply_files rt fs db table res (map some pending) w in
        Progress res run pending w w'
  unfolding apply_files
  apply_files-Progress db [] res w idle p s n = ([], [], refl, sym (append-nil _), refl, λ e. refl)
  apply_files-Progress db (f ∷ pending) res w idle p s n =
      let fresh = not_already_applied db f w idle n.0 in
      elim (Result-cases (apply_file rt fs table f w).0.0) [
        | inr (x, e) ↦
            rw (fresh, apply_files)
              (rw e (
                [],
                f ∷ pending,
                refl,
                sym (append-nil _),
                ap (records rt tx ht table) (rw e at (apply_file-Ended rt tx fs table f w k p.0.0)),
                λ none_failed. absurd (cc none_failed),
              ))
        | inl (a, e) ↦
            let dur = (apply_file rt fs table f w).0.1 in
            let w' = (apply_file rt fs table f w).1 in
            let r =
              Migrates-Records rt tx fs ht table f (tx.committed w) (tx.committed w') p.0.1
                (rw e at (apply_file-Post rt tx fs k table valid f w p.0.0)) in
            let (done, left, split, listed, rs, complete) =
              apply_files-Progress db pending (grow res f dur) w'
                (apply_file-Idle rt tx fs ht table f w e) p.1 s.1
                (IsNew-Records f pending (tx.committed w) (tx.committed w') r s.0 n.1) in
            rw (fresh, apply_files)
              (rw e (
                f ∷ done,
                left,
                ap (◌∷◌ f) split,
                listed ∙ rw map-append (append_assoc (map (λ m. m.file) res.applied) (f ∷ []) done),
                (records rt tx ht table (tx.committed w'), r, rs),
                complete,
              ))
      ]
