-- ===== src/Apply/Repeated.antt =====
-- What `ComputePending` says after a run of `Apply`.
use schemago.Base.{
  ◌≡◌, refl, sym, ap, ◌∙◌, subst, false, none, some, List, [], ◌∷◌, ◌++◌, map, length, append-nil,
  ok, All, Sorted,
}
use schemago.Text.{Bytes}
use schemago.Files.{Files}
use schemago.Map.Keys.{has_key}
use schemago.Migration.Filename.{MigrationFile}
use schemago.Migration.Order.Sorted.{IsOther}
use schemago.History.{AppliedMigration}
use schemago.History.Table.{accepted_twice, validate_table_name}
use schemago.History.Store.{get_applied_migrations}
use schemago.History.Reads.{HistoryTable, records, get_applied_migrations_inv}
use schemago.History.Pending.{compute_pending}
use schemago.History.Pending.Exact.{record_version, compute_pending-Verdict}
use schemago.History.Pending.Unapplied.{Sorted-unapplied, unapplied-unrecorded}
use schemago.History.Pending.Grown.{compute_pending-RecordsAll}
use schemago.Database.{Runtime}
use schemago.Database.Transactions.{Transactions}
use schemago.Apply.{Run, new_result}
use schemago.Apply.Step.{Handle, nil, beginner, execer, apply_files, apply_to, apply}
use schemago.Apply.Recorded.{IsIdle, IsProper}
use schemago.Apply.Laws.{KeepsTable}
use schemago.Apply.Atomic.{applied_files}
use schemago.Apply.Progress.{apply_files-Progress}

module _ (rt : Runtime) (tx : Transactions rt) (fs : Files) (ht : HistoryTable rt tx)
    (k : KeepsTable rt tx fs) where
  -- What a run leaves, in terms of what was pending before it.
  abbrev Leaves : Bytes → List MigrationFile → List MigrationFile → Run → rt.World → Type 0
  Leaves table files pending run w' =
      (left : List MigrationFile) × (applied_files run ++ left ≡ pending)
      × (compute_pending fs files (records rt tx ht table (tx.committed w')) ≡ ok left)
      × (run.error ≡ none → left ≡ [])

  apply_files-Leaves :
      (db : Handle) (table : Bytes) (files pending : List MigrationFile) (w : rt.World)
      → validate_table_name table ≡ ok table
      → IsIdle rt tx fs ht w
      → All (IsProper rt tx fs ht table) pending
      → Sorted IsOther files
      → compute_pending fs files (records rt tx ht table (tx.committed w)) ≡ ok pending
      → let (run, w') =
          apply_files rt fs db table
            (new_result (length (map some pending)))
            (map some pending)
            w in
        Leaves table files pending run w'
  apply_files-Leaves db table files pending w valid idle proper distinct h =
      let before = records rt tx ht table (tx.committed w) in
      let (listed, present, intact) = rw h at (compute_pending-Verdict fs files before) in
      let res = new_result (length (map some pending)) in
      let (done, left, split, ran, rs, complete) =
        apply_files-Progress rt tx fs ht k table valid db pending res w idle proper
          (subst (Sorted IsOther) (sym listed) (Sorted-unapplied before files distinct))
          (subst (All (λ f. has_key record_version f.version before ≡ false)) (sym listed)
            (unapplied-unrecorded before files)) in
      let w' = (apply_files rt fs db table res (map some pending) w).1 in
      (
        left,
        ap (λ fs. fs ++ left) ran ∙ split,
        compute_pending-RecordsAll fs files done left before
            (records rt tx ht table (tx.committed w')) distinct (h ∙ ap ok (sym split)) rs,
        complete,
      )

  apply_to-Leaves :
      (db : Handle) (name table : Bytes) (files pending : List MigrationFile) (w : rt.World)
      → validate_table_name name ≡ ok table
      → IsIdle rt tx fs ht w
      → All (IsProper rt tx fs ht table) pending
      → Sorted IsOther files
      → compute_pending fs files (records rt tx ht table (tx.committed w)) ≡ ok pending
      → let (run, w') = apply_to rt fs db name (map some pending) w in
        Leaves table files pending run w'
  apply_to-Leaves db name table files [] w valid idle proper distinct h = ([], refl, h, λ e. refl)
  apply_to-Leaves db name table files (f ∷ pending) w valid idle proper distinct h =
      rw (valid, apply_to)
        (apply_files-Leaves db table files (f ∷ pending) w (accepted_twice name valid) idle proper
          distinct h)

  pub apply-Leaves :
      (db : Handle) (name table : Bytes) (files pending : List MigrationFile)
      (history : List AppliedMigration) (w : rt.World)
      → validate_table_name name ≡ ok table
      → IsIdle rt tx fs ht w
      → All (IsProper rt tx fs ht table) pending
      → Sorted IsOther files
      → get_applied_migrations rt name w ≡ ok history
      → compute_pending fs files history ≡ ok pending
      → let (run, w') = apply rt fs db name (map some pending) w in
        Leaves table files pending run w'
  unfolding apply
  apply-Leaves db name table files pending history w valid idle proper distinct reads h =
      let same = get_applied_migrations_inv rt tx ht name table w idle valid reads in
      go db (subst (λ a. compute_pending fs files a ≡ ok pending) same h)
    where
      go :
          (db : Handle)
          → compute_pending fs files (records rt tx ht table (tx.committed w)) ≡ ok pending
          → let (run, w') = apply rt fs db name (map some pending) w in
            Leaves table files pending run w'
      go nil h' = (pending, refl, h', λ e. absurd (cc e))
      go beginner h' =
          apply_to-Leaves beginner name table files pending w valid idle proper distinct h'
      go execer h' = apply_to-Leaves execer name table files pending w valid idle proper distinct h'

  -- Whatever `Apply` returns, errors included, for what `ComputePending` says is pending by the files, of
  -- different versions, and by the history as it is read: it has applied the first of the pending migrations,
  -- in their order, and for the history as it is read at any time after it, while nothing else is committed,
  -- `ComputePending` says that exactly the others are pending, without an error. This takes the laws of
  -- transactions and of the history table, whose primary key is the version, that no error of reading a history table
  -- that exists has the text of a missing one, that both reads are outside of a transaction, and that the statements of the pending files neither end the transaction nor change the
  -- history table.
  pub apply_resumes :
      (db : Handle) (name table : Bytes) (files pending : List MigrationFile)
      (history later : List AppliedMigration) (w v : rt.World)
      → validate_table_name name ≡ ok table
      → IsIdle rt tx fs ht w
      → All (IsProper rt tx fs ht table) pending
      → Sorted IsOther files
      → get_applied_migrations rt name w ≡ ok history
      → compute_pending fs files history ≡ ok pending
      → IsIdle rt tx fs ht v
      → tx.committed v ≡ tx.committed (apply rt fs db name (map some pending) w).1
      → get_applied_migrations rt name v ≡ ok later
      → (left : List MigrationFile) × (applied_files (apply rt fs db name (map some pending) w).0
            ++ left
          ≡ pending)
        × (compute_pending fs files later ≡ ok left)
  apply_resumes db name table files pending history later w v valid idle proper distinct reads h
        idle_later same read_later =
      let (left, split, rest, complete) =
        apply-Leaves db name table files pending history w valid idle proper distinct reads h in
      let found = get_applied_migrations_inv rt tx ht name table v idle_later valid read_later in
      (
        left,
        split,
        subst (λ a. compute_pending fs files a ≡ ok left)
            (ap (records rt tx ht table) (sym same) ∙ sym found) rest,
      )

  -- If `Apply` returns no error for what `ComputePending` says is pending by the files, of different versions, and by
  -- the history as it is read, then it has applied all of this, in its order, and for the history as it is read at
  -- any time after it, while nothing else is committed, `ComputePending` says that nothing is pending, without an
  -- error. This takes the laws of transactions and of the history table, whose primary key is the version, that no error of reading a history
  -- table that exists has the text of a missing one, that both reads are outside of a transaction, and that the statements of the pending files neither end the
  -- transaction nor change the history table.
  pub apply-compute_pending :
      (db : Handle) (name table : Bytes) (files pending : List MigrationFile)
      (history later : List AppliedMigration) (w v : rt.World)
      → validate_table_name name ≡ ok table
      → IsIdle rt tx fs ht w
      → All (IsProper rt tx fs ht table) pending
      → Sorted IsOther files
      → get_applied_migrations rt name w ≡ ok history
      → compute_pending fs files history ≡ ok pending
      → (apply rt fs db name (map some pending) w).0.error ≡ none
      → IsIdle rt tx fs ht v
      → tx.committed v ≡ tx.committed (apply rt fs db name (map some pending) w).1
      → get_applied_migrations rt name v ≡ ok later
      → (applied_files (apply rt fs db name (map some pending) w).0 ≡ pending)
        × (compute_pending fs files later ≡ ok [])
  apply-compute_pending db name table files pending history later w v valid idle proper distinct
        reads h went idle_later same read_later =
      let run = (apply rt fs db name (map some pending) w).0 in
      let (left, split, rest, complete) =
        apply-Leaves db name table files pending history w valid idle proper distinct reads h in
      let found = get_applied_migrations_inv rt tx ht name table v idle_later valid read_later in
      let done = complete went in
      (
        sym (append-nil _) ∙ subst (λ l. applied_files run ++ l ≡ pending) done split,
        subst (λ a. compute_pending fs files a ≡ ok [])
            (ap (records rt tx ht table) (sym same) ∙ sym found)
            (subst
              (λ l.
                compute_pending fs files (
                  records rt tx ht table
                    (tx.committed (apply rt fs db name (map some pending) w).1))
                ≡ ok l)
              done rest),
      )
