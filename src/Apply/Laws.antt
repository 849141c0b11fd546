-- ===== src/Apply/Laws.antt =====
-- What each step of a migration leaves committed, up to the end of the transaction.
use schemago.Base.{
  ◌≡◌, refl, ◌∙◌, subst, true, false, List, [], ◌∷◌, All, Result, ok, err, ◌==◌, Bool-cases,
  Result-cases, inl, inr,
}
use schemago.Text.{Bytes, is_empty}
use schemago.Text.Trim.{trim_space}
use schemago.Files.{Files}
use schemago.Migration.Filename.{MigrationFile}
use schemago.Migration.Statement.{Statement, split_statements}
use schemago.History.{AppliedMigration}
use schemago.History.Table.{validate_table_name}
use schemago.History.Store.{record_migration, insert_query, create_query}
use schemago.Database.{Runtime, SqlArg}
use schemago.Database.Transactions.{Transactions}
use schemago.Apply.NonTransactional.{is_non_transactional}
use schemago.Apply.Step.{
  Failure, Act, continue, settle, read_step, check_step, begin_step, run_statements, record_step,
  record_of, commit_step, roll_back, transaction, perform, apply_file,
}

module _ (rt : Runtime) (tx : Transactions rt) (fs : Files) where
  -- The statements of a file end no transaction.
  abbrev pub IsContained : MigrationFile → Type 0
  IsContained file =
      (content : Bytes)
      → fs.read_file file.path ≡ ok content
      → All (λ (st : Statement). tx.ends_tx st.sql ≡ false) (split_statements content)

  -- The statements on a history table of an accepted name end no transaction.
  pub record KeepsTable : Type 0 where
    pub insert_kept :
        (name table : Bytes)
        → validate_table_name name ≡ ok table
        → tx.ends_tx (insert_query table) ≡ false
    pub create_kept :
        (name table : Bytes)
        → validate_table_name name ≡ ok table
        → tx.ends_tx (create_query table) ≡ false

  -- The world is in a transaction, and `c` is committed.
  abbrev pub Inside : tx.Contents → rt.World → Type 0
  Inside c w = (tx.committed w ≡ c) × (tx.in_tx w ≡ true)

  -- A world is left in the transaction by success; `c` stays committed in any case.
  abbrev pub Left : {A : Type 0} → tx.Contents → Result Failure A → rt.World → Type 0
  Left c (ok a) w = Inside c w
  Left c (err f) w = tx.committed w ≡ c

  pub Inside-now : (c : tx.Contents) (w : rt.World) → Inside c w → Inside c (rt.now w).1
  Inside-now c w h = (tx.now_committed w ∙ h.0, tx.now_in_tx w ∙ h.1)

  pub Inside-exec :
      (c : tx.Contents) (q : Bytes) (args : List SqlArg) (w : rt.World)
      → tx.ends_tx q ≡ false
      → Inside c w
      → Inside c (rt.exec q args w).1
  Inside-exec c q args w e h =
      (tx.exec_committed q args w h.1 e ∙ h.0, tx.exec_in_tx q args w h.1 e)

  pub Left-continue :
      {A B : Type 0} (c : tx.Contents) (r : Result Failure A) (f : A → Act rt.World B)
      (w : rt.World)
      → Left c r w
      → ((a : A) (v : rt.World) → r ≡ ok a → Inside c v → let (s, v') = f a v in Left c s v')
      → let (s, w') = continue r f w in Left c s w'
  Left-continue c (ok a) f w h k = k a w refl h
  Left-continue c (err e) f w h k = h

  record_migration-Inside :
      (c : tx.Contents) (name : Bytes) (app : AppliedMigration) (w : rt.World)
      → KeepsTable
      → Inside c w
      → Inside c (record_migration rt name app w).1
  unfolding record_migration
  record_migration-Inside c name app w k h = elim (Result-cases (validate_table_name name)) [
    | inl (table, e) ↦
        rw (e, record_migration)
          (Inside-exec c (insert_query table) _ _ (k.insert_kept name table e)
            (elim (Bool-cases (app.applied_at == 0)) [
              | inl z ↦ rw z (Inside-now c w h)
              | inr z ↦ rw z h
            ]))
    | inr (x, e) ↦ rw (e, record_migration) h
  ]

  module _ (cleanup : rt.World → rt.World)
      (cleaned : (w : rt.World) → tx.committed (cleanup w) ≡ tx.committed w) where
    Left-settle :
        {E : Type 0} (c : tx.Contents) (f : E → Failure) (r : Result E (Unit {0})) (w : rt.World)
        → Inside c w
        → let (s, w') = settle cleanup f r w in Left c s w'
    Left-settle c f (ok done) w h = h
    Left-settle c f (err e) w h = cleaned w ∙ h.0

    pub run_statements-Left :
        (c : tx.Contents) (file : MigrationFile) (stmts : List Statement) (w : rt.World)
        → All (λ (st : Statement). tx.ends_tx st.sql ≡ false) stmts
        → Inside c w
        → let (r, w') = run_statements rt fs cleanup file stmts w in Left c r w'
    unfolding run_statements
    run_statements-Left c file [] w e h = h
    run_statements-Left c file (st ∷ stmts) w e h =
        elim (Bool-cases (is_empty (trim_space st.sql))) [
          | inl t ↦ rw (t, run_statements) (run_statements-Left c file stmts w e.1 h)
          | inr t ↦
              rw (t, run_statements)
                (Left-continue c _ (λ _. run_statements rt fs cleanup file stmts) _
                  (Left-settle c _ _ _ (Inside-exec c st.sql [] w e.0 h))
                  (λ a v _ i. run_statements-Left c file stmts v e.1 i))
        ]

    pub record_step-Left :
        (c : tx.Contents) (table : Bytes) (file : MigrationFile) (w : rt.World)
        → KeepsTable
        → Inside c w
        → let (r, w') = record_step rt fs cleanup table file w in Left c r w'
    unfolding record_step
    record_step-Left c table file w k h = Left-settle c _ _ _ (
        record_migration-Inside c table (record_of rt fs file (rt.now w).0) (rt.now w).1 k
          (Inside-now c w h))

  abbrev Kept : (rt.World → rt.World) → Type 0
  Kept f = (w : rt.World) → tx.committed (f w) ≡ tx.committed w

  roll_back-Kept : Kept (roll_back rt fs)
  roll_back-Kept w = tx.rollback_committed w

  -- What a whole transaction leaves.
  abbrev pub Ended : {A : Type 0} → tx.Contents → Result Failure A → rt.World → Type 0
  Ended c (ok a) w = Unit
  Ended c (err f) w = tx.committed w ≡ c

  Ended-continue :
      {A B : Type 0} (c : tx.Contents) (r : Result Failure A) (f : A → Act rt.World B)
      (w : rt.World)
      → Left c r w
      → ((a : A) (v : rt.World) → r ≡ ok a → Inside c v → let (s, v') = f a v in Ended c s v')
      → let (s, w') = continue r f w in Ended c s w'
  Ended-continue c (ok a) f w h k = k a w refl h
  Ended-continue c (err e) f w h k = h

  commit_step-Ended :
      (c : tx.Contents) (file : MigrationFile) (w : rt.World)
      → Inside c w
      → let (r, w') = commit_step rt fs file w in Ended c r w'
  unfolding commit_step
  commit_step-Ended c file w h = elim (Result-cases (rt.commit w).0) [
    | inl (a, e) ↦ rw (e, commit_step) tt
    | inr (x, e) ↦ rw (e, commit_step) (roll_back-Kept _ ∙ tx.commit_failed w x e ∙ h.0)
  ]

  begin_step-Left :
      (file : MigrationFile) (w : rt.World)
      → let (r, w') = begin_step rt fs file w in Left (tx.committed w) r w'
  unfolding begin_step
  begin_step-Left file w = elim (Result-cases (rt.begin_tx w).0) [
    | inl (a, e) ↦ rw (e, begin_step) (tx.begin_committed w, tx.begin_in_tx w e)
    | inr (x, e) ↦ rw (e, begin_step) (tx.begin_committed w)
  ]

  transaction-Ended :
      (table : Bytes) (file : MigrationFile) (content : Bytes) (w : rt.World)
      → KeepsTable
      → All (λ (st : Statement). tx.ends_tx st.sql ≡ false) (split_statements content)
      → let (r, w') = transaction rt fs table file content w in Ended (tx.committed w) r w'
  unfolding transaction
  transaction-Ended table file content w k h =
      let c = tx.committed w in
      Ended-continue c _ _ _ (begin_step-Left file w) λ a v _ i.
        Ended-continue c _ _ _
          (run_statements-Left (roll_back rt fs) roll_back-Kept c file (split_statements content) v
            h i)
          λ a v _ i.
            Ended-continue c _ _ _
              (record_step-Left (roll_back rt fs) roll_back-Kept c table file v k i)
              λ a v _ i. commit_step-Ended c file v i

  perform-Ended :
      (table : Bytes) (file : MigrationFile) (w : rt.World)
      → KeepsTable
      → IsContained file
      → let (r, w') = perform rt fs table file w in Ended (tx.committed w) r w'
  unfolding perform read_step check_step
  perform-Ended table file w k contained = elim (Result-cases (fs.read_file file.path)) [
    | inr (x, e) ↦ rw (e, perform, read_step) refl
    | inl (content, e) ↦ elim (Bool-cases (is_non_transactional content)) [
      | inl t ↦ rw (e, perform, read_step) (rw (t, check_step) refl)
      | inr t ↦
          rw (e, perform, read_step)
            (rw (t, check_step) (transaction-Ended table file content w k (contained content e)))
    ]
  ]

  Ended-now :
      {A : Type 0} (c : tx.Contents) (r : Result Failure A) (w : rt.World)
      → Ended c r w
      → Ended c r (rt.now w).1
  Ended-now c (ok a) w h = tt
  Ended-now c (err f) w h = tx.now_committed w ∙ h

  -- A migration that fails has changed nothing that is committed.
  pub apply_file-Ended :
      (table : Bytes) (file : MigrationFile) (w : rt.World)
      → KeepsTable
      → IsContained file
      → let ((r, dur), w') = apply_file rt fs table file w in Ended (tx.committed w) r w'
  unfolding apply_file
  apply_file-Ended table file w k contained =
      let (r, w1) = perform rt fs table file (rt.now w).1 in
      Ended-now (tx.committed w) r w1 (
        subst (λ c. Ended c r w1) (tx.now_committed w)
          (perform-Ended table file (rt.now w).1 k contained))
