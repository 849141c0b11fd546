-- ===== src/Apply/Kept.antt =====
-- A property of the world that the statements of the program and of the files keep, across whole runs
-- of `Apply`.
use schemago.Base.{
  ◌≡◌, Option, none, some, List, [], ◌∷◌, All, Result, ok, err, ◌==◌, Bool-cases, Result-cases, inl,
  inr,
}
use schemago.Text.{Bytes, is_empty}
use schemago.Text.Trim.{trim_space}
use schemago.Files.{Files}
use schemago.Migration.Filename.{MigrationFile}
use schemago.Migration.Statement.{Statement, split_statements}
use schemago.History.{AppliedMigration}
use schemago.History.Table.{validate_table_name}
use schemago.History.Store.{ensure_table, record_migration, create_query, insert_query}
use schemago.Database.{Runtime, SqlArg}
use schemago.Apply.{RunResult}
use schemago.Apply.Step.{
  Failure, Handle, nil, beginner, execer, Act, ◌>>=◌, continue, settle, read_step, check_step,
  begin_step, exec_step, run_statements, record_step, record_of, commit_step, roll_back,
  transaction, perform, apply_file, is_already_applied, apply_files, apply_to, apply,
}

-- Transactions, the statements on a history table and those of the files on the disk keep the property.
pub record RunsKeep (rt : Runtime) (fs : Files) (K : rt.World → Type 0) : Type 0 where
  pub nows : (w : rt.World) → K w → K (rt.now w).1
  pub begins : (w : rt.World) → K w → K (rt.begin_tx w).1
  pub commits : (w : rt.World) → K w → K (rt.commit w).1
  pub rollbacks : (w : rt.World) → K w → K (rt.rollback w).1
  pub inserts :
      (name table : Bytes) (args : List SqlArg) (w : rt.World)
      → validate_table_name name ≡ ok table
      → K w
      → K (rt.exec (insert_query table) args w).1
  pub creates :
      (name table : Bytes) (w : rt.World)
      → validate_table_name name ≡ ok table
      → K w
      → K (rt.exec (create_query table) [] w).1
  pub statements :
      (path content : Bytes)
      → fs.read_file path ≡ ok content
      → All
          (λ (st : Statement). (w : rt.World) → K w → K (rt.exec st.sql [] w).1)
          (split_statements content)

module _ (rt : Runtime) (fs : Files) (K : rt.World → Type 0) (kept : RunsKeep rt fs K) where
  pub ensure_table-Kept : (name : Bytes) (w : rt.World) → K w → K (ensure_table rt name w).1
  unfolding ensure_table
  ensure_table-Kept name w h = elim (Result-cases (validate_table_name name)) [
    | inl (table, e) ↦ rw (e, ensure_table) (kept.creates name table w e h)
    | inr (x, e) ↦ rw (e, ensure_table) h
  ]

  record_migration-Kept :
      (name : Bytes) (app : AppliedMigration) (w : rt.World)
      → K w
      → K (record_migration rt name app w).1
  unfolding record_migration
  record_migration-Kept name app w h = elim (Result-cases (validate_table_name name)) [
    | inr (x, e) ↦ rw (e, record_migration) h
    | inl (table, e) ↦ elim (Bool-cases (app.applied_at == 0)) [
      | inl z ↦
          rw (e, record_migration) (rw z (kept.inserts name table _ (rt.now w).1 e (kept.nows w h)))
      | inr z ↦ rw (e, record_migration) (rw z (kept.inserts name table _ w e h))
    ]
  ]

  -- An act that keeps the property, whether it succeeds or fails.
  abbrev pub IsKept : {A : Type 0} → Act rt.World A → Type 0
  IsKept m = (w : rt.World) → K w → K (m w).1

  pub bind-IsKept :
      {A B : Type 0} (m : Act rt.World A) (f : A → Act rt.World B)
      → IsKept m
      → ((a : A) → IsKept (f a))
      → IsKept (m >>= f)
  bind-IsKept {A} {B} m f k h w i = go (m w).0 (m w).1 (k w i)
    where
      go : (r : Result Failure A) (v : rt.World) → K v → K (continue r f v).1
      go (ok a) v j = h a v j
      go (err x) v j = j

  settle-Kept :
      {E : Type 0} (cleanup : rt.World → rt.World) (f : E → Failure) (r : Result E (Unit {0}))
      (w : rt.World)
      → ((v : rt.World) → K v → K (cleanup v))
      → K w
      → K (settle cleanup f r w).1
  settle-Kept cleanup f (ok a) w c h = h
  settle-Kept cleanup f (err e) w c h = c w h

  module _ (cleanup : rt.World → rt.World) (cleans : (v : rt.World) → K v → K (cleanup v)) where
    pub run_statements-IsKept :
        (file : MigrationFile) (stmts : List Statement)
        → All (λ (st : Statement). (w : rt.World) → K w → K (rt.exec st.sql [] w).1) stmts
        → IsKept (run_statements rt fs cleanup file stmts)
    unfolding run_statements exec_step
    run_statements-IsKept file [] k w h = h
    run_statements-IsKept file (st ∷ stmts) k w h =
        elim (Bool-cases (is_empty (trim_space st.sql))) [
          | inl e ↦ rw (e, run_statements) (run_statements-IsKept file stmts k.1 w h)
          | inr e ↦
              rw (e, run_statements)
                (bind-IsKept (exec_step rt fs cleanup file st)
                  (λ _. run_statements rt fs cleanup file stmts)
                  (λ v i. settle-Kept cleanup _ (rt.exec st.sql [] v).0 _ cleans (k.0 v i))
                  (λ _. run_statements-IsKept file stmts k.1) w h)
        ]

    pub record_step-IsKept :
        (table : Bytes) (file : MigrationFile) → IsKept (record_step rt fs cleanup table file)
    unfolding record_step
    record_step-IsKept table file w h =
        let app = record_of rt fs file (rt.now w).0 in
        settle-Kept cleanup _ (record_migration rt table app (rt.now w).1).0 _ cleans
          (record_migration-Kept table app (rt.now w).1 (kept.nows w h))

  -- What follows the read of a file.
  pub reading :
      {A : Type 0} (file : MigrationFile) (f : Bytes → Act rt.World A)
      → ((content : Bytes) → fs.read_file file.path ≡ ok content → IsKept (f content))
      → IsKept (read_step rt fs file >>= f)
  unfolding read_step
  reading file f k w h = elim (Result-cases (fs.read_file file.path)) [
    | inl (content, e) ↦ rw (e, read_step) (k content e w h)
    | inr (x, e) ↦ rw (e, read_step) h
  ]

  pub checking :
      {A : Type 0} (file : MigrationFile) (content : Bytes) (f : Unit {0} → Act rt.World A)
      → IsKept (f tt)
      → IsKept (check_step rt fs file content >>= f)
  unfolding check_step
  checking file content f k = bind-IsKept (check_step rt fs file content) f (λ w h. h) (λ _. k)

  roll_back-Kept : (w : rt.World) → K w → K (roll_back rt fs w)
  roll_back-Kept w h = kept.rollbacks w h

  transaction-IsKept :
      (table : Bytes) (file : MigrationFile) (content : Bytes)
      → fs.read_file file.path ≡ ok content
      → IsKept (transaction rt fs table file content)
  unfolding transaction begin_step commit_step
  transaction-IsKept table file content e =
      let run = run_statements rt fs (roll_back rt fs) file (split_statements content) in
      let recorded = record_step rt fs (roll_back rt fs) table file in
      let commits = commit_step rt fs file in
      bind-IsKept (begin_step rt fs file) (λ _. run >>= λ _. recorded >>= λ _. commits)
        (λ w h. settle-Kept (λ v. v) _ (rt.begin_tx w).0 _ (λ v i. i) (kept.begins w h))
        λ _.
          bind-IsKept run (λ _. recorded >>= λ _. commits)
            (run_statements-IsKept (roll_back rt fs) roll_back-Kept file (split_statements content)
              (kept.statements file.path content e))
            λ _.
              bind-IsKept recorded (λ _. commits)
                (record_step-IsKept (roll_back rt fs) roll_back-Kept table file)
                λ _ w h.
                  settle-Kept (roll_back rt fs) _ (rt.commit w).0 _ roll_back-Kept
                    (kept.commits w h)

  apply_file-Kept :
      (table : Bytes) (file : MigrationFile) (w : rt.World)
      → K w
      → K (apply_file rt fs table file w).1
  unfolding apply_file perform
  apply_file-Kept table file w h = kept.nows _ (
      reading file
        (λ content. check_step rt fs file content >>= λ _. transaction rt fs table file content)
        (λ content e.
          checking file content (λ _. transaction rt fs table file content)
            (transaction-IsKept table file content e))
        (rt.now w).1 (kept.nows w h))

  apply_files-Kept :
      (db : Handle) (table : Bytes) (files : List (Option MigrationFile)) (res : RunResult)
      (w : rt.World)
      → K w
      → K (apply_files rt fs db table res files w).1
  unfolding apply_files
  apply_files-Kept db table [] res w h = h
  apply_files-Kept db table (none ∷ files) res w h = apply_files-Kept db table files res w h
  apply_files-Kept db table (some f ∷ files) res w h =
      elim (Bool-cases (is_already_applied rt fs db table f w)) [
        | inl t ↦ rw (t, apply_files) (apply_files-Kept db table files res w h)
        | inr t ↦
            let next = apply_file-Kept table f w h in
            elim (Result-cases (apply_file rt fs table f w).0.0) [
              | inl (a, e) ↦ rw (t, apply_files) (rw e (apply_files-Kept db table files _ _ next))
              | inr (x, e) ↦ rw (t, apply_files) (rw e next)
            ]
      ]

  apply_to-Kept :
      (db : Handle) (name : Bytes) (pending : List (Option MigrationFile)) (w : rt.World)
      → K w
      → K (apply_to rt fs db name pending w).1
  apply_to-Kept db name [] w h = h
  apply_to-Kept db name (file ∷ files) w h = elim (Result-cases (validate_table_name name)) [
    | inl (table, e) ↦ rw (e, apply_to) (apply_files-Kept db table (file ∷ files) _ w h)
    | inr (x, e) ↦ rw (e, apply_to) h
  ]

  pub apply-Kept :
      (db : Handle) (name : Bytes) (pending : List (Option MigrationFile)) (w : rt.World)
      → K w
      → K (apply rt fs db name pending w).1
  unfolding apply
  apply-Kept nil name pending w h = h
  apply-Kept beginner name pending w h = apply_to-Kept beginner name pending w h
  apply-Kept execer name pending w h = apply_to-Kept execer name pending w h
