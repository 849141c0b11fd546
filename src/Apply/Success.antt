-- ===== src/Apply/Success.antt =====
-- Runs of `Apply` in which nothing that it calls fails.
use schemago.Base.{
  ◌≡◌, refl, Option, none, some, List, [], ◌∷◌, All, ok, Bool-cases, Result-cases, inl, inr,
}
use schemago.Text.{Bytes}
use schemago.Files.{Files}
use schemago.Migration.Filename.{MigrationFile}
use schemago.History.Table.{accepted_twice, validate_table_name}
use schemago.Database.{Runtime}
use schemago.Apply.{RunResult, Run}
use schemago.Apply.Step.{
  Handle, nil, beginner, execer, apply_file, is_already_applied, apply_files, apply_to, apply,
}
use schemago.Apply.Healthy.{IsHealthy, IsRunnable, apply_file-Goes}
use schemago.Apply.Atomic.{applied_files}
use schemago.Apply.Complete.{Covers, apply-Covers}

module _ (rt : Runtime) (fs : Files) (G : rt.World → Type 0) (healthy : IsHealthy rt fs G) where
  -- A run without an error, which leads to a good world.
  abbrev Succeeds : Run × rt.World → Type 0
  Succeeds (run, w) = (run.error ≡ none) × G w

  apply_files-Succeeds :
      (db : Handle) (table : Bytes) (files : List (Option MigrationFile)) (res : RunResult)
      (w : rt.World)
      → validate_table_name table ≡ ok table
      → All (IsRunnable rt fs G) files
      → G w
      → Succeeds (apply_files rt fs db table res files w)
  unfolding apply_files
  apply_files-Succeeds db table [] res w valid k h = (refl, h)
  apply_files-Succeeds db table (none ∷ files) res w valid k h =
      apply_files-Succeeds db table files res w valid k.1 h
  apply_files-Succeeds db table (some f ∷ files) res w valid k h =
      elim (Bool-cases (is_already_applied rt fs db table f w)) [
        | inl t ↦ rw (t, apply_files) (apply_files-Succeeds db table files res w valid k.1 h)
        | inr t ↦
            let well = apply_file-Goes rt fs G healthy table f w valid k.0 h in
            elim (Result-cases (apply_file rt fs table f w).0.0) [
              | inl (a, e) ↦
                  rw (t, apply_files)
                    (rw e (apply_files-Succeeds db table files _ _ valid k.1 (rw e at well)))
              | inr (x, e) ↦ absurd (rw e at well)
            ]
      ]

  apply_to-Succeeds :
      (db : Handle) (name table : Bytes) (pending : List (Option MigrationFile)) (w : rt.World)
      → validate_table_name name ≡ ok table
      → All (IsRunnable rt fs G) pending
      → G w
      → Succeeds (apply_to rt fs db name pending w)
  apply_to-Succeeds db name table [] w valid k h = (refl, h)
  apply_to-Succeeds db name table (file ∷ files) w valid k h =
      rw (valid, apply_to)
        (apply_files-Succeeds db table (file ∷ files) _ w (accepted_twice name valid) k h)

  apply-Done :
      (db : Handle) (name table : Bytes) (pending : List (Option MigrationFile)) (w : rt.World)
      → ¬ (db ≡ nil)
      → validate_table_name name ≡ ok table
      → All (IsRunnable rt fs G) pending
      → G w
      → Succeeds (apply rt fs db name pending w)
  unfolding apply
  apply-Done nil name table pending w handle valid k h = absurd (handle refl)
  apply-Done beginner name table pending w handle valid k h =
      apply_to-Succeeds beginner name table pending w valid k h
  apply-Done execer name table pending w handle valid k h =
      apply_to-Succeeds execer name table pending w valid k h

  -- With a handle and an accepted table name, if every pending file can be read and has no statement that cannot run
  -- inside a transaction, and no call on the database fails, then `Apply` returns no error, and it has gone through the
  -- pending migrations in their order: one of which the history table of that name has a record at its turn is left
  -- out, and each other one is applied at its turn, in the world that the ones before it have left, and is
  -- in the list of applied migrations. That no call fails is said of the worlds of a property that holds at the start and that each
  -- call of a transaction, of the clock, of the insertion and of the files' statements keeps.
  pub apply-Succeeds :
      (db : Handle) (name table : Bytes) (pending : List (Option MigrationFile)) (w : rt.World)
      → ¬ (db ≡ nil)
      → validate_table_name name ≡ ok table
      → All (IsRunnable rt fs G) pending
      → G w
      → let (run, w') = apply rt fs db name pending w in
        (run.error ≡ none) × G w' × Covers rt fs db table pending w (applied_files run) w'
  apply-Succeeds db name table pending w handle valid k h =
      let done = apply-Done db name table pending w handle valid k h in
      (done.0, done.1, apply-Covers rt fs db name table pending w valid done.0)
