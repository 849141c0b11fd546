-- ===== src/Apply/Complete.antt =====
-- The pending migrations and those that a run of `Apply` lists as applied.
use mathlib.Core.List.{map-append}
use schemago.Base.{
  ◌≡◌, refl, ok, sym, ◌∙◌, true, Option, none, some, List, [], ◌∷◌, ◌++◌, map, length, append_assoc,
  append-nil, Bool-cases, Result-cases, inl, inr,
}
use schemago.Text.{Bytes}
use schemago.Files.{Files}
use schemago.Migration.Filename.{MigrationFile}
use schemago.Map.Keys.{has_key}
use schemago.History.Table.{validate_table_name}
use schemago.History.{Time, AppliedMigration}
use schemago.History.Store.{get_applied_migrations}
use schemago.Database.{Runtime}
use schemago.Apply.{RunResult, Run, grow, new_result}
use schemago.Apply.Step.{
  Handle, nil, beginner, execer, is_already_applied, apply_file, apply_files, apply_to, apply,
}
use schemago.Apply.Atomic.{applied_files}

module _ (rt : Runtime) (fs : Files) where
  -- A handle that runs queries reads a history of the table, in which the file's version is.
  pub record IsRecorded (db : Handle) (table : Bytes) (f : MigrationFile) (w : rt.World)
      : Type 0 where
    pub queries : db ≡ execer
    pub history : List AppliedMigration
    pub reads : get_applied_migrations rt table w ≡ ok history
    pub listed : has_key (λ app. app.version) f.version history ≡ true

  is_already_applied-IsRecorded :
      (db : Handle) (table : Bytes) (f : MigrationFile) (w : rt.World)
      → is_already_applied rt fs db table f w ≡ true
      → IsRecorded db table f w
  unfolding is_already_applied
  is_already_applied-IsRecorded nil table f w h = absurd (cc h)
  is_already_applied-IsRecorded beginner table f w h = absurd (cc h)
  is_already_applied-IsRecorded execer table f w h =
      elim (Result-cases (get_applied_migrations rt table w)) [
        | inl (history, e) ↦ record {
          queries = refl;
          history = history;
          reads = e;
          listed = rw (e, is_already_applied) at h;
        }
        | inr (x, e) ↦ absurd (cc (rw (e, is_already_applied) at h))
      ]

  IsRecorded-is_already_applied :
      (db : Handle) (table : Bytes) (f : MigrationFile) (w : rt.World)
      → IsRecorded db table f w
      → is_already_applied rt fs db table f w ≡ true
  unfolding is_already_applied
  IsRecorded-is_already_applied db table f w r =
      rw r.queries (rw (r.reads, is_already_applied) r.listed)

module _ (rt : Runtime) (fs : Files) (db : Handle) (table : Bytes) where
  -- The run through the first list from the first world to the second: the world stays as it is
  -- before a file that the table has a record of in it, and any other file is applied to it
  -- and is in the second list.
  pub data Covers
      : List (Option MigrationFile) → rt.World → List MigrationFile → rt.World → Type 0 where
    covers_all : {w : rt.World} → Covers [] w [] w
    covers_nil :
        {files : List (Option MigrationFile)} {new : List MigrationFile} {w w' : rt.World}
        → Covers files w new w'
        → Covers (none ∷ files) w new w'
    covers_recorded :
        {f : MigrationFile} {files : List (Option MigrationFile)} {new : List MigrationFile}
        {w w' : rt.World}
        → IsRecorded rt fs db table f w
        → Covers files w new w'
        → Covers (some f ∷ files) w new w'
    covers_applied :
        {f : MigrationFile} {files : List (Option MigrationFile)} {new : List MigrationFile}
        {w w' : rt.World}
        → ¬ IsRecorded rt fs db table f w
        → (apply_file rt fs table f w).0.0 ≡ ok tt
        → Covers files (apply_file rt fs table f w).1 new w'
        → Covers (some f ∷ files) w (f ∷ new) w'

  -- What a run lists beside what was listed before covers the files.
  abbrev Listed : List (Option MigrationFile) → RunResult → rt.World → Run × rt.World → Type 0
  Listed files res w (run, w') =
      (new : List MigrationFile) × (applied_files run ≡ map (λ m. m.file) res.applied ++ new)
      × Covers files w new w'

  Listed-grow :
      (f : MigrationFile) (files : List (Option MigrationFile)) (res : RunResult) (dur : Time)
      (w : rt.World) (end : Run × rt.World)
      → ¬ IsRecorded rt fs db table f w
      → (apply_file rt fs table f w).0.0 ≡ ok tt
      → Listed files (grow res f dur) (apply_file rt fs table f w).1 end
      → Listed (some f ∷ files) res w end
  Listed-grow f files res dur w end n went (new, e, c) = (
    f ∷ new,
    e ∙ rw map-append (append_assoc (map (λ m. m.file) res.applied) (f ∷ []) new),
    covers_applied n went c,
  )

  apply_files-Listed :
      (files : List (Option MigrationFile)) (res : RunResult) (w : rt.World)
      → (apply_files rt fs db table res files w).0.error ≡ none
      → Listed files res w (apply_files rt fs db table res files w)
  unfolding apply_files
  apply_files-Listed [] res w h = ([], sym (append-nil _), covers_all)
  apply_files-Listed (none ∷ files) res w h =
      let (new, e, c) = apply_files-Listed files res w h in (new, e, covers_nil c)
  apply_files-Listed (some f ∷ files) res w h =
      elim (Bool-cases (is_already_applied rt fs db table f w)) [
        | inl t ↦
            let (new, e, c) = apply_files-Listed files res w (rw (t, apply_files) at h) in
            let r = is_already_applied-IsRecorded rt fs db table f w t in
            rw (t, apply_files) (new, e, covers_recorded r c)
        | inr t ↦ elim (Result-cases (apply_file rt fs table f w).0.0) [
          | inl (tt, e) ↦
              let dur = (apply_file rt fs table f w).0.1 in
              let w' = (apply_file rt fs table f w).1 in
              let end = apply_files rt fs db table (grow res f dur) files w' in
              let n : ¬ IsRecorded rt fs db table f w =
                λ r. cc (t, IsRecorded-is_already_applied rt fs db table f w r) in
              rw (t, apply_files)
                (rw e (
                  Listed-grow f files res dur w end n e (
                    apply_files-Listed files (grow res f dur) w'
                      (rw e at (rw (t, apply_files) at h)))))
          | inr (x, e) ↦ absurd (cc (rw e at (rw (t, apply_files) at h)))
        ]
      ]

  apply_to-Covers :
      (name : Bytes) (pending : List (Option MigrationFile)) (w : rt.World)
      → validate_table_name name ≡ ok table
      → (apply_to rt fs db name pending w).0.error ≡ none
      → let (run, w') = apply_to rt fs db name pending w in Covers pending w (applied_files run) w'
  apply_to-Covers name [] w valid h = covers_all
  apply_to-Covers name (file ∷ files) w valid h =
      let (new, same, c) =
        apply_files-Listed (file ∷ files) (new_result (length (file ∷ files))) w
          (rw (valid, apply_to) at h) in
      rw (valid, apply_to) (rw same c)

-- If `Apply` returns no error, with an accepted table name, then it has gone through the pending
-- migrations in their order: one of which the configured history table has a record at its turn is left out and
-- changes nothing, and each other one is applied at its turn, without an error, in the world that the ones
-- before it have left. The list of applied migrations is exactly that of the latter, and the world at the end is
-- the one behind the last of them.
pub apply-Covers :
    (rt : Runtime) (fs : Files) (db : Handle) (name table : Bytes)
    (pending : List (Option MigrationFile)) (w : rt.World)
    → validate_table_name name ≡ ok table
    → (apply rt fs db name pending w).0.error ≡ none
    → let (run, w') = apply rt fs db name pending w in
      Covers rt fs db table pending w (applied_files run) w'
unfolding apply
apply-Covers rt fs nil name table pending w valid h = absurd (cc h)
apply-Covers rt fs beginner name table pending w valid h =
    apply_to-Covers rt fs beginner table name pending w valid h
apply-Covers rt fs execer name table pending w valid h =
    apply_to-Covers rt fs execer table name pending w valid h
