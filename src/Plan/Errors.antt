-- ===== src/Plan/Errors.antt =====
-- The error of a preview with the SQL.
use schemago.Base.{
  ℕ, ◌+◌, ◌≡◌, refl, ◌∙◌, true, Option, none, some, List, [], ◌∷◌, ok, err, Result-cases, inl, inr,
}
use schemago.Text.{Bytes}
use schemago.Files.{Files}
use schemago.Migration.Filename.{MigrationFile}
use schemago.Output.{Script, ◌▷◌, write_all, error_of}
use schemago.Plan.{
  PlanError, read_failed, build_plan, content_texts, gap, sql_script, entries_script, format_plan,
}

error_of-write_all :
    {E : Type 0} (texts : List Bytes) (s : Script E) → error_of (write_all texts ▷ s) ≡ error_of s
error_of-write_all [] s = refl
error_of-write_all (text ∷ texts) s = error_of-write_all texts s

module _ (fs : Files) where
  -- The first file that cannot be read, if any, as the error of the preview.
  abbrev pub first_unreadable : List MigrationFile → Option PlanError
  first_unreadable [] = none
  first_unreadable (file ∷ files) = elim (fs.read_file file.path) [
    | err e ↦ some (read_failed file.path e)
    | ok content ↦ first_unreadable files
  ]

  error_of-sql :
      {E : Type 0} (texts more : List Bytes) (s : Script E)
      → error_of ((write_all texts ▷ write_all more) ▷ s) ≡ error_of s
  error_of-sql [] more s = error_of-write_all more s
  error_of-sql (text ∷ texts) more s = error_of-sql texts more s

  entries_script-first_unreadable :
      (k : ℕ) (files : List MigrationFile)
      → error_of (entries_script fs true k files) ≡ first_unreadable files
  unfolding entries_script
  entries_script-first_unreadable k [] = refl
  entries_script-first_unreadable k (file ∷ files) = elim (Result-cases (fs.read_file file.path)) [
    | inr (x, e) ↦ rw (e, sql_script, first_unreadable) refl
    | inl (content, e) ↦
        rw (e, sql_script, first_unreadable)
          (error_of-sql (content_texts content) (gap files) (entries_script fs true (k + 1) files)
            ∙ entries_script-first_unreadable (k + 1) files)
  ]

  -- With the SQL, and on a writer that does not fail, the preview ends with an error exactly if one of the
  -- pending files cannot be read, and then with that of the first such file.
  pub format_plan-first_unreadable :
      (files : List MigrationFile)
      → error_of (format_plan fs true (some (build_plan files))) ≡ first_unreadable files
  unfolding format_plan
  format_plan-first_unreadable [] = refl
  format_plan-first_unreadable (file ∷ files) = entries_script-first_unreadable 1 (file ∷ files)
