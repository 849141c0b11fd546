-- ===== src/Plan.antt =====
-- The package internal/plan: the preview of the pending migrations.
pub mod Lines
pub mod Errors
use schemago.Base.{
  ℕ, ◌+◌, Bool, true, false, Option, none, some, List, [], ◌∷◌, ◌++◌, map, Result, ok, err, length,
  ◌==◌, if◌then◌else◌,
}
use schemago.Text.{Bytes, codes, is_empty}
use schemago.Text.Trim.{trim_space}
use schemago.Text.Lines.{split_lines}
use schemago.Files.{Files, OsError}
use schemago.Migration.Filename.{MigrationFile}
use schemago.Output.{Script, done, fail, write, ◌▷◌, write_all}
use schemago.Output.Decimal.{format_nat}

-- `Plan`, which `BuildPlan` makes of the pending files, none of which is nil.
pub record Plan : Type 0 where
  pub pending : List MigrationFile

abbrev pub build_plan : List MigrationFile → Plan
build_plan pending = record { pending = pending }

-- The error of `FormatPlan`, with the path of the file.
pub data PlanError : Type 0 where
  read_failed : Bytes → OsError → PlanError

abbrev pub nothing_text : Bytes
nothing_text = codes "Nothing to apply. Database is up to date.\n"

unfoldable pub header_text : ℕ → Bytes
unfolding format_nat
header_text total =
    if total == 1
    then codes "Found 1 pending migration to apply:\n\n"
    else codes "Found " ++ (format_nat total ++ codes " pending migrations to apply:\n\n")

unfoldable pub entry_text : ℕ → MigrationFile → Bytes
unfolding format_nat
entry_text number file = format_nat number ++ (codes ". " ++ (file.filename ++ b'\n' ∷ []))

-- `"   %s\n"`
abbrev pub indented : Bytes → Bytes
indented line = codes "   " ++ (line ++ b'\n' ∷ [])

unfoldable pub content_texts : Bytes → List Bytes
unfolding trim_space split_lines
content_texts content =
    let trimmed = trim_space content in
    if is_empty trimmed then codes "   (empty file)\n" ∷ [] else map indented (split_lines trimmed)

-- An empty line, unless the file is the last.
abbrev pub gap : List MigrationFile → List Bytes
gap [] = []
gap (file ∷ files) = (b'\n' ∷ []) ∷ []

module _ (fs : Files) (show_sql : Bool) where
  -- The SQL of a file, where it is asked for.
  abbrev pub sql_script :
      MigrationFile → List MigrationFile → Result OsError Bytes → Script PlanError
  sql_script file files (err e) = fail (read_failed file.path e)
  sql_script file files (ok content) = write_all (content_texts content) ▷ write_all (gap files)

  -- The loop over the files, from a number on.
  unfoldable pub entries_script : ℕ → List MigrationFile → Script PlanError
  unfolding entry_text content_texts
  entries_script number [] = done
  entries_script number (file ∷ files) =
      let rest = entries_script (number + 1) files in
      write (entry_text number file)
        (if show_sql then sql_script file files (fs.read_file file.path) ▷ rest else rest)

  -- `FormatPlan`; a plan that is nil prints as an empty one.
  unfoldable pub format_plan : Option Plan → Script PlanError
  unfolding header_text entries_script
  format_plan none = write nothing_text done
  format_plan (some p) = elim p.pending [
    | [] ↦ write nothing_text done
    | file ∷ files ↦ write (header_text (length (file ∷ files))) (entries_script 1 (file ∷ files))
  ]
