-- ===== src/Plan/Lines.antt =====
-- The lines of a preview.
use schemago.Base.{
  ℕ, ◌+◌, ◌≡◌, refl, ap, ◌∙◌, true, false, none, some, List, [], ◌∷◌, ◌++◌, all-append, arith,
  length, append_assoc, All, ◌==◌, if◌then◌else◌, zero, suc, ◌/◌, ◌%◌, inl, inr, Bool-cases,
}
use schemago.Text.{Bytes, codes}
use schemago.Text.Lines.{split_lines, lacks, split_lines-line}
use schemago.Files.{Files}
use schemago.Migration.Filename.{MigrationFile}
use schemago.Output.{text_of, error_of}
use schemago.Output.Decimal.{format_nat, digits}
use schemago.Plan.{header_text, entry_text, entries_script, format_plan, build_plan}

-- The file has a name of one line, as all that `ParseFilename` accepts have.
abbrev pub IsOneLine : MigrationFile → Type 0
IsOneLine file = lacks b'\n' file.filename ≡ true

-- "1. a.sql", "2. b.sql", …
abbrev pub numbered_lines : ℕ → List MigrationFile → List Bytes
numbered_lines k [] = [] ∷ []
numbered_lines k (file ∷ files) =
    (format_nat k ++ (codes ". " ++ file.filename)) ∷ numbered_lines (k + 1) files

digits-lacks :
    (fuel n : ℕ) (out : Bytes) → lacks b'\n' out ≡ true → lacks b'\n' (digits fuel n out) ≡ true
unfolding digits
digits-lacks zero n out h = h
digits-lacks (suc fuel) n out h = ground (arith, digits-lacks fuel (n / 10) ((b'0' + n % 10) ∷ out))

format_nat-lacks : (n : ℕ) → lacks b'\n' (format_nat n) ≡ true
unfolding format_nat
format_nat-lacks n = digits-lacks (suc n) n [] refl

entry_text-line :
    (k : ℕ) (file : MigrationFile) (rest : Bytes)
    → entry_text k file ++ rest ≡ (format_nat k ++ (codes ". " ++ file.filename)) ++ (b'\n' ∷ rest)
unfolding entry_text
entry_text-line k file rest = simp (append_assoc)

numbered-lacks :
    (k : ℕ) (file : MigrationFile)
    → IsOneLine file
    → lacks b'\n' (format_nat k ++ (codes ". " ++ file.filename)) ≡ true
numbered-lacks k file h = rw (all-append, format_nat-lacks k, h)

module _ (fs : Files) where
  entries_script-lines :
      (k : ℕ) (files : List MigrationFile)
      → All IsOneLine files
      → split_lines (text_of (entries_script fs false k files)) ≡ numbered_lines k files
  unfolding entries_script split_lines
  entries_script-lines k [] h = refl
  entries_script-lines k (file ∷ files) h =
      let line = format_nat k ++ (codes ". " ++ file.filename) in
      let rest = text_of (entries_script fs false (k + 1) files) in
      ap split_lines (entry_text-line k file rest)
      ∙ split_lines-line line rest (numbered-lacks k file h.0)
      ∙ ap (λ ls. line ∷ ls) (entries_script-lines (k + 1) files h.1)

-- "Found 2 pending migrations to apply:"
abbrev pub header_line : ℕ → Bytes
header_line total =
    if total == 1
    then codes "Found 1 pending migration to apply:"
    else codes "Found " ++ (format_nat total ++ codes " pending migrations to apply:")

header_text-line :
    (total : ℕ) (rest : Bytes)
    → header_text total ++ rest ≡ header_line total ++ (b'\n' ∷ b'\n' ∷ rest)
unfolding header_text
header_text-line total rest = elim (Bool-cases (total == 1)) [
  | inl e ↦ rw e refl
  | inr e ↦ rw e (simp (append_assoc))
]

header_line-lacks : (total : ℕ) → lacks b'\n' (header_line total) ≡ true
header_line-lacks total = elim (Bool-cases (total == 1)) [
  | inl e ↦ rw e refl
  | inr e ↦ rw e (
      all-append _ (format_nat total) (codes " pending migrations to apply:")
        (format_nat-lacks total) refl)
]

module _ (fs : Files) where
  entries_script-error_of :
      (k : ℕ) (files : List MigrationFile) → error_of (entries_script fs false k files) ≡ none
  unfolding entries_script
  entries_script-error_of k [] = refl
  entries_script-error_of k (file ∷ files) = entries_script-error_of (k + 1) files

  -- Without the SQL, the preview of at least one pending migration whose names have one line reads no
  -- file and ends without an error; its lines are the heading with the number of migrations, an empty line, and
  -- the names in the order in which they are applied, numbered from 1.
  pub format_plan-lines :
      (file : MigrationFile) (files : List MigrationFile)
      → All IsOneLine (file ∷ files)
      → let s = format_plan fs false (some (build_plan (file ∷ files))) in
        (error_of s ≡ none)
        × (split_lines (text_of s)
            ≡ header_line (length (file ∷ files)) ∷ [] ∷ numbered_lines 1 (file ∷ files))
  unfolding format_plan split_lines
  format_plan-lines file files h =
      let total = length (file ∷ files) in
      let rest = text_of (entries_script fs false 1 (file ∷ files)) in
      (
        entries_script-error_of 1 (file ∷ files),
        ap split_lines (header_text-line total rest)
            ∙ split_lines-line (header_line total) (b'\n' ∷ rest) (header_line-lacks total)
            ∙ ap (λ ls. header_line total ∷ [] ∷ ls) (entries_script-lines fs 1 (file ∷ files) h),
      )
