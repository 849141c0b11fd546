-- ===== src/Apply/Format.antt =====
-- `FormatResult` and `MarshalJSON` of internal/apply/apply.go, and what the report of a dry run
-- shares with them.
pub mod Statement
use schemago.Base.{
  ℕ, zero, suc, ◌+◌, Bool, true, false, not, ◌&&◌, ◌||◌, Option, none, some, List, [], ◌∷◌, ◌++◌,
  map, ltb, length, ◌==◌, if◌then◌else◌,
}
use schemago.Text.{Bytes, codes, is_empty}
use schemago.Text.Lines.{split_lines}
use schemago.Migration.Filename.{MigrationFile}
use schemago.Apply.{MigrationError, MigrationResult, RunResult, milliseconds}
use schemago.Output.{Script, done, write, ◌▷◌, write_all}
use schemago.Output.Decimal.{format_nat}
use schemago.Output.Duration.{duration_text}

-- The condition of "Nothing to apply".
abbrev pub is_nothing : RunResult → Bool
is_nothing res =
    res.total_pending == 0
    || (elim res.applied [ [] ↦ true | m ∷ ms ↦ false ]
        && (elim res.failed [ none ↦ true | some m ↦ false ]))

-- `"  ✓ %s (%s)\n"`, with the mark in UTF-8.
unfoldable pub applied_text : MigrationResult → Bytes
unfolding duration_text
applied_text item =
    codes "  "
    ++ (0xE2
        ∷ 0x9C
        ∷ 0x93
        ∷ b' '
        ∷ (item.file.filename ++ (codes " (" ++ (duration_text item.duration ++ codes ")\n"))))

-- `"  ✗ %s FAILED (%s)\n"`
unfoldable pub failed_text : MigrationResult → Bytes
unfolding duration_text
failed_text item =
    codes "  "
    ++ (0xE2
        ∷ 0x9C
        ∷ 0x97
        ∷ b' '
        ∷ (item.file.filename
            ++ (codes " FAILED (" ++ (duration_text item.duration ++ codes ")\n"))))

abbrev pub first_of : List Bytes → Bytes
first_of [] = []
first_of (l ∷ ls) = l

-- `s[:n]`
unfoldable pub take : ℕ → Bytes → Bytes
take zero s = []
take (suc n) [] = []
take (suc n) (c ∷ s) = c ∷ take n s

-- The first line of a statement, cut to 80 bytes.
unfoldable pub short_statement : Bytes → Bytes
unfolding split_lines take
short_statement sql =
    let first_line = first_of (split_lines sql) in
    if ltb 80 (length first_line) then take 77 first_line ++ codes "..." else first_line

-- `migrationResultJSON`
pub record MigrationResultJson : Type 0 where
  pub file : MigrationFile
  pub duration_ms : ℕ
  pub error : Bytes
  pub statement_idx : ℕ
  pub line_number : ℕ
  pub statement_sql : Bytes

-- The text of an error is a parameter.
module _ (error_text : MigrationError → Bytes) where
  abbrev pub message : Option MigrationError → Bytes
  message none = codes "<nil>"
  message (some e) = error_text e

  unfoldable pub where_text : MigrationResult → Bytes
  unfolding format_nat
  where_text item =
      if ltb 0 item.statement_idx && ltb 0 item.line_number
      then codes "    Error at statement "
        ++ (format_nat item.statement_idx
            ++ (codes " (line "
                ++ (format_nat item.line_number
                    ++ (codes "): " ++ (message item.error ++ b'\n' ∷ [])))))
      else codes "    Error: " ++ (message item.error ++ b'\n' ∷ [])

  unfoldable pub statement_texts : MigrationResult → List Bytes
  unfolding short_statement
  statement_texts item =
      if not (is_empty item.statement_sql)
      then (codes "    Statement: " ++ (short_statement item.statement_sql ++ b'\n' ∷ [])) ∷ []
      else []

  -- The part on the migration that failed, with its last line.
  abbrev pub failed_texts : Bytes → Option MigrationResult → List Bytes
  failed_texts last none = []
  failed_texts last (some item) =
      failed_text item ∷ where_text item ∷ (statement_texts item ++ last ∷ [])

  abbrev summary_text : ℕ → ℕ → Option MigrationResult → Bytes
  summary_text count total none =
      if count == 1
      then codes "\nSuccessfully applied 1 migration.\n"
      else codes "\nSuccessfully applied " ++ (format_nat count ++ codes " migrations.\n")
  summary_text count total (some item) =
      codes "\nApplied "
      ++ (format_nat count
          ++ (b'/' ∷ (format_nat total ++ codes " migration(s). Execution stopped on failure.\n")))

  abbrev header_text : ℕ → Bytes
  header_text total =
      if total == 1
      then codes "Applying 1 pending migration:\n\n"
      else codes "Applying " ++ (format_nat total ++ codes " pending migrations:\n\n")

  abbrev report_texts : RunResult → List Bytes
  report_texts res =
      header_text res.total_pending
      ∷ (map applied_text res.applied
          ++ (failed_texts (codes "    Migration rolled back cleanly.\n") res.failed
              ++ summary_text (length res.applied) res.total_pending res.failed ∷ []))

  -- `FormatResult`
  unfoldable pub format_result : Option RunResult → Script (Unit {0})
  unfolding format_nat applied_text failed_text where_text statement_texts
  format_result none = write (codes "Nothing to apply. Database is up to date.\n") done
  format_result (some res) =
      if is_nothing res
      then write (codes "Nothing to apply. Database is up to date.\n") done
      else write_all (report_texts res)

  -- `MarshalJSON`, up to the encoding.
  unfoldable pub marshal_json : MigrationResult → MigrationResultJson
  marshal_json m = record {
    file = m.file;
    duration_ms =
        if m.duration_ms == 0 && ltb 0 m.duration then milliseconds m.duration else m.duration_ms;
    error = elim m.error [ none ↦ [] | some e ↦ error_text e ];
    statement_idx = m.statement_idx;
    line_number = m.line_number;
    statement_sql = m.statement_sql;
  }
