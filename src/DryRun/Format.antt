-- ===== src/DryRun/Format.antt =====
-- `FormatResult` of internal/dryrun/dryrun.go.
use schemago.Base.{ℕ, Option, none, some, List, [], ◌∷◌, ◌++◌, map, length, ◌==◌, if◌then◌else◌}
use schemago.Text.{Bytes, codes}
use schemago.Apply.{MigrationError, MigrationResult, RunResult}
use schemago.Apply.Format.{
  is_nothing, applied_text, failed_text, where_text, statement_texts, failed_texts,
}
use schemago.Output.{Script, done, write, write_all}
use schemago.Output.Decimal.{format_nat}

abbrev dry_header_text : ℕ → Bytes
dry_header_text total =
    if total == 1
    then codes "[DRY-RUN] Simulating 1 pending migration (changes will NOT be committed):\n\n"
    else codes "[DRY-RUN] Simulating "
      ++ (format_nat total ++ codes " pending migrations (changes will NOT be committed):\n\n")

abbrev dry_summary_text : ℕ → ℕ → Option MigrationResult → Bytes
dry_summary_text count total none =
    if count == 1
    then codes
        "\n[DRY-RUN] Dry-run completed successfully. 1 migration validated (0 changes committed).\n"
    else codes "\n[DRY-RUN] Dry-run completed successfully. "
      ++ (format_nat count ++ codes " migrations validated (0 changes committed).\n")
dry_summary_text count total (some item) =
    codes "\n[DRY-RUN] Dry-run failed. "
    ++ (format_nat count
        ++ (b'/'
            ∷ (format_nat total
                ++ codes
                    " migration(s) validated. Execution stopped on failure (0 changes committed).\n")))

module _ (error_text : MigrationError → Bytes) where
  abbrev dry_report_texts : RunResult → List Bytes
  dry_report_texts res =
      dry_header_text res.total_pending
      ∷ (map applied_text res.applied
          ++ (failed_texts error_text
                (codes
                  "    [DRY-RUN] Transaction rolled back cleanly. No changes were made to the database.\n")
                res.failed
              ++ dry_summary_text (length res.applied) res.total_pending res.failed ∷ []))

  -- `FormatResult`
  unfoldable pub format_dry_result : Option RunResult → Script (Unit {0})
  unfolding format_nat applied_text failed_text where_text statement_texts
  format_dry_result none =
      write (codes "[DRY-RUN] Nothing to apply. Database is up to date.\n") done
  format_dry_result (some res) =
      if is_nothing res
      then write (codes "[DRY-RUN] Nothing to apply. Database is up to date.\n") done
      else write_all (dry_report_texts res)
