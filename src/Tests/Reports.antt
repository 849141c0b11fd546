-- ===== src/Tests/Reports.antt =====
-- The order of files, the pending ones, and the report, on two files and their records.
use mathlib.Core.List.{Permᴰ}
use schemago.Base.{◌≡◌, refl, ◌↔◌, ◌||◌, List, [], ◌∷◌, ok, err, All, Sorted}
use schemago.Base.Int.{ℤ, pos, LtZ}
use schemago.Text.{codes, eq_bytes}
use schemago.Map.Keys.{has_key, member}
use schemago.Migration.Filename.{MigrationFile}
use schemago.Migration.Order.{validate_and_sort}
use schemago.Migration.Order.Sorted.{
  IsOther, Verdict, validate_and_sort-Verdict, validate_and_sort_perm,
}
use schemago.Migration.Discovery.{discover}
use schemago.Migration.Discovery.Loaded
use schemago.Text.Trim.{trim_space}
use schemago.Status.Discovered.{exit_code-discover}
use schemago.History.{AppliedMigration}
use schemago.History.Pending.{checksum_mismatch, compute_pending}
use schemago.History.Pending.Done.{recorded, compute_pending-recorded}
use schemago.History.Pending.Exact
use schemago.History.Pending.Exact.{file_version, record_version}
use schemago.Status.{exit_code, build_report}
use schemago.Status.Items.{Describes, item_versions, build_report-Describes}
use schemago.Status.Counts.{IsCounted, IsClean, build_report-IsCounted, exit_code-build_report}
use schemago.Status.Agreement.{exit_code-compute_pending}
use schemago.Tests.World.{disk, file_a, file_b}

abbrev record_a : AppliedMigration
record_a = record {
  version = pos 1;
  name = codes "1_a.sql";
  applied_at = 7;
  checksum = codes "10ab";
}

-- A record that the file is at odds with.
abbrev drifted_b : AppliedMigration
drifted_b = record {
  version = pos 2;
  name = codes "2_b.sql";
  applied_at = 8;
  checksum = codes "ffff";
}

abbrev both : List MigrationFile
both = file_b ∷ file_a ∷ []

both-IsOther : Sorted IsOther both
both-IsOther = ((refl, tt), (tt, tt))

validate_and_sort_test : validate_and_sort both ≡ ok (file_a ∷ file_b ∷ [])
unfolding validate_and_sort
validate_and_sort_test = refl

validate_and_sort-Verdict_example : Verdict both (validate_and_sort both)
validate_and_sort-Verdict_example = validate_and_sort-Verdict both

validate_and_sort_perm_example :
    (out : List MigrationFile) × (validate_and_sort both ≡ ok out)
    × (validate_and_sort (file_a ∷ file_b ∷ []) ≡ ok out)
validate_and_sort_perm_example = validate_and_sort_perm (Permᴰ.swap refl refl) both-IsOther

pending_test : compute_pending disk both (record_a ∷ []) ≡ ok (file_b ∷ [])
unfolding compute_pending eq_bytes
pending_test = refl

drift_test :
    compute_pending disk both (record_a ∷ drifted_b ∷ [])
    ≡ err (checksum_mismatch (codes "2_b.sql") (pos 2) (codes "ffff") (codes "10ab"))
unfolding compute_pending eq_bytes
drift_test = refl

exit_test : exit_code (build_report both (record_a ∷ [])) ≡ 1
unfolding exit_code build_report
exit_test = refl

build_report-Describes_example :
    Sorted LtZ (item_versions (build_report both (drifted_b ∷ [])).items)
    × ((j : ℤ)
        → member j (item_versions (build_report both (drifted_b ∷ [])).items)
          ≡ (has_key file_version j both || has_key record_version j (drifted_b ∷ [])))
    × All (Describes both (drifted_b ∷ [])) (build_report both (drifted_b ∷ [])).items
build_report-Describes_example = build_report-Describes both (drifted_b ∷ [])

build_report-IsCounted_example : IsCounted (build_report both (drifted_b ∷ []))
build_report-IsCounted_example = build_report-IsCounted both (drifted_b ∷ [])

exit_code-build_report_example :
    (exit_code (build_report both (record_a ∷ [])) ≡ 0)
    ↔ All IsClean (build_report both (record_a ∷ [])).items
exit_code-build_report_example = exit_code-build_report both (record_a ∷ [])

exit_code-compute_pending_example :
    (exit_code (build_report both (record_a ∷ [])) ≡ 0)
    ↔ (compute_pending disk both (record_a ∷ []) ≡ ok [])
exit_code-compute_pending_example =
    exit_code-compute_pending disk both (record_a ∷ []) both-IsOther (refl, (refl, tt))

-- The hidden file and the directory are passed over.
discover_test : discover disk (codes "m") ≡ ok (file_a ∷ file_b ∷ [])
unfolding discover eq_bytes trim_space
discover_test = refl

exit_code-discover_example :
    (exit_code (build_report (file_a ∷ file_b ∷ []) (record_a ∷ [])) ≡ 0)
    ↔ (compute_pending disk (file_a ∷ file_b ∷ []) (record_a ∷ []) ≡ ok [])
exit_code-discover_example =
    exit_code-discover disk (λ t. refl) (codes "m") (record_a ∷ []) discover_test

-- With a record of the second file, nothing is pending.
recorded_test :
    compute_pending disk both (recorded disk (record_a ∷ []) (λ file. 7) (file_b ∷ [])) ≡ ok []
recorded_test =
    compute_pending-recorded disk (record_a ∷ []) (λ file. 7) both both-IsOther pending_test
