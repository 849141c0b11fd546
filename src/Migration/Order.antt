-- ===== src/Migration/Order.antt =====
-- `ValidateAndSort` of internal/migration/convention.go.
pub mod Sorted
use schemago.Base.{◌≡◌, Bool, Option, none, some, List, [], ◌∷◌, Result, ok, err, if◌then◌else◌}
use schemago.Base.Int.{ℤ, eq_ℤ, ltb_ℤ}
use schemago.Text.{Bytes, lt_bytes}
use schemago.Sort.{sort}
use schemago.Map.{Map, lookup, insert}
use schemago.Migration.Filename.{MigrationFile}

-- ErrDuplicateVersion, with the version and the two file names that the message cites.
pub data OrderError : Type 0 where
  duplicate_version : ℤ → Bytes → Bytes → OrderError

-- The `less` of `sort.Slice`.
unfoldable pub less : MigrationFile → MigrationFile → Bool
unfolding lt_bytes
less a b =
    if eq_ℤ a.version b.version then lt_bytes a.filename b.filename else ltb_ℤ a.version b.version

-- The loop over the sorted files, with seenVersions.
unfoldable pub check_versions : Map Bytes → List MigrationFile → Option OrderError
unfolding lookup insert
check_versions seen [] = none
check_versions seen (file ∷ files) = elim (lookup file.version seen) [
  | some prev_file ↦ some (duplicate_version file.version prev_file file.filename)
  | none ↦ check_versions (insert file.version file.filename seen) files
]

-- `ValidateAndSort`
unfoldable pub validate_and_sort : List MigrationFile → Result OrderError (List MigrationFile)
unfolding less check_versions sort
validate_and_sort [] = ok []
validate_and_sort (file ∷ files) =
    let sorted = sort less (file ∷ files) in
    elim (check_versions [] sorted) [ none ↦ ok sorted | some e ↦ err e ]
