-- ===== src/History/Pending.antt =====
-- `ComputePending` of internal/history/history.go.
pub mod Exact
pub mod Unapplied
pub mod Done
pub mod Grown
use schemago.Base.{
  ◌≡◌, Bool, true, false, not, ◌&&◌, Option, none, some, List, [], ◌∷◌, Result, ok, err, ◌>>=◌,
  if◌then◌else◌,
}
use schemago.Base.Int.{ℤ}
use schemago.Text.{Bytes, is_empty, eq_bytes}
use schemago.Files.{Files}
use schemago.Map.{Map, lookup, index, index_from}
use schemago.Migration.Checksum.{compute_file_checksum}
use schemago.Migration.Filename.{MigrationFile}
use schemago.History.{AppliedMigration}

-- ErrMissingMigrationFile with the record's version and name, and ErrChecksumMismatch with the
-- file's name, its version, and the checksums in the database and on disk.
pub data PendingError : Type 0 where
  missing_migration_file : ℤ → Bytes → PendingError
  checksum_mismatch : Bytes → ℤ → Bytes → Bytes → PendingError

-- A checksum, or the empty text where the file cannot be read.
abbrev pub or_empty {ℓ} : {E : Type ℓ} → Result E Bytes → Bytes
or_empty (ok checksum) = checksum
or_empty (err e) = []

-- The checksum of a file, computed where discovery has left it empty.
unfoldable pub disc_checksum : Files → MigrationFile → Bytes
unfolding compute_file_checksum
disc_checksum fs disc =
    if is_empty disc.checksum && not (is_empty disc.path)
    then or_empty (compute_file_checksum fs disc.path)
    else disc.checksum

-- Both checksums are known and they differ.
abbrev pub is_mismatch : Bytes → Bytes → Bool
is_mismatch a b = not (is_empty a) && not (is_empty b) && not (eq_bytes a b)

-- The first loop: every record has a file.
unfoldable pub check_present :
    Map MigrationFile → List AppliedMigration → Result PendingError (Unit {0})
unfolding lookup
check_present discovered_map [] = ok tt
check_present discovered_map (app ∷ applied) = elim (lookup app.version discovered_map) [
  | none ↦ err (missing_migration_file app.version app.name)
  | some disc ↦ check_present discovered_map applied
]

-- The second loop: the files with no record, as long as the others match theirs.
unfoldable pub collect_pending :
    Files → Map AppliedMigration → List MigrationFile → Result PendingError (List MigrationFile)
unfolding lookup disc_checksum eq_bytes
collect_pending fs applied_map [] = ok []
collect_pending fs applied_map (disc ∷ discovered) = elim (lookup disc.version applied_map) [
  | none ↦ collect_pending fs applied_map discovered >>= λ pending. ok (disc ∷ pending)
  | some app ↦
      let rest = collect_pending fs applied_map discovered in
      if is_mismatch app.checksum (disc_checksum fs disc)
      then err (checksum_mismatch disc.filename disc.version app.checksum (disc_checksum fs disc))
      else rest
]

-- `ComputePending`
unfoldable pub compute_pending :
    Files → List MigrationFile → List AppliedMigration → Result PendingError (List MigrationFile)
unfolding check_present collect_pending index_from
compute_pending fs discovered applied = do
  present ← check_present (index (λ disc. disc.version) discovered) applied
  collect_pending fs (index (λ app. app.version) applied) discovered
