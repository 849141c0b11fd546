-- ===== src/Migration/Discovery.antt =====
-- `Discover` of internal/migration/discovery.go.
pub mod Loaded
use schemago.Base.{Bool, true, false, ◌||◌, List, [], ◌∷◌, Result, ok, err, ◌>>=◌, if◌then◌else◌}
use schemago.Text.{Bytes, codes, has_prefix}
use schemago.Files.{Files, OsError, DirEntry}
use schemago.Migration.Checksum.{compute_file_checksum}
use schemago.Migration.Filename.{MigrationFile, FilenameError, parse_filename}
use schemago.Migration.Order.{OrderError, validate_and_sort}

-- The wrapped errors: the directory or the path that the message cites, and the cause.
pub data DiscoverError : Type 0 where
  read_dir_failed : Bytes → OsError → DiscoverError
  invalid_file : Bytes → FilenameError → DiscoverError
  checksum_failed : Bytes → OsError → DiscoverError
  invalid_set : Bytes → OrderError → DiscoverError

-- A directory, or a hidden file.
abbrev pub is_ignored : DirEntry → Bool
is_ignored entry = entry.is_dir || has_prefix entry.name (codes ".")

-- The file with its checksum.
abbrev add_checksum :
    Bytes → MigrationFile → Result OsError Bytes → Result DiscoverError MigrationFile
add_checksum path file (ok checksum) = ok (record file { checksum = checksum })
add_checksum path file (err e) = err (checksum_failed path e)

abbrev with_checksum :
    Files → Bytes → Bytes → Result FilenameError MigrationFile → Result DiscoverError MigrationFile
with_checksum fs dir path (ok file) = add_checksum path file (compute_file_checksum fs path)
with_checksum fs dir path (err e) = err (invalid_file dir e)

-- The body of the loop for an entry that is not ignored.
unfoldable pub load_file : Files → Bytes → Bytes → Result DiscoverError MigrationFile
unfolding parse_filename compute_file_checksum
load_file fs dir path = with_checksum fs dir path (parse_filename path)

-- The loop over the entries, up to the first error.
unfoldable pub load_entries :
    Files → Bytes → List DirEntry → Result DiscoverError (List MigrationFile)
unfolding load_file has_prefix
load_entries fs dir [] = ok []
load_entries fs dir (entry ∷ entries) =
    let rest = load_entries fs dir entries in
    if is_ignored entry
    then rest
    else (load_file fs dir (fs.join dir entry.name) >>= λ file. rest >>= λ files. ok (file ∷ files))

abbrev sort_loaded :
    Bytes → Result OrderError (List MigrationFile) → Result DiscoverError (List MigrationFile)
sort_loaded dir (ok sorted) = ok sorted
sort_loaded dir (err e) = err (invalid_set dir e)

abbrev load_dir :
    Files → Bytes → Result OsError (List DirEntry) → Result DiscoverError (List MigrationFile)
load_dir fs dir (err e) = err (read_dir_failed dir e)
load_dir fs dir (ok entries) =
    load_entries fs dir entries >>= λ files. sort_loaded dir (validate_and_sort files)

-- `Discover`
unfoldable pub discover : Files → Bytes → Result DiscoverError (List MigrationFile)
unfolding load_entries validate_and_sort
discover fs dir = load_dir fs dir (fs.read_dir dir)

-- `DiscoverMigrations`
abbrev pub discover_migrations : Files → Bytes → Result DiscoverError (List MigrationFile)
discover_migrations = discover
