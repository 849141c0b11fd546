-- ===== src/Files.antt =====
-- The parts of the packages os, path/filepath and crypto/sha256 that the program calls. The file system and the
-- hash function are parameters.
use schemago.Base.{Bool, List, Result}
use schemago.Text.{Bytes}

-- os.ErrNotExist, and every other error with its text.
pub data OsError : Type 0 where
  not_exist : OsError
  other : Bytes → OsError

-- `os.DirEntry`
pub record DirEntry : Type 0 where
  pub name : Bytes
  pub is_dir : Bool

-- What the process sees of the disk while it runs, and SHA-256.
pub record Files : Type 0 where
  pub read_file : Bytes → Result OsError Bytes
  pub read_dir : Bytes → Result OsError (List DirEntry)
  pub sum256 : Bytes → Bytes
  -- `filepath.Join` of a directory and a name.
  pub join : Bytes → Bytes → Bytes
