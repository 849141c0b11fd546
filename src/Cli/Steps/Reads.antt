-- ===== src/Cli/Steps/Reads.antt =====
-- The reads of the history and of the files, as the handlers share them.
use schemago.Base.{Bool, List, Result, ok, err}
use schemago.Text.{Bytes}
use schemago.Migration.Discovery.{
  DiscoverError, read_dir_failed, invalid_file, checksum_failed, invalid_set,
}
use schemago.Migration.Filename.{MigrationFile}
use schemago.Files.{not_exist, other}
use schemago.History.Pending.{compute_pending}
use schemago.History.Store.{get_applied_migrations}
use schemago.Config.{Config}
use schemago.Cli.Host.{store_error, Host, Machine}
use schemago.Cli.Steps.{get_applied, discovered_files, find_files, pending_of}
use schemago.Cli.Steps.Returns.{Keeping, Returns, Any, bind-Returns, stop-Returns, check-Returns}

-- The reads touch neither the world nor the mutexes.
module _ (host : Host) (cmd : Bytes) (json : Bool) (I : Keeping host) where
  discovered_files-Returns :
      (r : Result DiscoverError (List MigrationFile)) (m : Machine host)
      → I m.world m.mutexes
      → Returns I Any (discovered_files host cmd json r m)
  discovered_files-Returns (ok files) m h = (tt, h)
  discovered_files-Returns (err (read_dir_failed dir not_exist)) m h = (tt, h)
  discovered_files-Returns (err (read_dir_failed dir (other x))) m h =
      stop-Returns host cmd json I Any _ m h
  discovered_files-Returns (err (checksum_failed path not_exist)) m h = (tt, h)
  discovered_files-Returns (err (checksum_failed path (other x))) m h =
      stop-Returns host cmd json I Any _ m h
  discovered_files-Returns (err (invalid_file dir x)) m h = stop-Returns host cmd json I Any _ m h
  discovered_files-Returns (err (invalid_set dir x)) m h = stop-Returns host cmd json I Any _ m h

  pub get_applied-Returns :
      (cfg : Config) (m : Machine host)
      → I m.world m.mutexes
      → Returns I Any (get_applied host cmd json cfg m)
  get_applied-Returns cfg m h =
      check-Returns host cmd json I store_error
        (get_applied_migrations host.rt cfg.table_name m.world) m h

  pub find_files-Returns :
      (cfg : Config) (m : Machine host)
      → I m.world m.mutexes
      → Returns I Any (find_files host cmd json cfg m)
  find_files-Returns cfg m h = discovered_files-Returns _ m h

  pub pending_of-Returns :
      (cfg : Config) (m : Machine host)
      → I m.world m.mutexes
      → Returns I Any (pending_of host cmd json cfg m)
  pending_of-Returns cfg m h =
      bind-Returns I Any Any (get_applied host cmd json cfg m) _ (get_applied-Returns cfg m h)
        λ applied m1 u i.
          bind-Returns I Any Any (find_files host cmd json cfg m1) _ (find_files-Returns cfg m1 i)
            λ files m2 v j.
              check-Returns host cmd json I _ (compute_pending host.fs files applied) m2 j
