-- ===== src/Cli/Steps.antt =====
-- The steps that the handlers of internal/cli/cli.go share: calls with their checks, and what is
-- deferred.
pub mod Returns
pub mod Keeps
pub mod Reads
pub mod Inversion
pub mod Quiet
pub mod Held
use schemago.Base.{
  ℕ, Bool, true, false, not, ◌&&◌, Option, none, some, List, [], ◌∷◌, ◌++◌, Result, ok, err,
  if◌then◌else◌,
}
use schemago.Text.{Bytes}
use schemago.Files.{not_exist}
use schemago.Migration.Filename.{MigrationFile}
use schemago.Migration.Discovery.{DiscoverError, read_dir_failed, checksum_failed, discover}
use schemago.History.{AppliedMigration}
use schemago.History.Store.{ensure_table, get_applied_migrations}
use schemago.History.Pending.{compute_pending}
use schemago.Db.{connect_and_ping}
use schemago.Config.{Config, default_timeout, new_with_opts}
use schemago.Lock.{AdvisoryLock, new, lock, unlock, returns, waits_inside, waits, fails}
use schemago.Lock.Key.{generate_lock_id}
use schemago.Apply.{Run}
use schemago.Output.{Script, PrintError, print}
use schemago.Cli.Host.{
  CliError, config_error, connection_error, lock_error, store_error, discover_error, pending_error,
  json_error, Document, Host, Machine, Ended, ended, blocks, crashes, Act, print_out, write_error,
  ◌>>=◌, deferring,
}

-- ExitFailure
abbrev pub exit_failure : ℕ
exit_failure = 1

-- `errors.Is(err, os.ErrNotExist)`
abbrev pub is_not_exist : DiscoverError → Bool
is_not_exist (read_dir_failed dir not_exist) = true
is_not_exist (checksum_failed path not_exist) = true
is_not_exist _ = false

module _ (host : Host) (cmd : Bytes) (json_output : Bool) where
  abbrev pub pure : {A : Type 0} → A → Act host A
  pure a m = ended (ok a) m

  -- `writeError(stderr, …, err, jsonOutput, ExitFailure); return ExitFailure`
  unfoldable pub stop : {A : Type 0} → CliError → Act host A
  unfolding write_error
  stop e m =
      ended (err exit_failure) (write_error host cmd (host.error_text e) json_output exit_failure m)

  -- `if err != nil { writeError(…); return ExitFailure }`
  abbrev pub check : {E A : Type 0} → (E → CliError) → Result E A → Act host A
  check wrapped (ok a) = pure a
  check wrapped (err e) = stop (wrapped e)

  -- A call on the database, with its check.
  abbrev pub call :
      {E A : Type 0} → (E → CliError) → (host.rt.World → Result E A × host.rt.World) → Act host A
  call wrapped f m = let (r, w) = f m.world in check wrapped r (record m { world = w })

  abbrev pub option_result : {E : Type 0} → Option E → Result E (Unit {0})
  option_result none = ok tt
  option_result (some e) = err e

  -- `defer` of a call on the database that cannot fail.
  abbrev pub closing : (host.rt.World → host.rt.World) → Machine host → Ended host (Unit {0})
  closing f m = ended tt (record m { world = f m.world })

  -- `config.NewWithOpts`, with the timeout that every handler passes.
  abbrev pub configure : Bytes → Bytes → Bytes → Act host Config
  configure db_url dir table =
      check config_error (new_with_opts host.getenv db_url dir table default_timeout)

  -- `db.ConnectAndPing`, and the rest of the handler up to `defer conn.Close()`.
  abbrev pub with_database : {A : Type 0} → Config → Act host A → Act host A
  with_database cfg body =
      call connection_error
        (connect_and_ping host.format_duration host.connector cfg.database_url cfg.timeout)
      >>= λ _. deferring (closing host.connector.close) body

  -- `dbConn.Conn`, and the rest up to `defer conn.Close()`.
  abbrev pub with_conn : {A : Type 0} → Act host A → Act host A
  with_conn body =
      call connection_error (λ w. let (r, w') = host.conn w in (option_result r, w')) >>= λ _.
      deferring (closing host.release) body

  -- `l.Lock(ctx)` of a new lock; what it leaves of the lock is the value.
  unfoldable pub acquire : Config → Act host AdvisoryLock
  unfolding lock generate_lock_id stop
  acquire cfg m =
      let id = generate_lock_id cfg.table_name in
      let (answer, w) = host.lock_query id m.world in
      elim (lock answer (new true id) m.mutexes) [
        | returns r l ms ↦
            let m' : Machine host = record m { world = w; mutexes = ms } in
            elim r [ none ↦ pure l m' | some e ↦ stop (lock_error e) m' ]
        | waits_inside waiting ↦ blocks
        | waits ↦ blocks
        | fails ↦ crashes
      ]

  -- `_ = l.Unlock(context.Background())`, which asks the server only for a lock that it has granted.
  unfoldable pub release_lock : AdvisoryLock → Machine host → Ended host (Unit {0})
  unfolding unlock
  release_lock l m =
      let (answer, asked) = host.unlock_query l.lock_id m.world in
      let w = if l.locked && not l.is_fallback then asked else m.world in
      elim (unlock answer l m.mutexes) [
        | returns r l' ms ↦ ended tt (record m { world = w; mutexes = ms })
        | waits_inside waiting ↦ blocks
        | waits ↦ blocks
        | fails ↦ crashes
      ]

  -- `if !noLock { … }`, and the rest of the handler.
  abbrev pub with_lock : {A : Type 0} → Config → Bool → Act host A → Act host A
  with_lock cfg no_lock body =
      if no_lock then body else (acquire cfg >>= λ l. deferring (release_lock l) body)

  -- `history.EnsureTable`
  abbrev pub ensure : Config → Act host (Unit {0})
  ensure cfg = call store_error (ensure_table host.rt cfg.table_name)

  -- `history.GetAppliedMigrations`
  abbrev pub get_applied : Config → Act host (List AppliedMigration)
  get_applied cfg = call store_error (λ w. (get_applied_migrations host.rt cfg.table_name w, w))

  abbrev pub discovered_files :
      Result DiscoverError (List MigrationFile) → Act host (List MigrationFile)
  discovered_files (ok files) = pure files
  discovered_files (err e) = if is_not_exist e then pure [] else stop (discover_error e)

  -- `migration.Discover`; a directory that does not exist has no files.
  abbrev pub find_files : Config → Act host (List MigrationFile)
  find_files cfg = discovered_files (discover host.fs cfg.migrations_dir)

  -- `history.ComputePending`
  abbrev pub find_pending :
      List MigrationFile → List AppliedMigration → Act host (List MigrationFile)
  find_pending files applied = check pending_error (compute_pending host.fs files applied)

  -- Both reads and what is pending by them.
  abbrev pub pending_of : Config → Act host (List MigrationFile)
  pending_of cfg =
      get_applied cfg >>= λ applied. find_files cfg >>= λ files. find_pending files applied

  abbrev pub print_line : Bytes → Act host (Unit {0})
  print_line text m = pure tt (print_out host (text ++ b'\n' ∷ []) m)

  -- A formatter on stdout, with its check.
  abbrev pub show : {E : Type 0} → (PrintError E → CliError) → Script E → Act host (Unit {0})
  show wrapped s m =
      let (r, o) = print host.out s m.stdout in
      elim r [
        | none ↦ pure tt (record m { stdout = o })
        | some e ↦ stop (wrapped e) (record m { stdout = o })
      ]

  -- `json.MarshalIndent` with its check, and the line on stdout.
  abbrev pub show_json : Document → Act host (Unit {0})
  show_json doc = check json_error (host.encode doc) >>= λ data'. print_line data'

  -- A run, which hands its errors over to the end of the handler.
  abbrev pub run_on : (host.rt.World → Run × host.rt.World) → Act host Run
  run_on f m = let (run, w) = f m.world in pure run (record m { world = w })
