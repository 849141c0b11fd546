-- ===== src/Cli/Handlers/ReadOnly.antt =====
-- What the whole command `dry-run` leaves committed.
use schemago.Base.{◌≡◌, refl, ◌∙◌, Bool, false, List, [], ◌∷◌, ok, All}
use schemago.Text.{Bytes}
use schemago.Migration.Filename.{MigrationFile}
use schemago.Migration.Statement.{Statement, split_statements}
use schemago.Database.Transactions.{Transactions}
use schemago.Apply.Step.{execer}
use schemago.Apply.Laws.{KeepsTable}
use schemago.DryRun.Rollback.{IsContained?, dry_run-committed}
use schemago.Lock.Single.{IsFree}
use schemago.Cli.Host.{Host, Machine}
use schemago.Cli.Steps.Returns.{Returns}
use schemago.Cli.Steps.Quiet.{Quiet, Is, Is-Keeps}
use schemago.Cli.Handlers.{pointers, handle_dry_run}
use schemago.Cli.Handlers.Finish.{IsExit}
use schemago.Cli.Handlers.Exits.{handle_dry_run-Returns}

module _ (host : Host) (tx : Transactions host.rt) (k : KeepsTable host.rt tx host.fs) where
  -- No file on the disk has a statement that ends the transaction.
  abbrev pub AreContained : Type 0
  AreContained =
      (path content : Bytes)
      → host.fs.read_file path ≡ ok content
      → All (λ (st : Statement). tx.ends_tx st.sql ≡ false) (split_statements content)

  pub pointers-IsContained :
      AreContained
      → (files : List MigrationFile) → All (IsContained? host.rt tx host.fs) (pointers files)
  pointers-IsContained contained [] = tt
  pointers-IsContained contained (file ∷ files) =
      (λ content h. contained file.path content h, pointers-IsContained contained files)

  -- Started with no mutex locked, the command `dry-run` comes to an end with the exit code of success or of failure,
  -- and what is committed in the database is then what it was before, whatever its flags, whatever is
  -- pending, and whatever fails on the way. This takes the laws of transactions, that connecting, locking and
  -- closing commit nothing, and that neither the statements on the history table nor those of the files on the disk
  -- end the transaction.
  pub handle_dry_run-committed :
      (db_url dir table : Bytes) (no_lock json : Bool) (m : Machine host)
      → Quiet host tx.committed
      → AreContained
      → IsFree m.mutexes
      → Returns
          (λ w ms. (tx.committed w ≡ tx.committed m.world) × IsFree ms)
          IsExit
          (handle_dry_run host db_url dir table no_lock json m)
  handle_dry_run-committed db_url dir table no_lock json m quiet contained free =
      handle_dry_run-Returns host (Is host tx.committed (tx.committed m.world))
        (Is-Keeps host tx.committed quiet (tx.committed m.world)) db_url dir table no_lock json m
        (λ name pending w h.
          dry_run-committed host.rt tx host.fs k execer name (pointers pending) w
            (pointers-IsContained contained pending)
          ∙ h)
        (refl, free)
