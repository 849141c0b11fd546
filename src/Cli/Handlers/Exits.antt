-- ===== src/Cli/Handlers/Exits.antt =====
-- The ends of the handlers, with what they keep of the database and of the mutexes.
use schemago.Base.{Bool, List}
use schemago.Text.{Bytes, codes}
use schemago.Migration.Filename.{MigrationFile}
use schemago.History.Store.{ensure_table}
use schemago.Lock.Single.{IsFree}
use schemago.Apply.Step.{execer, apply}
use schemago.DryRun.{dry_run}
use schemago.Cli.Host.{Host, Machine}
use schemago.Cli.Steps.Returns.{Returns}
use schemago.Cli.Steps.Keeps.{Keeps, And}
use schemago.Cli.Handlers.{
  pointers, status_body, plan_body, apply_body, dry_run_body, handle_status, handle_plan,
  handle_apply, handle_dry_run,
}
use schemago.Cli.Handlers.Finish.{IsExit}
use schemago.Cli.Handlers.Scopes.{connected-Returns, locked-Returns}
use schemago.Cli.Handlers.Bodies.{
  status_body-Returns, plan_body-Returns, apply_body-Returns, dry_run_body-Returns,
}

-- The calls on the database keep a property of it, and so do the handlers.
module _ (host : Host) (K : host.rt.World → Type 0) (keeps : Keeps host K) where
  pub handle_status-Returns :
      (db_url dir table : Bytes) (json : Bool) (m : Machine host)
      → ((name : Bytes) (w : host.rt.World) → K w → K (ensure_table host.rt name w).1)
      → And host K IsFree m.world m.mutexes
      → Returns (And host K IsFree) IsExit (handle_status host db_url dir table json m)
  unfolding handle_status
  handle_status-Returns db_url dir table json m ensures h =
      connected-Returns host K keeps (codes "status") json db_url dir table (status_body host json)
        m (λ cfg m1 i. status_body-Returns host K IsFree json cfg m1 ensures i) h

  pub handle_plan-Returns :
      (db_url dir table : Bytes) (show_sql json : Bool) (m : Machine host)
      → ((name : Bytes) (w : host.rt.World) → K w → K (ensure_table host.rt name w).1)
      → And host K IsFree m.world m.mutexes
      → Returns (And host K IsFree) IsExit (handle_plan host db_url dir table show_sql json m)
  unfolding handle_plan
  handle_plan-Returns db_url dir table show_sql json m ensures h =
      connected-Returns host K keeps (codes "plan") json db_url dir table
        (plan_body host show_sql json) m
        (λ cfg m1 i. plan_body-Returns host K IsFree show_sql json cfg m1 ensures i) h

  pub handle_apply-Returns :
      (db_url dir table : Bytes) (no_lock json : Bool) (m : Machine host)
      → ((name : Bytes) (w : host.rt.World) → K w → K (ensure_table host.rt name w).1)
      → ((name : Bytes) (pending : List MigrationFile) (w : host.rt.World)
          → K w
          → K (apply host.rt host.fs execer name (pointers pending) w).1)
      → And host K IsFree m.world m.mutexes
      → Returns (And host K IsFree) IsExit (handle_apply host db_url dir table no_lock json m)
  unfolding handle_apply
  handle_apply-Returns db_url dir table no_lock json m ensures runs h =
      locked-Returns host K keeps (codes "apply") json no_lock db_url dir table
        (apply_body host json) m
        (λ cfg M m1 i. apply_body-Returns host K M json cfg m1 ensures runs i) h

  pub handle_dry_run-Returns :
      (db_url dir table : Bytes) (no_lock json : Bool) (m : Machine host)
      → ((name : Bytes) (pending : List MigrationFile) (w : host.rt.World)
          → K w
          → K (dry_run host.rt host.fs execer name (pointers pending) w).1)
      → And host K IsFree m.world m.mutexes
      → Returns (And host K IsFree) IsExit (handle_dry_run host db_url dir table no_lock json m)
  unfolding handle_dry_run
  handle_dry_run-Returns db_url dir table no_lock json m runs h =
      locked-Returns host K keeps (codes "dry-run") json no_lock db_url dir table
        (dry_run_body host json) m (λ cfg M m1 i. dry_run_body-Returns host K M json cfg m1 runs i)
        h
