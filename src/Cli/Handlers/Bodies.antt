-- ===== src/Cli/Handlers/Bodies.antt =====
-- The ends of the handlers' bodies, with what they keep of the database.
use schemago.Base.{ℕ, Bool, Option, List}
use schemago.Text.{Bytes, codes}
use schemago.Migration.Filename.{MigrationFile}
use schemago.History.Store.{ensure_table}
use schemago.Config.{Config}
use schemago.Lock.{Mutexes}
use schemago.Status.{build_report}
use schemago.Apply.{RunResult, Run}
use schemago.Output.{Script}
use schemago.Cli.Host.{store_error, Host, Machine, Act, continue}
use schemago.Cli.Steps.{ensure, get_applied, find_files, pending_of, run_on}
use schemago.Cli.Steps.Returns.{Keeping, Returns, Any, bind-Returns, call-Returns}
use schemago.Cli.Steps.Keeps.{And}
use schemago.Cli.Steps.Reads.{get_applied-Returns, find_files-Returns, pending_of-Returns}
use schemago.Apply.Step.{execer, apply}
use schemago.DryRun.{dry_run}
use schemago.Apply.Format.{format_result}
use schemago.DryRun.Format.{format_dry_result}
use schemago.Cli.Handlers.{
  finish_run, pointers, migration_text, status_body, plan_body, apply_body, dry_run_body,
}
use schemago.Cli.Handlers.Finish.{
  IsExit, finish_status-Returns, finish_plan-Returns, finish_run-Returns,
}

-- The bodies, for any property of the mutexes.
module _ (host : Host) (K : host.rt.World → Type 0) (M : Mutexes → Type 0) where
  -- `EnsureTable` and what follows it.
  ensure-Returns :
      (cmd : Bytes) (json : Bool) (cfg : Config) (rest : Unit {0} → Act host ℕ) (m : Machine host)
      → ((name : Bytes) (w : host.rt.World) → K w → K (ensure_table host.rt name w).1)
      → ((m : Machine host)
          → And host K M m.world m.mutexes
          → Returns (And host K M) IsExit (rest tt m))
      → And host K M m.world m.mutexes
      → Returns (And host K M) IsExit (continue (ensure host cmd json cfg m) rest)
  ensure-Returns cmd json cfg rest m ensures k h =
      bind-Returns (And host K M) Any IsExit (ensure host cmd json cfg m) rest
        (call-Returns host cmd json (And host K M) store_error (ensure_table host.rt cfg.table_name)
          m (ensures cfg.table_name m.world h.0, h.1))
        λ a m' u i. k m' i

  pub status_body-Returns :
      (json : Bool) (cfg : Config) (m : Machine host)
      → ((name : Bytes) (w : host.rt.World) → K w → K (ensure_table host.rt name w).1)
      → And host K M m.world m.mutexes
      → Returns (And host K M) IsExit (status_body host json cfg m)
  status_body-Returns json cfg m ensures h =
      let I : Keeping host = And host K M in
      let cmd = codes "status" in
      ensure-Returns cmd json cfg _ m ensures
        (λ m1 i.
          bind-Returns I Any IsExit (get_applied host cmd json cfg m1) _
            (get_applied-Returns host cmd json I cfg m1 i)
            λ applied m2 u j.
              bind-Returns I Any IsExit (find_files host cmd json cfg m2) _
                (find_files-Returns host cmd json I cfg m2 j)
                λ files m3 v l.
                  finish_status-Returns host cmd I json (build_report files applied) m3 l)
        h

  pub plan_body-Returns :
      (show_sql json : Bool) (cfg : Config) (m : Machine host)
      → ((name : Bytes) (w : host.rt.World) → K w → K (ensure_table host.rt name w).1)
      → And host K M m.world m.mutexes
      → Returns (And host K M) IsExit (plan_body host show_sql json cfg m)
  plan_body-Returns show_sql json cfg m ensures h =
      let I : Keeping host = And host K M in
      let cmd = codes "plan" in
      ensure-Returns cmd json cfg _ m ensures
        (λ m1 i.
          bind-Returns I Any IsExit (pending_of host cmd json cfg m1) _
            (pending_of-Returns host cmd json I cfg m1 i)
            λ pending m2 u j. finish_plan-Returns host cmd I json show_sql pending m2 j)
        h

  -- A run on what is pending, and its end.
  run-Returns :
      (cmd : Bytes) (json : Bool) (cfg : Config) (m : Machine host)
      (f : List MigrationFile → host.rt.World → Run × host.rt.World)
      (format : Option RunResult → Script (Unit {0}))
      → ((pending : List MigrationFile) (w : host.rt.World) → K w → K (f pending w).1)
      → And host K M m.world m.mutexes
      → Returns (And host K M) IsExit (
          continue (pending_of host cmd json cfg m) (λ pending m1.
            continue (run_on host cmd json (f pending) m1) (finish_run host cmd json format)))
  run-Returns cmd json cfg m f format runs h =
      let I : Keeping host = And host K M in
      bind-Returns I Any IsExit (pending_of host cmd json cfg m) _
        (pending_of-Returns host cmd json I cfg m h)
        λ pending m1 u i.
          finish_run-Returns host cmd I json format (f pending m1.world).0
            (record m1 { world = (f pending m1.world).1 }) (runs pending m1.world i.0, i.1)

  pub apply_body-Returns :
      (json : Bool) (cfg : Config) (m : Machine host)
      → ((name : Bytes) (w : host.rt.World) → K w → K (ensure_table host.rt name w).1)
      → ((name : Bytes) (pending : List MigrationFile) (w : host.rt.World)
          → K w
          → K (apply host.rt host.fs execer name (pointers pending) w).1)
      → And host K M m.world m.mutexes
      → Returns (And host K M) IsExit (apply_body host json cfg m)
  apply_body-Returns json cfg m ensures runs h =
      ensure-Returns (codes "apply") json cfg _ m ensures
        (λ m1 i.
          run-Returns (codes "apply") json cfg m1
            (λ pending. apply host.rt host.fs execer cfg.table_name (pointers pending))
            (format_result (migration_text host)) (runs cfg.table_name) i)
        h

  pub dry_run_body-Returns :
      (json : Bool) (cfg : Config) (m : Machine host)
      → ((name : Bytes) (pending : List MigrationFile) (w : host.rt.World)
          → K w
          → K (dry_run host.rt host.fs execer name (pointers pending) w).1)
      → And host K M m.world m.mutexes
      → Returns (And host K M) IsExit (dry_run_body host json cfg m)
  dry_run_body-Returns json cfg m runs h =
      run-Returns (codes "dry-run") json cfg m
        (λ pending. dry_run host.rt host.fs execer cfg.table_name (pointers pending))
        (format_dry_result (migration_text host)) (runs cfg.table_name) h
