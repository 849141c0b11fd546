-- ===== src/Cli/Handlers.antt =====
-- The handlers of internal/cli/cli.go: `status`, `plan`, `apply` and `dry-run`.
pub mod Finish
pub mod Scopes
pub mod Bodies
pub mod Exits
pub mod ReadOnly
pub mod Reported
pub mod Agreement
pub mod Ends
pub mod Applied
pub mod Repeated
pub mod Settled
pub mod Released
use schemago.Base.{ℕ, Bool, Option, none, some, List, map, ok, err, if◌then◌else◌}
use schemago.Text.{Bytes, codes}
use schemago.Migration.Filename.{MigrationFile}
use schemago.Migration.Discovery.{discover}
use schemago.History.Store.{ensure_table, get_applied_migrations}
use schemago.History.Pending.{compute_pending}
use schemago.Db.{connect_and_ping}
use schemago.Config.{Config, new_with_opts}
use schemago.Status.{Report, build_report, exit_code}
use schemago.Status.Format.{format_report}
use schemago.Plan.{build_plan, format_plan}
use schemago.Apply.{MigrationError, MigrationResult, RunResult, migration_failed, Run}
use schemago.Apply.Step.{execer, apply}
use schemago.Apply.Format.{MigrationResultJson, format_result, marshal_json}
use schemago.DryRun.{dry_run}
use schemago.DryRun.Format.{format_dry_result}
use schemago.Output.{Script, print}
use schemago.Cli.Host.{
  run_error, print_error, plan_error, RunResultJson, report_document, plan_document,
  result_document, Host, ended, Act, ◌>>=◌,
}
use schemago.Cli.Steps.{
  exit_failure, pure, stop, configure, with_database, with_conn, acquire, release_lock, with_lock,
  ensure, get_applied, find_files, pending_of, print_line, show, show_json, run_on,
}

-- The pending files as `Apply` and `DryRun` take them; none is nil.
abbrev pub pointers : List MigrationFile → List (Option MigrationFile)
pointers = map some

module _ (host : Host) where
  -- The text of the error of a migration, which a run returns as it is.
  abbrev pub migration_text : MigrationError → Bytes
  migration_text e = host.error_text (run_error (migration_failed e))

  abbrev pub json_of : MigrationResult → MigrationResultJson
  json_of = marshal_json migration_text

  abbrev pub result_json : RunResult → RunResultJson
  result_json res = record {
    applied = map json_of res.applied;
    failed = elim res.failed [ none ↦ none | some item ↦ some (json_of item) ];
    total_pending = res.total_pending;
  }

module _ (host : Host) (cmd : Bytes) (json_output : Bool) where
  -- The end of `handleStatus`.
  unfoldable pub finish_status : Report → Act host ℕ
  unfolding print stop format_report
  finish_status report =
      (if json_output
        then show_json host cmd json_output (report_document report)
        else show host cmd json_output print_error
            (format_report host.format_utc host.align report))
      >>= λ _. pure host cmd json_output (exit_code report)

  -- The end of `handlePlan`.
  unfoldable pub finish_plan : Bool → List MigrationFile → Act host ℕ
  unfolding print stop format_plan
  finish_plan show_sql pending =
      let p = build_plan pending in
      (if json_output
        then show_json host cmd json_output (plan_document p)
        else show host cmd json_output plan_error (format_plan host.fs show_sql (some p)))
      >>= λ _. pure host cmd json_output 0

  -- The line of JSON for a result that is not nil, if it can be encoded.
  abbrev pub print_result : Option RunResult → Act host (Unit {0})
  print_result none = pure host cmd json_output tt
  print_result (some res) = elim (host.encode (result_document (result_json host res))) [
    | ok data' ↦ print_line host cmd json_output data'
    | err e ↦ pure host cmd json_output tt
  ]

  -- `if applyErr != nil { … }`, in JSON and as text.
  abbrev pub check_run_json : Run → Act host ℕ
  check_run_json run = elim run.error [
    | none ↦ pure host cmd json_output 0
    | some e ↦ elim run.result [
      | none ↦ stop host cmd json_output (run_error e)
      | some res ↦ λ m. ended (err exit_failure) m
    ]
  ]

  abbrev pub check_run : Run → Act host ℕ
  check_run run = elim run.error [
    | none ↦ pure host cmd json_output 0
    | some e ↦ stop host cmd json_output (run_error e)
  ]

  -- The end of `handleApply` and of `handleDryRun`, with the formatter of each.
  unfoldable pub finish_run : (Option RunResult → Script (Unit {0})) → Run → Act host ℕ
  unfolding print stop marshal_json
  finish_run format run =
      if json_output
      then (print_result run.result >>= λ _. check_run_json run)
      else (show host cmd json_output print_error (format run.result) >>= λ _. check_run run)

module _ (host : Host) where
  abbrev pub status_body : Bool → Config → Act host ℕ
  status_body json cfg = ensure host (codes "status") json cfg >>= λ _.
      get_applied host (codes "status") json cfg >>= λ applied.
      find_files host (codes "status") json cfg >>= λ files.
      finish_status host (codes "status") json (build_report files applied)

  -- `handleStatus`
  unfoldable pub handle_status : Bytes → Bytes → Bytes → Bool → Act host ℕ
  unfolding new_with_opts connect_and_ping ensure_table get_applied_migrations discover build_report
      finish_status
  handle_status db_url dir table json =
      configure host (codes "status") json db_url dir table >>= λ cfg.
      with_database host (codes "status") json cfg (status_body json cfg)

  abbrev pub plan_body : Bool → Bool → Config → Act host ℕ
  plan_body show_sql json cfg = ensure host (codes "plan") json cfg >>= λ _.
      pending_of host (codes "plan") json cfg >>= λ pending.
      finish_plan host (codes "plan") json show_sql pending

  -- `handlePlan`
  unfoldable pub handle_plan : Bytes → Bytes → Bytes → Bool → Bool → Act host ℕ
  unfolding new_with_opts connect_and_ping ensure_table get_applied_migrations discover
      compute_pending finish_plan
  handle_plan db_url dir table show_sql json =
      configure host (codes "plan") json db_url dir table >>= λ cfg.
      with_database host (codes "plan") json cfg (plan_body show_sql json cfg)

  abbrev pub apply_body : Bool → Config → Act host ℕ
  apply_body json cfg = ensure host (codes "apply") json cfg >>= λ _.
      pending_of host (codes "apply") json cfg >>= λ pending.
      run_on host (codes "apply") json
        (apply host.rt host.fs execer cfg.table_name (pointers pending))
      >>= λ run. finish_run host (codes "apply") json (format_result (migration_text host)) run

  -- `handleApply`
  unfoldable pub handle_apply : Bytes → Bytes → Bytes → Bool → Bool → Act host ℕ
  unfolding new_with_opts connect_and_ping acquire release_lock ensure_table get_applied_migrations
      discover compute_pending apply format_result finish_run
  handle_apply db_url dir table no_lock json =
      configure host (codes "apply") json db_url dir table >>= λ cfg.
      with_database host (codes "apply") json cfg (
        with_conn host (codes "apply") json
          (with_lock host (codes "apply") json cfg no_lock (apply_body json cfg)))

  abbrev pub dry_run_body : Bool → Config → Act host ℕ
  dry_run_body json cfg = pending_of host (codes "dry-run") json cfg >>= λ pending.
      run_on host (codes "dry-run") json
        (dry_run host.rt host.fs execer cfg.table_name (pointers pending))
      >>= λ run.
          finish_run host (codes "dry-run") json (format_dry_result (migration_text host)) run

  -- `handleDryRun`
  unfoldable pub handle_dry_run : Bytes → Bytes → Bytes → Bool → Bool → Act host ℕ
  unfolding new_with_opts connect_and_ping acquire release_lock get_applied_migrations discover
      compute_pending dry_run format_dry_result finish_run
  handle_dry_run db_url dir table no_lock json =
      configure host (codes "dry-run") json db_url dir table >>= λ cfg.
      with_database host (codes "dry-run") json cfg (
        with_conn host (codes "dry-run") json
          (with_lock host (codes "dry-run") json cfg no_lock (dry_run_body json cfg)))
