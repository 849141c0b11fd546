-- ===== src/Cli/Handlers/Finish.antt =====
-- The ends of the handlers return, with the exit code of success or of failure.
use schemago.Base.{
  ℕ, ◌<◌, refl, Bool, true, false, Option, none, some, List, Result-cases, inl, inr, arith,
}
use schemago.Text.{Bytes}
use schemago.Migration.Filename.{MigrationFile}
use schemago.Status.{Report, exit_code}
use schemago.Apply.{RunResult, RunError, Run}
use schemago.Output.{Script}
use schemago.Status.Format.{format_report}
use schemago.Plan.{build_plan, format_plan}
use schemago.Cli.Host.{
  print_error, plan_error, report_document, plan_document, result_document, run_error, Host,
  Machine,
}
use schemago.Cli.Steps.Returns.{
  Keeping, Returns, Any, bind-Returns, stop-Returns, show-Returns, show_json-Returns,
}
use schemago.Cli.Handlers.{
  result_json, finish_status, finish_plan, print_result, check_run_json, check_run, finish_run,
}

-- ExitSuccess or ExitFailure.
abbrev pub IsExit : ℕ → Type 0
IsExit code = code < 2

exit_code-IsExit : (r : Report) → IsExit (exit_code r)
unfolding exit_code
exit_code-IsExit r = ground arith

module _ (host : Host) (cmd : Bytes) (I : Keeping host) where
  pub finish_status-Returns :
      (json : Bool) (r : Report) (m : Machine host)
      → I m.world m.mutexes
      → Returns I IsExit (finish_status host cmd json r m)
  unfolding finish_status
  finish_status-Returns true r m h =
      bind-Returns I Any IsExit _ _ (show_json-Returns host cmd true I (report_document r) m h)
        λ a m' u i. (exit_code-IsExit r, i)
  finish_status-Returns false r m h =
      bind-Returns I Any IsExit _ _
        (show-Returns host cmd false I print_error (format_report host.format_utc host.align r) m h)
        λ a m' u i. (exit_code-IsExit r, i)

  pub finish_plan-Returns :
      (json show_sql : Bool) (pending : List MigrationFile) (m : Machine host)
      → I m.world m.mutexes
      → Returns I IsExit (finish_plan host cmd json show_sql pending m)
  unfolding finish_plan
  finish_plan-Returns true show_sql pending m h =
      bind-Returns I Any IsExit _ _
        (show_json-Returns host cmd true I (plan_document (build_plan pending)) m h)
        λ a m' u i. (omega arith, i)
  finish_plan-Returns false show_sql pending m h =
      bind-Returns I Any IsExit _ _
        (show-Returns host cmd false I plan_error
          (format_plan host.fs show_sql (some (build_plan pending))) m h)
        λ a m' u i. (omega arith, i)

  print_result-Returns :
      (json : Bool) (res : Option RunResult) (m : Machine host)
      → I m.world m.mutexes
      → Returns I Any (print_result host cmd json res m)
  print_result-Returns json none m h = (tt, h)
  print_result-Returns json (some res) m h =
      elim (Result-cases (host.encode (result_document (result_json host res)))) [
        | inl (d, e) ↦ rw (e, print_result) (tt, h)
        | inr (x, e) ↦ rw (e, print_result) (tt, h)
      ]

  check_run_json-Returns :
      (json : Bool) (res : Option RunResult) (e : Option RunError) (m : Machine host)
      → I m.world m.mutexes
      → Returns I IsExit (check_run_json host cmd json (record { result = res; error = e }) m)
  check_run_json-Returns json res none m h = (omega arith, h)
  check_run_json-Returns json none (some e) m h =
      stop-Returns host cmd json I IsExit (run_error e) m h
  check_run_json-Returns json (some res) (some e) m h = (refl, h)

  check_run-Returns :
      (json : Bool) (res : Option RunResult) (e : Option RunError) (m : Machine host)
      → I m.world m.mutexes
      → Returns I IsExit (check_run host cmd json (record { result = res; error = e }) m)
  check_run-Returns json res none m h = (omega arith, h)
  check_run-Returns json res (some e) m h = stop-Returns host cmd json I IsExit (run_error e) m h

  pub finish_run-Returns :
      (json : Bool) (format : Option RunResult → Script (Unit {0})) (run : Run) (m : Machine host)
      → I m.world m.mutexes
      → Returns I IsExit (finish_run host cmd json format run m)
  unfolding finish_run
  finish_run-Returns true format run m h =
      bind-Returns I Any IsExit _ _ (print_result-Returns true run.result m h)
        λ a m' u i. check_run_json-Returns true run.result run.error m' i
  finish_run-Returns false format run m h =
      bind-Returns I Any IsExit _ _
        (show-Returns host cmd false I print_error (format run.result) m h)
        λ a m' u i. check_run-Returns false run.result run.error m' i
