-- ===== src/Cli/Handlers/Ends.antt =====
-- What is known of the reads and of the end of a handler that has gone through.
use schemago.Base.{
  ℕ, ◌≡◌, refl, ◌∙◌, sym, ap, Bool, true, false, Option, none, some, List, ok, inl, inr,
  Result-cases, Option-cases,
}
use schemago.Text.{Bytes, codes}
use schemago.Migration.Filename.{MigrationFile}
use schemago.Migration.Discovery.{discover}
use schemago.History.{AppliedMigration}
use schemago.History.Store.{get_applied_migrations}
use schemago.History.Pending.{compute_pending}
use schemago.Config.{Config}
use schemago.Apply.{RunResult, RunError, Run}
use schemago.Output.{Script, PrintError, print}
use schemago.Cli.Host.{
  CliError, store_error, pending_error, print_error, result_document, Host, Machine, Ended, ended,
}
use schemago.Cli.Steps.{stop, get_applied, find_files, pending_of, show}
use schemago.Cli.Steps.Inversion.{Found, continue_inv, check_inv, discovered_files_inv}
use schemago.Apply.Step.{execer, apply}
use schemago.Apply.Format.{format_result}
use schemago.History.Store.{ensure_table}
use schemago.Cli.Steps.{ensure}
use schemago.Cli.Handlers.{pointers, migration_text, apply_body}
use schemago.Base.{subst}
use schemago.Cli.Handlers.{result_json, print_result, check_run_json, check_run, finish_run}

module _ (host : Host) (cmd : Bytes) where
  ended_world :
      {A : Type 0} {r r1 : A} (x m1 : Machine host)
      → (let e : Ended host A = ended r x in e ≡ ended r1 m1)
      → m1.world ≡ x.world
  ended_world x m1 h = let same : x ≡ m1 = cc h in ap (λ (y : Machine host). y.world) (sym same)

  show_inv :
      {E : Type 0} (json : Bool) (wrapped : PrintError E → CliError) (s : Script E)
      (m : Machine host) {u : Unit {0}} {m1 : Machine host}
      → show host cmd json wrapped s m ≡ ended (ok u) m1
      → m1.world ≡ m.world
  unfolding stop
  show_inv json wrapped s m h = elim (Option-cases (print host.out s m.stdout).0) [
    | inl e ↦ ended_world _ _ (rw (e, show) at h)
    | inr (x, e) ↦ absurd (cc (rw (e, show) at h))
  ]

  print_result_inv :
      (json : Bool) (res : Option RunResult) (m : Machine host) {u : Unit {0}} {m1 : Machine host}
      → print_result host cmd json res m ≡ ended (ok u) m1
      → m1.world ≡ m.world
  print_result_inv json none m h = ended_world m _ h
  print_result_inv json (some res) m h =
      elim (Result-cases (host.encode (result_document (result_json host res)))) [
        | inl (d, e) ↦ ended_world _ _ (rw (e, print_result) at h)
        | inr (x, e) ↦ ended_world m _ (rw (e, print_result) at h)
      ]

  check_run_json_inv :
      (json : Bool) (res : Option RunResult) (e : Option RunError) (m : Machine host) {code : ℕ}
      {m1 : Machine host}
      → check_run_json host cmd json (record { result = res; error = e }) m ≡ ended (ok code) m1
      → (e ≡ none) × (m1 ≡ m)
  unfolding stop
  check_run_json_inv json res none m h = (refl, cc h)
  check_run_json_inv json none (some e) m h = absurd (cc h)
  check_run_json_inv json (some res) (some e) m h = absurd (cc h)

  check_run_inv :
      (json : Bool) (res : Option RunResult) (e : Option RunError) (m : Machine host) {code : ℕ}
      {m1 : Machine host}
      → check_run host cmd json (record { result = res; error = e }) m ≡ ended (ok code) m1
      → (e ≡ none) × (m1 ≡ m)
  unfolding stop
  check_run_inv json res none m h = (refl, cc h)
  check_run_inv json res (some e) m h = absurd (cc h)

  -- A handler that exits with 0 has got no error from its run.
  pub finish_run_inv :
      (json : Bool) (format : Option RunResult → Script (Unit {0})) (run : Run) (m : Machine host)
      {code : ℕ} {m1 : Machine host}
      → finish_run host cmd json format run m ≡ ended (ok code) m1
      → (run.error ≡ none) × (m1.world ≡ m.world)
  unfolding finish_run
  finish_run_inv true format run m h =
      let (u, m2, printed, ends) = continue_inv (print_result host cmd true run.result m) _ h in
      let (went, same) = check_run_json_inv true run.result run.error m2 ends in
      (went, ap (λ (x : Machine host). x.world) same ∙ print_result_inv true run.result m printed)
  finish_run_inv false format run m h =
      let (u, m2, printed, ends) =
        continue_inv (show host cmd false print_error (format run.result) m) _ h in
      let (went, same) = check_run_inv false run.result run.error m2 ends in
      (
        went,
        ap (λ (x : Machine host). x.world) same
            ∙ show_inv false print_error (format run.result) m printed,
      )

  pub pending_of_inv :
      (json : Bool) (cfg : Config) (m : Machine host) {pending : List MigrationFile}
      {m1 : Machine host}
      → pending_of host cmd json cfg m ≡ ended (ok pending) m1
      → (history : List AppliedMigration) × (files : List MigrationFile) × (get_applied_migrations
            host.rt cfg.table_name m.world
          ≡ ok history)
        × Found (discover host.fs cfg.migrations_dir) files
        × (compute_pending host.fs files history ≡ ok pending)
        × (m1 ≡ m)
  pending_of_inv json cfg m h =
      let (history, m2, got, h2) = continue_inv (get_applied host cmd json cfg m) _ h in
      let (reads, same2) =
        check_inv host cmd json store_error (get_applied_migrations host.rt cfg.table_name m.world)
          m got in
      let (files, m3, listed, h3) = continue_inv (find_files host cmd json cfg m2) _ h2 in
      let (same3, found) =
        discovered_files_inv host cmd json (discover host.fs cfg.migrations_dir) m2 listed in
      let (computed, same4) =
        check_inv host cmd json pending_error (compute_pending host.fs files history) m3 h3 in
      (history, files, reads, found, computed, same4 ∙ same3 ∙ same2)

module _ (host : Host) where
  -- What is known of the body of an `apply` that exits with 0.
  pub apply_body_inv :
      (json : Bool) (cfg : Config) (m : Machine host) {m1 : Machine host}
      → apply_body host json cfg m ≡ ended (ok 0) m1
      → let w = (ensure_table host.rt cfg.table_name m.world).1 in
        (history : List AppliedMigration) × (files : List MigrationFile) × (pending : List
          MigrationFile)
        × ((ensure_table host.rt cfg.table_name m.world).0 ≡ ok tt)
        × (get_applied_migrations host.rt cfg.table_name w ≡ ok history)
        × Found (discover host.fs cfg.migrations_dir) files
        × (compute_pending host.fs files history ≡ ok pending)
        × ((apply host.rt host.fs execer cfg.table_name (pointers pending) w).0.error ≡ none)
        × (m1.world ≡ (apply host.rt host.fs execer cfg.table_name (pointers pending) w).1)
  apply_body_inv json cfg m {m1} h =
      let cmd = codes "apply" in
      let m' : Machine host = record m {
        world = (ensure_table host.rt cfg.table_name m.world).1;
      } in
      let (u, m2, ensured, h2) = continue_inv (ensure host cmd json cfg m) _ h in
      let (created, same2) =
        check_inv host cmd json store_error (ensure_table host.rt cfg.table_name m.world).0 m'
          ensured in
      let (pending, m3, listed, h3) = continue_inv (pending_of host cmd json cfg m2) _ h2 in
      let (history, files, reads, found, computed, same3) =
        pending_of_inv host cmd json cfg m2 listed in
      let w = (ensure_table host.rt cfg.table_name m.world).1 in
      let at_w : m3.world ≡ w = ap (λ (x : Machine host). x.world) (same3 ∙ same2) in
      let runs : host.rt.World → Run × host.rt.World =
        apply host.rt host.fs execer cfg.table_name (pointers pending) in
      let ended_run : Machine host = record m3 { world = (runs m3.world).1 } in
      let (went, ends) =
        finish_run_inv host cmd json (format_result (migration_text host)) (runs m3.world).0
          ended_run h3 in
      (
        history,
        files,
        pending,
        created,
        subst
            (λ (x : Machine host).
              get_applied_migrations host.rt cfg.table_name x.world ≡ ok history)
            same2 reads,
        found,
        computed,
        subst (λ v. (runs v).0.error ≡ none) at_w went,
        subst (λ v. m1.world ≡ (runs v).1) at_w ends,
      )
