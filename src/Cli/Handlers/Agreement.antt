-- ===== src/Cli/Handlers/Agreement.antt =====
-- What `status` and `plan` say of the same database and the same files.
use schemago.Base.{ℕ, ◌≡◌, refl, subst, Bool, false, none, [], Result, ok}
use schemago.Text.{Bytes, codes, is_empty}
use schemago.History.Store.{ensure_table}
use schemago.Db.{connect_and_ping}
use schemago.Config.{Config, default_timeout, new_with_opts}
use schemago.Plan.{nothing_text}
use schemago.Output.{print}
use schemago.Cli.Host.{config_error, connection_error, Host, Machine, Ended, ended}
use schemago.Cli.Steps.{closing, call, configure, with_database}
use schemago.Cli.Steps.Inversion.{Found-discovered_files, continue_inv, clean_up_inv, check_inv}
use schemago.Cli.Handlers.Reported.{exit_code-Found, status_body_inv}
use schemago.Cli.Handlers.{finish_plan, status_body, plan_body, handle_status, handle_plan}

module _ (host : Host) (hashes : (t : Bytes) → is_empty (host.fs.sum256 t) ≡ false) where
  -- The preview of nothing.
  abbrev pub NothingPrinted : Machine host → Ended host (Result ℕ ℕ) → Type 0
  NothingPrinted m e =
      (m2 : Machine host) × (e ≡ ended (ok 0) m2)
      × (m2.stdout ≡ (host.out.write_to nothing_text m.stdout).1)

  -- The line can be written.
  abbrev pub CanPrint : Machine host → Type 0
  CanPrint m = (host.out.write_to nothing_text m.stdout).0 ≡ none

  finish_plan-Nothing :
      (show_sql : Bool) (m : Machine host)
      → CanPrint m
      → NothingPrinted m (finish_plan host (codes "plan") false show_sql [] m)
  unfolding finish_plan print
  finish_plan-Nothing show_sql m can = rw (can, finish_plan) (_, refl, rw (can, print) refl)

  -- The bodies of the two handlers, on the same machine.
  status_body-plan_body :
      (json show_sql : Bool) (cfg : Config) (m : Machine host) {m1 : Machine host}
      → CanPrint m
      → status_body host json cfg m ≡ ended (ok 0) m1
      → NothingPrinted m (plan_body host show_sql false cfg m)
  status_body-plan_body json show_sql cfg m can h =
      let (applied, files, created, reads, found, clean) = status_body_inv host json cfg m h in
      let nothing =
        (exit_code-Found host.fs hashes cfg.migrations_dir files applied found).0 clean in
      let m' : Machine host = record m {
        world = (ensure_table host.rt cfg.table_name m.world).1;
      } in
      let listed = Found-discovered_files host (codes "plan") false m' found in
      rw (created, plan_body)
        (rw reads (rw listed (rw nothing (finish_plan-Nothing show_sql m' can))))

  -- If `status` exits with 0, whether it prints text or JSON, `plan` as text, that is without its flag --json, with the same
  -- flags for the database, the directory and the table and on the same machine, exits with 0 too, with or without the SQL, and prints that there is nothing to apply, as long as that line can be
  -- written. The hash function gives some bytes.
  pub handle_status-handle_plan :
      (db_url dir table : Bytes) (json show_sql : Bool) (m : Machine host) {m1 : Machine host}
      → CanPrint m
      → handle_status host db_url dir table json m ≡ ended (ok 0) m1
      → NothingPrinted m (handle_plan host db_url dir table show_sql false m)
  unfolding handle_status handle_plan
  handle_status-handle_plan db_url dir table json show_sql m {m1} can h =
      let cmd = codes "status" in
      let (cfg, m2, configured, h2) =
        continue_inv (configure host cmd json db_url dir table m) _ h in
      let (resolved, same2) =
        check_inv host cmd json config_error
          (new_with_opts host.getenv db_url dir table default_timeout) m configured in
      let connects =
        connect_and_ping host.format_duration host.connector cfg.database_url cfg.timeout in
      let m' : Machine host = record m { world = (connects m.world).1 } in
      let h2' : with_database host cmd json cfg (status_body host json cfg) m ≡ ended (ok 0) m1 =
        subst (λ x. with_database host cmd json cfg (status_body host json cfg) x ≡ ended (ok 0) m1)
          same2 h2 in
      let (u, m3, connected, h3) =
        continue_inv (call host cmd json connection_error connects m) _ h2' in
      let (opened, same3) =
        check_inv host cmd json connection_error (connects m.world).0 m' connected in
      let (m4, went, closed) =
        clean_up_inv (closing host cmd json host.connector.close) (status_body host json cfg m3)
          h3 in
      let went' : status_body host json cfg m' ≡ ended (ok 0) m4 =
        subst (λ x. status_body host json cfg x ≡ ended (ok 0) m4) same3 went in
      let (m5, planned, printed) = status_body-plan_body json show_sql cfg m' can went' in
      rw (resolved, handle_plan) (rw opened (rw planned (_, refl, printed)))
