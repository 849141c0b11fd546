-- ===== src/Cli/Handlers/Reported.antt =====
-- What is known of a `status` that has gone through, and its exit code for the files that it goes on with.
use schemago.Base.{ℕ, ◌≡◌, sym, subst, ◌↔◌, Bool, false, List, [], ok, inl, inr, if◌then◌else◌}
use schemago.Text.{Bytes, codes, is_empty}
use schemago.Files.{Files}
use schemago.Migration.Filename.{MigrationFile}
use schemago.Migration.Discovery.{discover}
use schemago.History.{AppliedMigration}
use schemago.History.Store.{ensure_table, get_applied_migrations}
use schemago.History.Pending.{compute_pending}
use schemago.Config.{Config}
use schemago.Status.{Report, build_report, exit_code}
use schemago.Status.Agreement.{exit_code-compute_pending}
use schemago.Status.Discovered.{exit_code-discover}
use schemago.Status.Format.{format_report}
use schemago.Cli.Host.{store_error, print_error, report_document, Host, Machine, ended}
use schemago.Cli.Steps.{ensure, get_applied, find_files, show, show_json, pure}
use schemago.Cli.Steps.Inversion.{Found, continue_inv, check_inv, discovered_files_inv}
use schemago.Cli.Handlers.{finish_status, status_body}

module _ (fs : Files) (hashes : (t : Bytes) → is_empty (fs.sum256 t) ≡ false) where
  -- For the files that a handler goes on with, the exit code of `status` is 0 exactly if nothing is pending.
  pub exit_code-Found :
      (dir : Bytes) (files : List MigrationFile) (applied : List AppliedMigration)
      → Found (discover fs dir) files
      → (exit_code (build_report files applied) ≡ 0) ↔ (compute_pending fs files applied ≡ ok [])
  exit_code-Found dir files applied (inl found) = exit_code-discover fs hashes dir applied found
  exit_code-Found dir files applied (inr (empty, x, r, y)) =
      subst (λ n. (exit_code (build_report n applied) ≡ 0) ↔ (compute_pending fs n applied ≡ ok []))
        (sym empty) (exit_code-compute_pending fs [] applied tt tt)

module _ (host : Host) where
  finish_status_inv :
      (cmd : Bytes) (json : Bool) (r : Report) (m : Machine host) {code : ℕ} {m1 : Machine host}
      → finish_status host cmd json r m ≡ ended (ok code) m1
      → exit_code r ≡ code
  unfolding finish_status
  finish_status_inv cmd json r m h =
      let (u, m2, shown, ends) =
        continue_inv
          ((if json
              then show_json host cmd json (report_document r)
              else show host cmd json print_error (format_report host.format_utc host.align r))
            m)
          (λ _. pure host cmd json (exit_code r)) h in
      cc ends

  -- What the body of a `status` that returns an exit code has read, and where the code is from.
  pub status_body_inv :
      (json : Bool) (cfg : Config) (m : Machine host) {code : ℕ} {m1 : Machine host}
      → status_body host json cfg m ≡ ended (ok code) m1
      → let w = (ensure_table host.rt cfg.table_name m.world).1 in
        (applied : List AppliedMigration) × (files : List MigrationFile) × ((ensure_table host.rt
            cfg.table_name m.world).0
          ≡ ok tt)
        × (get_applied_migrations host.rt cfg.table_name w ≡ ok applied)
        × Found (discover host.fs cfg.migrations_dir) files
        × (exit_code (build_report files applied) ≡ code)
  status_body_inv json cfg m h =
      let cmd = codes "status" in
      let m' : Machine host = record m {
        world = (ensure_table host.rt cfg.table_name m.world).1;
      } in
      let (u, m2, ensured, h2) = continue_inv (ensure host cmd json cfg m) _ h in
      let (created, same2) =
        check_inv host cmd json store_error (ensure_table host.rt cfg.table_name m.world).0 m'
          ensured in
      let (applied, m3, got, h3) = continue_inv (get_applied host cmd json cfg m2) _ h2 in
      let (reads, same3) =
        check_inv host cmd json store_error (get_applied_migrations host.rt cfg.table_name m2.world)
          m2 got in
      let (files, m4, found, h4) = continue_inv (find_files host cmd json cfg m3) _ h3 in
      let (same4, which) =
        discovered_files_inv host cmd json (discover host.fs cfg.migrations_dir) m3 found in
      (
        applied,
        files,
        created,
        subst
            (λ (x : Machine host).
              get_applied_migrations host.rt cfg.table_name x.world ≡ ok applied)
            same2 reads,
        which,
        finish_status_inv cmd json (build_report files applied) m4 h4,
      )
