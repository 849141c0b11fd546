-- ===== src/Cli/Handlers/Settled.antt =====
-- The command `status`, behind an `apply` that exits with 0.
use schemago.Base.{ℕ, ◌≡◌, ◌∙◌, sym, ap, subst, Bool, false, [], map, ok}
use schemago.Text.{Bytes, codes, is_empty}
use schemago.History.Table.{validate_table_name}
use schemago.History.Store.{ensure_table}
use schemago.History.Pending.{compute_pending}
use schemago.History.Reads.{
  HistoryTable, records, record_of_row, get_applied_migrations_inv, ensure_table-rows,
}
use schemago.Database.Transactions.{Transactions}
use schemago.Config.{Config, default_timeout, new_with_opts}
use schemago.Apply.Laws.{KeepsTable}
use schemago.Cli.Host.{config_error, Host, Machine, ended}
use schemago.Cli.Steps.{configure}
use schemago.Cli.Steps.Inversion.{Found-unique, continue_inv, check_inv}
use schemago.Cli.Steps.Quiet.{Quiet, with_database-Ran}
use schemago.Cli.Handlers.{status_body, handle_apply, handle_status, handle_plan}
use schemago.Cli.Handlers.Agreement.{CanPrint, NothingPrinted, handle_status-handle_plan}
use schemago.Cli.Handlers.ReadOnly.{AreContained}
use schemago.Cli.Handlers.Reported.{exit_code-Found, status_body_inv}
use schemago.Cli.Handlers.Repeated.{
  AreElsewhere, NothingPending, apply_body-NothingPending, view, body_ran,
}

module _ (host : Host) (tx : Transactions host.rt) (ht : HistoryTable host.rt tx)
    (k : KeepsTable host.rt tx host.fs)
    (hashes : (t : Bytes) → is_empty (host.fs.sum256 t) ≡ false) where
  -- Where nothing is pending, a `status` that returns an exit code returns 0.
  status_body-NothingPending :
      (json : Bool) (cfg : Config) (table : Bytes) (m : Machine host) {code : ℕ} {m1 : Machine host}
      → validate_table_name cfg.table_name ≡ ok table
      → tx.in_tx m.world ≡ false
      → NothingPending host tx ht k cfg table (tx.committed m.world)
      → status_body host json cfg m ≡ ended (ok code) m1
      → code ≡ 0
  status_body-NothingPending json cfg table m valid idle (files, found, nothing) h =
      let w = (ensure_table host.rt cfg.table_name m.world).1 in
      let (applied, files', created, reads, found', code_is) = status_body_inv host json cfg m h in
      let (idle_w, kept) =
        ensure_table-rows host.rt tx ht cfg.table_name table m.world idle valid in
      let same_history : applied ≡ records host.rt tx ht table (tx.committed m.world) =
        get_applied_migrations_inv host.rt tx ht cfg.table_name table w idle_w valid reads
        ∙ ap (map (record_of_row host.rt)) kept in
      let same_files = Found-unique found' found in
      let nothing' : compute_pending host.fs files' applied ≡ ok [] =
        subst (λ fs. compute_pending host.fs fs applied ≡ ok []) (sym same_files)
          (subst (λ a. compute_pending host.fs files a ≡ ok []) (sym same_history) nothing) in
      sym code_is
      ∙ (exit_code-Found host.fs hashes cfg.migrations_dir files' applied found').1 nothing'

  module _ (db_url dir name : Bytes) (cfg : Config) (table : Bytes)
      (resolved : new_with_opts host.getenv db_url dir name default_timeout ≡ ok cfg)
      (valid : validate_table_name cfg.table_name ≡ ok table)
      (quiet : Quiet host (view host tx ht k)) where
    handle_status-NothingPending :
        (json : Bool) (m : Machine host) {code : ℕ} {m1 : Machine host}
        → tx.in_tx m.world ≡ false
        → NothingPending host tx ht k cfg table (tx.committed m.world)
        → handle_status host db_url dir name json m ≡ ended (ok code) m1
        → code ≡ 0
    unfolding handle_status
    handle_status-NothingPending json m {code} idle nothing h =
        let cmd = codes "status" in
        let (cfg', n, configured, h2) =
          continue_inv (configure host cmd json db_url dir name m) _ h in
        let (resolved', same2) =
          check_inv host cmd json config_error
            (new_with_opts host.getenv db_url dir name default_timeout) m configured in
        let same_cfg : cfg' ≡ cfg = cc (resolved, resolved') in
        let (c, d, reported, in_c, out_d) =
          with_database-Ran host (view host tx ht k) quiet cmd json cfg'
            (status_body host json cfg') n h2 in
        let at_c = in_c ∙ ap (λ (x : Machine host). view host tx ht k x.world) same2 in
        status_body-NothingPending json cfg table c valid (ap (λ v. v.1) at_c ∙ idle)
          (subst (NothingPending host tx ht k cfg table) (sym (ap (λ v. v.0) at_c)) nothing)
          (subst (λ x. status_body host json x c ≡ ended (ok code) d) same_cfg reported)

    -- If the command `apply` exits with 0, and `status` is then run with the same flags for the database, the directory
    -- and the table, on what `apply` has left committed, and gets to its report, then its exit code is 0: all
    -- is applied, and nothing has drifted. And `plan` in its place, as text, exits with 0 and prints that there is
    -- nothing to apply, as long as that line can be written. This takes that the environment and the files
    -- are the same for both commands, the laws of transactions and of the history table, that no error of reading a
    -- history table that exists has the text of a missing one, that connecting, locking and closing neither commit anything nor open a transaction, that none is open
    -- when the commands start, that no statement of a file on the disk ends the transaction or changes the history
    -- table, and that the hash function gives some bytes.
    pub handle_apply-handle_status :
        (no_lock json json' show_sql : Bool) (m m' : Machine host) {code : ℕ} {m1 m2 : Machine host}
        → AreContained host tx k
        → AreElsewhere host tx ht k table
        → tx.in_tx m.world ≡ false
        → handle_apply host db_url dir name no_lock json m ≡ ended (ok 0) m1
        → tx.in_tx m'.world ≡ false
        → tx.committed m'.world ≡ tx.committed m1.world
        → handle_status host db_url dir name json' m' ≡ ended (ok code) m2
        → CanPrint host hashes m'
        → (code ≡ 0)
          × NothingPrinted host hashes m' (handle_plan host db_url dir name show_sql false m')
    handle_apply-handle_status no_lock json json' show_sql m m' {code} {m1} {m2} contained elsewhere
          idle h idle' same h' can =
        let (a, b, ran, idle_a, in_a, out_b) =
          body_ran host tx ht k db_url dir name cfg table resolved valid quiet no_lock json m idle
            h in
        let nothing = subst (NothingPending host tx ht k cfg table) (out_b ∙ sym same) (
          apply_body-NothingPending host tx ht k cfg table valid json a contained elsewhere idle_a
            ran) in
        let clean : code ≡ 0 = handle_status-NothingPending json' m' idle' nothing h' in
        (
          clean,
          handle_status-handle_plan host hashes db_url dir name json' show_sql m' can
              (subst (λ c. handle_status host db_url dir name json' m' ≡ ended (ok c) m2) clean h'),
        )
