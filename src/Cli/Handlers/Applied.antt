-- ===== src/Cli/Handlers/Applied.antt =====
-- What a command `apply` that exits with 0 has done.
use schemago.Base.{◌≡◌, refl, ◌∙◌, sym, ap, subst, Bool, List, ok, Result-cases, inl, inr}
use schemago.Database.{Runtime}
use schemago.History.Table.{validate_table_name}
use schemago.Text.{Bytes, codes}
use schemago.Migration.Filename.{MigrationFile}
use schemago.Migration.Discovery.{discover}
use schemago.History.{AppliedMigration}
use schemago.History.Store.{ensure_table, get_applied_migrations}
use schemago.History.Pending.{compute_pending}
use schemago.Database.Transactions.{Transactions}
use schemago.Config.{Config, default_timeout, new_with_opts}
use schemago.Apply.Step.{execer, apply}
use schemago.Apply.Laws.{KeepsTable}
use schemago.Apply.Atomic.{applied_files}
use schemago.Apply.Effects.{MigratesAll}
use schemago.Apply.Refines.{table_of, apply-MigratesAll}
use schemago.Apply.Complete.{Covers, apply-Covers}
use schemago.Cli.Host.{config_error, Host, Machine, ended}
use schemago.Cli.Steps.{configure, with_conn, with_lock}
use schemago.Cli.Steps.Inversion.{Found, continue_inv, check_inv}
use schemago.Cli.Steps.Quiet.{Quiet, with_database-Ran, with_conn-Ran, with_lock-Ran}
use schemago.Cli.Handlers.{pointers, apply_body, handle_apply}
use schemago.Cli.Handlers.ReadOnly.{AreContained, pointers-IsContained}
use schemago.Cli.Handlers.Ends.{apply_body_inv}

-- The body of an `apply` that exits with 0 has run, and the same is observed of the world around it.
pub handle_apply-Ran :
    (host : Host) {O : Type 0} (observe : host.rt.World → O)
    → (db_url dir table : Bytes) (no_lock json : Bool) (m : Machine host) {m1 : Machine host}
    → Quiet host observe
    → handle_apply host db_url dir table no_lock json m ≡ ended (ok 0) m1
    → (cfg : Config) × (new_with_opts host.getenv db_url dir table default_timeout ≡ ok cfg)
      × (before : Machine host) × (after : Machine host) × (apply_body host json cfg before
          ≡ ended (ok 0) after)
      × (observe before.world ≡ observe m.world)
      × (observe after.world ≡ observe m1.world)
unfolding handle_apply
handle_apply-Ran host observe db_url dir table no_lock json m {m1} quiet h =
    let cmd = codes "apply" in
    let (cfg, m2, configured, h2) = continue_inv (configure host cmd json db_url dir table m) _ h in
    let (resolved, same2) =
      check_inv host cmd json config_error
        (new_with_opts host.getenv db_url dir table default_timeout) m configured in
    let body = apply_body host json cfg in
    let locked = with_lock host cmd json cfg no_lock body in
    let connected = with_conn host cmd json locked in
    let (a1, b1, h3, in1, out1) =
      with_database-Ran host observe quiet cmd json cfg connected m2 h2 in
    let (a2, b2, h4, in2, out2) = with_conn-Ran host observe quiet cmd json locked a1 h3 in
    let (a3, b3, h5, in3, out3) =
      with_lock-Ran host observe quiet cmd json cfg no_lock body a2 h4 in
    (
      cfg,
      resolved,
      a3,
      b3,
      h5,
      in3 ∙ in2 ∙ in1 ∙ ap (λ (x : Machine host). observe x.world) same2,
      sym (out1 ∙ out2 ∙ out3),
    )

-- A table that could be ensured has an accepted name.
ensured_table :
    (rt : Runtime) (name : Bytes) (w : rt.World)
    → (ensure_table rt name w).0 ≡ ok tt
    → (table : Bytes) × (validate_table_name name ≡ ok table)
unfolding ensure_table
ensured_table rt name w h = elim (Result-cases (validate_table_name name)) [
  | inl (table, e) ↦ (table, e)
  | inr (x, e) ↦ absurd (cc (rw (e, ensure_table) at h))
]

-- What `apply` has found and done, on the contents of the database before and after.
module _ (host : Host) (tx : Transactions host.rt) (k : KeepsTable host.rt tx host.fs) where
  pub record Applied (cfg : Config) (before after : tx.Contents) : Type 0 where
    -- The world when the history table is ensured, and behind it.
    pub world : host.rt.World
    pub untouched : tx.committed world ≡ before
    pub ensured : (ensure_table host.rt cfg.table_name world).0 ≡ ok tt
    -- The history, the files of the directory, if it exists, and what is pending by them.
    pub history : List AppliedMigration
    pub files : List MigrationFile
    pub pending : List MigrationFile
    pub reads :
        get_applied_migrations host.rt cfg.table_name (ensure_table host.rt cfg.table_name world).1
        ≡ ok history
    pub found : Found (discover host.fs cfg.migrations_dir) files
    pub computed : compute_pending host.fs files history ≡ ok pending
    -- The run through the pending files, on the configured table, and the migrations that were run.
    pub table : Bytes
    pub accepted : validate_table_name cfg.table_name ≡ ok table
    pub new : List MigrationFile
    pub final : host.rt.World
    pub covered :
        Covers host.rt host.fs execer table
          (pointers pending)
          (ensure_table host.rt cfg.table_name world).1
          new
          final
    pub at_end : tx.committed final ≡ after
    pub migrated :
        MigratesAll host.rt tx host.fs
          (table_of host.rt tx host.fs k cfg.table_name)
          new
          (tx.committed (ensure_table host.rt cfg.table_name world).1)
          after

  apply_body-Applied :
      (json : Bool) (cfg : Config) (m : Machine host) {m1 : Machine host}
      → AreContained host tx k
      → apply_body host json cfg m ≡ ended (ok 0) m1
      → Applied cfg (tx.committed m.world) (tx.committed m1.world)
  apply_body-Applied json cfg m {m1} contained h =
      let (history, files, pending, created, reads, found, computed, went, ends) =
        apply_body_inv host json cfg m h in
      let w = (ensure_table host.rt cfg.table_name m.world).1 in
      let (name, accepted) = ensured_table host.rt cfg.table_name m.world created in
      let runs = apply host.rt host.fs execer cfg.table_name (pointers pending) in
      record {
        world = m.world;
        untouched = refl;
        ensured = created;
        history = history;
        files = files;
        pending = pending;
        reads = reads;
        found = found;
        computed = computed;
        table = name;
        accepted = accepted;
        new = applied_files (runs w).0;
        final = (runs w).1;
        covered =
            apply-Covers host.rt host.fs execer cfg.table_name name (pointers pending) w accepted
              went;
        at_end = ap tx.committed (sym ends);
        migrated = rw ends (
            apply-MigratesAll host.rt tx host.fs k execer cfg.table_name (pointers pending) w
              (pointers-IsContained host tx k contained pending));
      }

  -- If the command `apply` exits with 0, it has ensured the history table on the contents as they were, has read the history
  -- and the files of the directory, or none where it does not exist, and has computed without an error what is pending
  -- by them. It has gone through the pending migrations in their order: one of which the configured history table had
  -- a record at its turn is left out and changes nothing, and each other one has been applied, without an error, to
  -- what the ones before it have left. Each of the latter is committed as a whole, with its row in the history table,
  -- and nothing else has been committed since. This takes the laws of transactions, that connecting, locking and closing commit nothing, and that neither
  -- the statements on the history table nor those of the files on the disk end the transaction.
  pub handle_apply-Applied :
      (db_url dir table : Bytes) (no_lock json : Bool) (m : Machine host) {m1 : Machine host}
      → Quiet host tx.committed
      → AreContained host tx k
      → handle_apply host db_url dir table no_lock json m ≡ ended (ok 0) m1
      → (cfg : Config) × (new_with_opts host.getenv db_url dir table default_timeout ≡ ok cfg)
        × Applied cfg (tx.committed m.world) (tx.committed m1.world)
  handle_apply-Applied db_url dir table no_lock json m {m1} quiet contained h =
      let (cfg, resolved, before, after, ran, at_start, at_end) =
        handle_apply-Ran host tx.committed db_url dir table no_lock json m quiet h in
      (
        cfg,
        resolved,
        subst (λ c. Applied cfg c (tx.committed m1.world)) at_start
            (subst (λ c. Applied cfg (tx.committed before.world) c) at_end
              (apply_body-Applied json cfg before contained ran)),
      )
