-- ===== src/Tests/Repeats.antt =====
-- Runs of `apply`, once more and followed by `status`, on the database with a history table.
use schemago.Base.{◌≡◌, refl, ℕ, true, false, none, some, List, [], ◌∷◌, Result, ok, All, All-any}
use schemago.Base.Int.{pos}
use schemago.Text.{codes, eq_bytes}
use schemago.Text.Trim.{trim_space}
use schemago.Migration.Statement.{Statement, split_statements}
use schemago.History.{AppliedMigration}
use schemago.History.Store.{ensure_table, get_applied_migrations}
use schemago.History.Pending.{compute_pending}
use schemago.Lock.{is_non_postgres_error}
use schemago.Config.{Config, default_timeout, new_with_opts}
use schemago.Apply.{Run}
use schemago.Apply.Recorded.{LeavesRows}
use schemago.History.Table.{validate_table_name}
use schemago.Apply.Step.{execer, apply}
use schemago.Apply.Atomic.{applied_files}
use schemago.Apply.Repeated.{apply-compute_pending}
use schemago.Cli.Host.{Host, Machine, Ended}
use schemago.Cli.Handlers.{handle_apply, handle_status, handle_plan}
use schemago.Cli.Handlers.Agreement.{NothingPrinted}
use schemago.Cli.Handlers.Settled.{handle_apply-handle_status}
use schemago.Status.{exit_code}
use schemago.Cli.Handlers.Repeated.{view, handle_apply-repeated}
use schemago.Tests.World.{file_a}
use schemago.Tests.Machines.{host_of, host_of-Quiet}
use schemago.Tests.Handlers.{went_code, machine_or, went_through, small_disk}
use schemago.Base.{◌++◌, List}
use schemago.Files.{not_exist}
use schemago.Migration.Filename.{MigrationFile}
use schemago.Apply.{migration_failed, read_failed}
use schemago.Apply.Recorded.{IsProper}
use schemago.Apply.Repeated.{apply_resumes}
use schemago.Tests.Tables.{Store, store, store_transactions, history_table, keeps}

no_end :
    (stmts : List Statement)
    → All (λ (st : Statement). store_transactions.ends_tx st.sql ≡ false) stmts
no_end = All-any (λ (st : Statement). store_transactions.ends_tx st.sql ≡ false) λ st. refl

leaves :
    (stmts : List Statement)
    → All
        (LeavesRows store store_transactions small_disk history_table (codes "schemago_migrations"))
        stmts
leaves =
    All-any
      (LeavesRows store store_transactions small_disk history_table (codes "schemago_migrations"))
      λ st c d ran. cc ran

abbrev empty : Store
empty = record { clock = 5; committed = []; working = []; in_tx = false }

-- What the run of the pending file leaves.
abbrev left_by_run : Run × Store
left_by_run = apply store small_disk execer [] (some file_a ∷ []) empty

abbrev record_a : AppliedMigration
record_a = record {
  version = pos 1;
  name = codes "1_a.sql";
  applied_at = 0;
  checksum = codes "10ab";
}

run_test : left_by_run.0.error ≡ none
unfolding apply eq_bytes trim_space
run_test = refl

read_test : get_applied_migrations store [] left_by_run.1 ≡ ok (record_a ∷ [])
unfolding apply eq_bytes trim_space get_applied_migrations
read_test = refl

pending_test : compute_pending small_disk (file_a ∷ []) [] ≡ ok (file_a ∷ [])
unfolding compute_pending
pending_test = refl

empty_test : get_applied_migrations store [] empty ≡ ok []
unfolding get_applied_migrations
empty_test = refl

default_test : validate_table_name [] ≡ ok (codes "schemago_migrations")
unfolding validate_table_name
default_test = refl

idle_test : left_by_run.1.in_tx ≡ false
unfolding apply eq_bytes trim_space
idle_test = refl

apply-compute_pending_example :
    (applied_files left_by_run.0 ≡ file_a ∷ [])
    × (compute_pending small_disk (file_a ∷ []) (record_a ∷ []) ≡ ok [])
apply-compute_pending_example =
    apply-compute_pending store store_transactions small_disk history_table (keeps small_disk)
      execer [] (codes "schemago_migrations") (file_a ∷ []) (file_a ∷ []) [] (record_a ∷ []) empty
      left_by_run.1 default_test refl
      ((
        (
          λ content h. no_end (split_statements content),
          λ content h. leaves (split_statements content),
        ),
        tt,
      ))
      (tt, tt) empty_test pending_test run_test idle_test refl read_test

abbrev table_host : Host
table_host = host_of store small_disk

abbrev fresh : Machine table_host
fresh = record { world = empty; mutexes = []; stdout = []; stderr = [] }

abbrev config : Config
config = record {
  database_url = codes ":memory:";
  migrations_dir = codes "m";
  table_name = codes "schemago_migrations";
  timeout = default_timeout;
}

name_test : validate_table_name config.table_name ≡ ok (codes "schemago_migrations")
unfolding validate_table_name
name_test = refl

config_test :
    new_with_opts table_host.getenv (codes ":memory:") (codes "m") [] default_timeout ≡ ok config
unfolding new_with_opts trim_space
config_test = refl

abbrev first : Ended table_host (Result ℕ ℕ)
first = handle_apply table_host (codes ":memory:") (codes "m") [] false false fresh

first_test : went_code first ≡ some 0
unfolding handle_apply eq_bytes trim_space is_non_postgres_error
first_test = refl

-- The second command is another process, on the database that the first has left.
abbrev again : Machine table_host
again = record {
  world = record empty { committed = (machine_or fresh first).world.committed };
  mutexes = [];
  stdout = [];
  stderr = [];
}

abbrev second : Ended table_host (Result ℕ ℕ)
second = handle_apply table_host (codes ":memory:") (codes "m") [] true true again

second_test : went_code second ≡ some 0
unfolding handle_apply eq_bytes trim_space is_non_postgres_error
second_test = refl

handle_apply-repeated_example :
    (w : Store) × (w.committed ≡ (machine_or fresh first).world.committed)
    × ((machine_or again second).world.committed
        ≡ (ensure_table store config.table_name w).1.committed)
    × ((machine_or again second).world.committed ≡ (machine_or fresh first).world.committed)
unfolding handle_apply
handle_apply-repeated_example =
    handle_apply-repeated table_host store_transactions history_table (keeps small_disk)
      (codes ":memory:") (codes "m") [] config (codes "schemago_migrations") config_test name_test
      (host_of-Quiet store small_disk
        (view table_host store_transactions history_table (keeps small_disk)))
      false false true true fresh again (λ path content h. no_end (split_statements content))
      (λ path content h. leaves (split_statements content)) refl
      (went_through fresh first first_test) refl refl (went_through again second second_test)

-- What `status` says on the same database.
abbrev reported : Ended table_host (Result ℕ ℕ)
reported = handle_status table_host (codes ":memory:") (codes "m") [] false again

reported_test : went_code reported ≡ some 0
unfolding handle_status handle_apply eq_bytes trim_space exit_code is_non_postgres_error
reported_test = refl

handle_apply-handle_status_example :
    (let code : ℕ = 0 in code ≡ 0)
    × NothingPrinted table_host
        (λ t. refl)
        again
        (handle_plan table_host (codes ":memory:") (codes "m") [] true false again)
handle_apply-handle_status_example =
    handle_apply-handle_status table_host store_transactions history_table (keeps small_disk)
      (λ t. refl) (codes ":memory:") (codes "m") [] config (codes "schemago_migrations") config_test
      name_test
      (host_of-Quiet store small_disk
        (view table_host store_transactions history_table (keeps small_disk)))
      false false false true fresh again (λ path content h. no_end (split_statements content))
      (λ path content h. leaves (split_statements content)) refl
      (went_through fresh first first_test) refl refl (went_through again reported reported_test)
      refl

-- A file that has gone from the disk since it was found.
abbrev file_c : MigrationFile
file_c = record file_a {
  version = pos 3;
  raw_version = codes "3";
  description = codes "c";
  filename = codes "3_c.sql";
  path = codes "m/3_c.sql";
}

abbrev stopped_run : Run × Store
stopped_run = apply store small_disk execer [] (some file_a ∷ some file_c ∷ []) empty

stopped_test :
    stopped_run.0.error ≡ some (migration_failed (read_failed (codes "m/3_c.sql") not_exist))
unfolding apply eq_bytes trim_space
stopped_test = refl

stopped_read_test : get_applied_migrations store [] stopped_run.1 ≡ ok (record_a ∷ [])
unfolding apply eq_bytes trim_space get_applied_migrations
stopped_read_test = refl

both_pending_test : compute_pending small_disk (file_a ∷ file_c ∷ []) [] ≡ ok (file_a ∷ file_c ∷ [])
unfolding compute_pending
both_pending_test = refl

stopped_idle_test : stopped_run.1.in_tx ≡ false
unfolding apply eq_bytes trim_space
stopped_idle_test = refl

is_proper :
    (file : MigrationFile)
    → IsProper store store_transactions small_disk history_table (codes "schemago_migrations") file
is_proper file =
    (λ content h. no_end (split_statements content), λ content h. leaves (split_statements content))

apply_resumes_example :
    (left : List MigrationFile) × (applied_files stopped_run.0 ++ left ≡ file_a ∷ file_c ∷ [])
    × (compute_pending small_disk (file_a ∷ file_c ∷ []) (record_a ∷ []) ≡ ok left)
apply_resumes_example =
    apply_resumes store store_transactions small_disk history_table (keeps small_disk) execer []
      (codes "schemago_migrations") (file_a ∷ file_c ∷ []) (file_a ∷ file_c ∷ []) [] (record_a ∷ [])
      empty stopped_run.1 default_test refl (is_proper file_a, (is_proper file_c, tt))
      ((refl, tt), (tt, tt)) empty_test both_pending_test stopped_idle_test refl stopped_read_test
