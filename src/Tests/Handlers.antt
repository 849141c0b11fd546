-- ===== src/Tests/Handlers.antt =====
-- The handlers of `status`, `plan` and `apply` on the small database, where they exit with 0.
use schemago.Base.{
  ◌≡◌, refl, ℕ, true, false, Option, none, some, [], ◌∷◌, Result, ok, err, if◌then◌else◌,
}
use schemago.Text.{codes, eq_bytes}
use schemago.Text.Trim.{trim_space}
use schemago.Files.{Files, not_exist}
use schemago.Lock.{is_non_postgres_error}
use schemago.Cli.Host.{Host, Machine, Ended, ended, blocks, crashes}
use schemago.Cli.Handlers.{handle_status, handle_plan, handle_apply}
use schemago.Cli.Handlers.Applied.{Applied, handle_apply-Applied}
use schemago.Config.{Config, default_timeout, new_with_opts}
use schemago.Cli.Handlers.Agreement.{NothingPrinted, handle_status-handle_plan}
use schemago.Status.{exit_code}
use schemago.Tests.World.{sim, sim_transactions, disk, entry, start}
use schemago.Tests.Runs.{sim_keeps_on}
use schemago.Tests.Machines.{host_of, host_of-Quiet, host, machine, disk-AreContained}

abbrev pub went_code : {h : Host} → Ended h (Result ℕ ℕ) → Option ℕ
went_code (ended (ok code) m) = some code
went_code _ = none

abbrev pub machine_or : {h : Host} → Machine h → Ended h (Result ℕ ℕ) → Machine h
machine_or d (ended r m) = m
machine_or d _ = d

pub went_through :
    {h : Host} (d : Machine h) (e : Ended h (Result ℕ ℕ))
    → went_code e ≡ some 0
    → e ≡ ended (ok 0) (machine_or d e)
went_through d (ended (ok code) m) e = cc e
went_through d (ended (err code) m) e = absurd (cc e)
went_through d blocks e = absurd (cc e)
went_through d crashes e = absurd (cc e)

-- With no directory of migrations and an empty history, all is well.
abbrev reported : Ended host (Result ℕ ℕ)
reported = handle_status host (codes ":memory:") (codes "none") [] true machine

status_test : went_code reported ≡ some 0
unfolding handle_status eq_bytes trim_space exit_code
status_test = refl

handle_status-handle_plan_example :
    NothingPrinted host
      (λ t. refl)
      machine
      (handle_plan host (codes ":memory:") (codes "none") [] true false machine)
handle_status-handle_plan_example =
    handle_status-handle_plan host (λ t. refl) (codes ":memory:") (codes "none") [] true true
      machine refl (went_through machine reported status_test)

-- The same disk, on which the directory has the first file only.
abbrev pub small_disk : Files
small_disk = record disk {
  read_dir =
      λ path. if eq_bytes path (codes "m") then ok (entry "1_a.sql" false ∷ []) else err not_exist;
}

abbrev small_host : Host
small_host = host_of sim small_disk

abbrev small_machine : Machine small_host
small_machine = record { world = start; mutexes = []; stdout = []; stderr = [] }

abbrev applied : Ended small_host (Result ℕ ℕ)
applied = handle_apply small_host (codes ":memory:") (codes "m") [] false false small_machine

applied_test : went_code applied ≡ some 0
unfolding handle_apply eq_bytes trim_space is_non_postgres_error
applied_test = refl

handle_apply-Applied_example :
    (cfg : Config) × (new_with_opts small_host.getenv
        (codes ":memory:")
        (codes "m")
        []
        default_timeout
      ≡ ok cfg)
    × Applied small_host sim_transactions
        (sim_keeps_on small_disk)
        cfg
        (codes "OLD" ∷ [])
        (machine_or small_machine applied).world.committed
handle_apply-Applied_example =
    handle_apply-Applied small_host sim_transactions (sim_keeps_on small_disk) (codes ":memory:")
      (codes "m") [] false false small_machine
      (host_of-Quiet sim small_disk sim_transactions.committed) disk-AreContained
      (went_through small_machine applied applied_test)
