-- ===== src/Tests/Servers.antt =====
-- A server that grants every lock, counts how often it is held, and answers whether it was when it is released.
use schemago.Base.{
  ℕ, ◌+◌, ◌-◌, refl, ap, ltb, arith, none, some, [], ◌∷◌, ◌≡◌, All-any, ok, if◌then◌else◌, false,
}
use schemago.Base.Int.{ℤ, eq_ℤ}
use schemago.Text.{codes}
use schemago.Migration.Statement.{Statement, split_statements}
use schemago.Lock.{is_held}
use schemago.Lock.Single.{IsFree}
use schemago.Database.{Runtime}
use schemago.Config.{Config, default_timeout}
use schemago.Apply.Kept.{RunsKeep}
use schemago.Cli.Host.{Host, Machine}
use schemago.Cli.Steps.{pure, with_lock}
use schemago.Cli.Steps.Returns.{Returns, Any}
use schemago.Cli.Steps.Keeps.{Connects, And}
use schemago.Cli.Steps.Held.{ServerLocks, AnswersRelease, Counts, HoldsNone, with_lock-Holds}
use schemago.Cli.Handlers.{handle_apply, handle_dry_run}
use schemago.Cli.Handlers.Released.{Unlocked, Releases, handle_apply-Releases}
use schemago.Text.{eq_bytes}
use schemago.History.Table.{validate_table_name}
use schemago.Apply.NonTransactional.{is_non_transactional}
use schemago.Apply.Step.{execer, apply}
use schemago.Apply.Atomic.{applied_files}
use schemago.Apply.Complete.{Covers}
use schemago.Apply.Healthy.{Well, IsHealthy, IsRunnable}
use schemago.Apply.Success.{apply-Succeeds}
use schemago.Tests.World.{disk, file_a}
use schemago.Tests.Machines.{host_of}
use schemago.Tests.Tables.{never_fails}

-- The locks of the session, each with its number.
abbrev Session : Type 0
Session = ℤ → ℕ

abbrev locks_only : Runtime
locks_only = record {
  World = Session;
  now = λ w. (1, w);
  begin_tx = λ w. (ok tt, w);
  exec = λ q args w. (ok tt, w);
  commit = λ w. (ok tt, w);
  rollback = λ w. (ok tt, w);
  query = λ q w. ok (record { rows = []; final_error = none });
  format_time = λ t. [];
  parse_time = λ layout s. none;
}

abbrev granting : Host
granting = record (host_of locks_only disk) {
  lock_query = λ id w. (ok tt, λ j. w j + (if eq_ℤ id j then 1 else 0));
  unlock_query = λ id w. (ok (ltb 0 (w id)), λ j. w j - (if eq_ℤ id j then 1 else 0));
}

abbrev server : ServerLocks granting
server = record {
  held = λ id w. w id;
  granted = λ id j w h. refl;
  refused = λ id j w e h. never_fails e h;
  given_back = λ id j w e. refl;
}

answers : AnswersRelease granting server
answers id w h = ap ok (ground (arith, h))

connects : Connects granting (HoldsNone granting server)
connects = record {
  opens = λ driver dsn w h. h;
  pings = λ t w h. h;
  closes = λ w h. h;
  conns = λ w h. h;
  releases = λ w h. h;
}

keeps_locks : (n : ℤ → ℕ) → RunsKeep locks_only disk (Counts granting server n)
keeps_locks n = record {
  nows = λ w h. h;
  begins = λ w h. h;
  commits = λ w h. h;
  rollbacks = λ w h. h;
  inserts = λ name table args w e h. h;
  creates = λ name table w e h. h;
  statements = λ path content e.
      All-any
        (λ (st : Statement).
          (w : Session) → Counts granting server n w → Counts granting server n w)
        (λ st w h. h) (split_statements content);
}

abbrev idle_machine : Machine granting
idle_machine = record { world = λ id. 0; mutexes = []; stdout = []; stderr = [] }

idle_machine-Unlocked : Unlocked granting server idle_machine
unfolding is_held
idle_machine-Unlocked = (λ j. refl, λ id. refl)

handle_apply-Releases_example :
    Releases granting server
      (handle_apply granting (codes ":memory:") (codes "m") [] false false)
      idle_machine
    × Releases granting server
        (handle_dry_run granting (codes ":memory:") (codes "m") [] false false)
        idle_machine
handle_apply-Releases_example =
    handle_apply-Releases granting server answers connects (codes ":memory:") (codes "m") [] false
      false idle_machine keeps_locks idle_machine-Unlocked

abbrev config : Config
config = record {
  database_url = codes ":memory:";
  migrations_dir = codes "m";
  table_name = [];
  timeout = default_timeout;
}

with_lock-Holds_example : Returns {A = ℕ} (And granting (HoldsNone granting server) IsFree) Any (
    with_lock granting
      (codes "apply")
      false
      config
      false
      (pure granting (codes "apply") false 0)
      idle_machine)
with_lock-Holds_example =
    with_lock-Holds granting server answers (codes "apply") false Any config
      (pure granting (codes "apply") false 0) idle_machine (λ l m same i. (tt, i))
      idle_machine-Unlocked

healthy : IsHealthy locks_only disk (λ w. Unit)
healthy = record {
  nows = λ w h. tt;
  begins = λ w h. tt;
  commits = λ w h. tt;
  inserts = λ name table args w e h. tt;
  statements = λ path content e.
      All-any
        (λ (st : Statement).
          (w : Session) → Unit → Well locks_only disk (λ w. Unit) (locks_only.exec st.sql [] w))
        (λ st w h. tt) (split_statements content);
}

abbrev no_locks : Session
no_locks id = 0

file_a-IsRunnable : IsRunnable locks_only disk (λ w. Unit) (some file_a)
unfolding eq_bytes is_non_transactional
file_a-IsRunnable = (codes "CREATE TABLE a (id INT);\nINSERT INTO a VALUES (1);\n", refl, refl)

default_accepted : validate_table_name [] ≡ ok (codes "schemago_migrations")
unfolding validate_table_name
default_accepted = refl

apply-Succeeds_example :
    let (run, w') = apply locks_only disk execer [] (none ∷ some file_a ∷ []) no_locks in
    (run.error ≡ none)
    × Unit {0}
    × Covers locks_only disk execer
        (codes "schemago_migrations")
        (none ∷ some file_a ∷ [])
        no_locks
        (applied_files run)
        w'
apply-Succeeds_example =
    apply-Succeeds locks_only disk (λ w. Unit) healthy execer [] (codes "schemago_migrations")
      (none ∷ some file_a ∷ []) no_locks (λ h. cc h) default_accepted (tt, (file_a-IsRunnable, tt))
      tt
