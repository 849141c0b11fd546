-- ===== src/Tests/Machines.antt =====
-- Whole runs of the program on the small database, which is no PostgreSQL: its lock falls back.
use schemago.Base.{
  ◌≡◌, refl, ℕ, ◌+◌, ◌-◌, true, false, Option, none, some, List, [], ◌∷◌, ◌++◌, ok, err, Bool-cases,
  inl, inr, subst, arith,
}
use schemago.Base.Int.{pos}
use schemago.Text.{Bytes, codes, eq_bytes}
use schemago.Text.Trim.{trim_space}
use schemago.Migration.Statement.{split_statements}
use schemago.Files.{Files}
use schemago.Database.{Runtime}
use schemago.Db.{GoError, new_error, Connector, connect_and_ping, reason}
use schemago.Db.Handles.{Handles, Leaves, connect_and_ping-Leaves}
use schemago.Lock.Single.{IsFree}
use schemago.Lock.{is_held, is_non_postgres_error}
use schemago.Output.{Writer}
use schemago.Cli.Flags.{parse_flags}
use schemago.Cli.Dispatch.Secondary.{has_command}
use schemago.Cli.Host.{Host, Machine, Ended, ended}
use schemago.Cli.Steps.Returns.{Returns}
use schemago.Cli.Steps.Quiet.{Quiet}
use schemago.Cli.Handlers.{handle_dry_run}
use schemago.Cli.Handlers.Finish.{IsExit}
use schemago.Cli.Handlers.ReadOnly.{AreContained, handle_dry_run-committed}
use schemago.Cli.Run.{run}
use schemago.Cli.Run.Exits.{ExitsAs, run-ExitsAs}
use schemago.Tests.World.{sim, sim_transactions, disk, start}
use schemago.Tests.Runs.{sim_keeps, HasNone}

-- A writer that takes everything.
abbrev pub log : Writer
log = record { State = Bytes; write_to = λ text w. (none, w ++ text) }

-- A connection on which everything goes well, and a server that has no advisory locks.
module _ (runtime : Runtime) (files : Files) where
  abbrev pub host_of : Host
  host_of = record {
    rt = runtime;
    fs = files;
    out = log;
    error_out = log;
    connector = record {
      open_driver = λ driver dsn w. (ok tt, w);
      ping_context = λ t w. (none, w);
      close = λ w. w;
    };
    conn = λ w. (none, w);
    release = λ w. w;
    lock_query = λ id w. (err (codes "no such function"), w);
    unlock_query = λ id w. (ok true, w);
    getenv = λ name. [];
    format_duration = λ d. codes "5s";
    format_utc = λ t. codes "2026-01-01 00:00:00 UTC";
    align = λ text. text ∷ [];
    quote = λ s. b'"' ∷ (s ++ b'"' ∷ []);
    encode = λ doc. ok (codes "{}");
    error_text = λ e. codes "error";
  }

  pub host_of-Quiet : {O : Type 0} (observe : runtime.World → O) → Quiet host_of observe
  host_of-Quiet observe = record {
    opens = λ driver dsn w. refl;
    pings = λ t w. refl;
    closes = λ w. refl;
    conns = λ w. refl;
    releases = λ w. refl;
    locks = λ id w. refl;
    unlocks = λ id w. refl;
  }

abbrev pub host : Host
host = host_of sim disk

abbrev pub machine : Machine host
machine = record { world = start; mutexes = []; stdout = []; stderr = [] }

machine-IsFree : IsFree machine.mutexes
unfolding is_held
machine-IsFree id = refl

-- schemago apply --dir m --database-url :memory:
abbrev args : List Bytes
args = codes "apply" ∷ codes "--dir" ∷ codes "m" ∷ codes "--database-url" ∷ codes ":memory:" ∷ []

abbrev exit_code_of : Ended host ℕ → Option ℕ
exit_code_of (ended code m) = some code
exit_code_of _ = none

abbrev stdout_of : Ended host ℕ → Bytes
stdout_of (ended code m) = m.stdout
stdout_of _ = []

-- The second migration fails.
apply_test : exit_code_of (run host args machine) ≡ some 1
unfolding run eq_bytes trim_space is_non_postgres_error
apply_test = refl

plan_test :
    stdout_of (
      run host
        (codes "--dir=m" ∷ codes "plan" ∷ codes "--database-url" ∷ codes ":memory:" ∷ [])
        machine)
    ≡ codes "Found 2 pending migrations to apply:\n\n1. 1_a.sql\n2. 2_b.sql\n"
unfolding run eq_bytes trim_space
plan_test = refl

run-ExitsAs_example : ExitsAs (has_command (parse_flags args).1 ≡ false) (run host args machine)
run-ExitsAs_example = run-ExitsAs host args machine machine-IsFree

pub disk-AreContained : AreContained host sim_transactions sim_keeps
unfolding split_statements trim_space eq_bytes
disk-AreContained path content h = elim (Bool-cases (eq_bytes path (codes "m/1_a.sql"))) [
  | inl a ↦
      let same : codes "CREATE TABLE a (id INT);\nINSERT INTO a VALUES (1);\n" ≡ content =
        cc (rw a at h) in
      subst HasNone same (refl, (refl, tt))
  | inr na ↦ elim (Bool-cases (eq_bytes path (codes "m/2_b.sql"))) [
    | inl b ↦
        let same : codes "DROP TABLE a;\nBAD;\n" ≡ content = cc (rw b at (rw na at h)) in
        subst HasNone same (refl, (refl, tt))
    | inr nb ↦ absurd (cc (rw nb at (rw na at h)))
  ]
]

handle_dry_run-committed_example :
    Returns
      (λ w ms. (w.committed ≡ codes "OLD" ∷ []) × IsFree ms)
      IsExit
      (handle_dry_run host (codes ":memory:") (codes "m") [] false false machine)
handle_dry_run-committed_example =
    handle_dry_run-committed host sim_transactions sim_keeps (codes ":memory:") (codes "m") [] false
      false machine (host_of-Quiet sim disk sim_transactions.committed) disk-AreContained
      machine-IsFree

-- A driver whose health check fails, on the number of its open handles.
abbrev deaf : Connector ℕ
deaf = record {
  open_driver = λ driver dsn n. (ok tt, n + 1);
  ping_context = λ t n. (some (new_error (codes "dial tcp: connection refused")), n);
  close = λ n. n - 1;
}

deaf_opens :
    (driver dsn : Bytes) (n : ℕ) (e : GoError)
    → (deaf.open_driver driver dsn n).0 ≡ err e
    → (deaf.open_driver driver dsn n).1 ≡ n
deaf_opens driver dsn n e h = absurd (cc h)

abbrev deaf_handles : Handles deaf
deaf_handles = record {
  count = λ n. n;
  open_ok = λ driver dsn n h. refl;
  open_err = deaf_opens;
  ping_count = λ t n. refl;
  close_count = λ m n h. omega (arith, h);
}

connect_and_ping-Leaves_example :
    let (r, n) = connect_and_ping (λ d. codes "5s") deaf (codes "postgres://h/db") (pos 0) 3 in
    Leaves (λ d. codes "5s") deaf deaf_handles 3 r n
connect_and_ping-Leaves_example =
    connect_and_ping-Leaves (λ d. codes "5s") deaf deaf_handles (codes "postgres://h/db") (pos 0) 3

-- The word "lookup" anywhere in the text of an error decides for a failure of the name resolution.
lookup_test :
    reason (codes "FATAL: database \"lookup\" does not exist")
    ≡ codes "database unreachable: host name resolution failed: "
unfolding reason
lookup_test = refl
