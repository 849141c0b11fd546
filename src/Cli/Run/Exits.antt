-- ===== src/Cli/Run/Exits.antt =====
-- How the program ends, against the exit codes of its documentation.
use schemago.Base.{ℕ, ◌<◌, ◌≡◌, ◌↔◌, refl, true, false, some, List, Result, ok, err, arith}
use schemago.Text.{Bytes}
use schemago.Lock.Single.{IsFree}
use schemago.Cli.Flags.{parse_flags}
use schemago.Cli.Dispatch.{
  Invocation, show_version, show_help, no_subcommand, unknown_command, own_exit_code,
  run_with_writers,
}
use schemago.Cli.Dispatch.Secondary.{has_command, own_exit_code-run_with_writers}
use schemago.Cli.Host.{write_error, Host, Machine, Ended, ended, blocks, crashes}
use schemago.Cli.Steps.Returns.{Returns}
use schemago.Cli.Steps.Keeps.{Keeps, And}
use schemago.Cli.Handlers.Finish.{IsExit}
use schemago.Cli.Handlers.Exits.{
  handle_status-Returns, handle_plan-Returns, handle_apply-Returns, handle_dry_run-Returns,
}
use schemago.Cli.Run.{exit_of, perform, run}

-- The program returns an exit code below 3, which is ExitUsage exactly where `IsUsage` holds, and no
-- mutex is locked.
abbrev pub ExitsAs : {host : Host} → Type 0 → Ended host ℕ → Type 0
ExitsAs IsUsage (ended code m) = (code < 3) × ((code ≡ 2) ↔ IsUsage) × IsFree m.mutexes
ExitsAs IsUsage blocks = ⊥
ExitsAs IsUsage crashes = ⊥

-- Nothing is asked of the world.
abbrev Anything : (host : Host) → host.rt.World → Type 0
Anything host w = Unit

Anything-Keeps : (host : Host) → Keeps host (Anything host)
Anything-Keeps host = record {
  connects = record {
    opens = λ driver dsn w h. tt;
    pings = λ t w h. tt;
    closes = λ w h. tt;
    conns = λ w h. tt;
    releases = λ w h. tt;
  };
  locks = λ id w h. tt;
  unlocks = λ id w h. tt;
}

module _ (host : Host) where
  -- A handler returns no ExitUsage.
  exit_of-ExitsAs :
      (e : Ended host (Result ℕ ℕ)) {IsUsage : Type 0}
      → (IsUsage → ⊥)
      → Returns (And host (Anything host) IsFree) IsExit e
      → ExitsAs IsUsage (exit_of host e)
  exit_of-ExitsAs (ended (ok code) m) never (good, (u, free)) =
      (omega (arith, good), (λ e. absurd (omega (arith, good, e)), λ v. absurd (never v)), free)
  exit_of-ExitsAs (ended (err code) m) never (failed, (u, free)) =
      (omega (arith, failed), (λ e. absurd (omega (arith, failed, e)), λ v. absurd (never v)), free)
  exit_of-ExitsAs blocks never h = absurd h
  exit_of-ExitsAs crashes never h = absurd h

  perform-ExitsAs :
      (call : Invocation) (m : Machine host)
      → IsFree m.mutexes
      → ExitsAs (own_exit_code call ≡ some 2) (perform host call m)
  unfolding perform write_error
  perform-ExitsAs (Invocation.handle_status db_url dir table json) m free =
      exit_of-ExitsAs _ (λ u. cc u)
        (handle_status-Returns host (Anything host) (Anything-Keeps host) db_url dir table json m
          (λ name w h. tt) (tt, free))
  perform-ExitsAs (Invocation.handle_plan db_url dir table show_sql json) m free =
      exit_of-ExitsAs _ (λ u. cc u)
        (handle_plan-Returns host (Anything host) (Anything-Keeps host) db_url dir table show_sql
          json m (λ name w h. tt) (tt, free))
  perform-ExitsAs (Invocation.handle_apply db_url dir table no_lock json) m free =
      exit_of-ExitsAs _ (λ u. cc u)
        (handle_apply-Returns host (Anything host) (Anything-Keeps host) db_url dir table no_lock
          json m (λ name w h. tt) (λ name pending w h. tt) (tt, free))
  perform-ExitsAs (Invocation.handle_dry_run db_url dir table no_lock json) m free =
      exit_of-ExitsAs _ (λ u. cc u)
        (handle_dry_run-Returns host (Anything host) (Anything-Keeps host) db_url dir table no_lock
          json m (λ name pending w h. tt) (tt, free))
  perform-ExitsAs (show_version true) m free = (omega arith, (λ e. cc e, λ e. cc e), free)
  perform-ExitsAs (show_version false) m free = (omega arith, (λ e. cc e, λ e. cc e), free)
  perform-ExitsAs (show_help true) m free = (omega arith, (λ e. cc e, λ e. cc e), free)
  perform-ExitsAs (show_help false) m free = (omega arith, (λ e. cc e, λ e. cc e), free)
  perform-ExitsAs (no_subcommand true) m free = (omega arith, (λ e. refl, λ e. refl), free)
  perform-ExitsAs (no_subcommand false) m free = (omega arith, (λ e. refl, λ e. refl), free)
  perform-ExitsAs (unknown_command cmd true) m free = (omega arith, (λ e. refl, λ e. refl), free)
  perform-ExitsAs (unknown_command cmd false) m free = (omega arith, (λ e. refl, λ e. refl), free)

  ExitsAs-iff : {P Q : Type 0} (e : Ended host ℕ) → (P ↔ Q) → ExitsAs P e → ExitsAs Q e
  ExitsAs-iff (ended code m) (f, g) (small, (to, from), free) =
      (small, (λ e. f (to e), λ q. from (g q)), free)
  ExitsAs-iff blocks same h = h
  ExitsAs-iff crashes same h = h

  -- On any command line and whatever the database, the disk and the writers do, the program comes to
  -- an end if no mutex is locked when it starts: its call of the lock never waits for a mutex, and it never unlocks a mutex that
  -- is not locked. It leaves no mutex locked. Its exit code is at most 2, and is ExitUsage exactly if no word is left
  -- beside the flags, or the first one is none of the names of commands. So an unknown flag behind a command is not
  -- taken for wrong usage.
  pub run-ExitsAs :
      (args : List Bytes) (m : Machine host)
      → IsFree m.mutexes
      → ExitsAs (has_command (parse_flags args).1 ≡ false) (run host args m)
  unfolding run
  run-ExitsAs args m free =
      ExitsAs-iff (perform host (run_with_writers args) m) (own_exit_code-run_with_writers args)
        (perform-ExitsAs (run_with_writers args) m free)
