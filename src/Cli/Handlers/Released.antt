-- ===== src/Cli/Handlers/Released.antt =====
-- The locks of the server and of the process, across the commands that lock.
use schemago.Base.{ℕ, Bool, true, false}
use schemago.Base.Int.{ℤ}
use schemago.Text.{Bytes, codes}
use schemago.Config.{Config, default_timeout, new_with_opts}
use schemago.Lock.{AdvisoryLock}
use schemago.Lock.Single.{IsFree, Owns}
use schemago.Apply.Step.{execer}
use schemago.Apply.Kept.{RunsKeep, ensure_table-Kept, apply-Kept}
use schemago.DryRun.Kept.{dry_run-Kept}
use schemago.Cli.Host.{config_error, Host, Machine, Act, continue}
use schemago.Cli.Steps.{configure, with_database, with_conn, with_lock}
use schemago.Cli.Steps.Returns.{Returns, Any, bind-Returns, check-Returns}
use schemago.Cli.Steps.Keeps.{Connects, And, with_database-Returns, with_conn-Returns}
use schemago.Cli.Steps.Held.{ServerLocks, AnswersRelease, Counts, HoldsNone, Holds, with_lock-Holds}
use schemago.Cli.Handlers.{pointers, apply_body, dry_run_body, handle_apply, handle_dry_run}
use schemago.Cli.Handlers.Finish.{IsExit}
use schemago.Cli.Handlers.Bodies.{apply_body-Returns, dry_run_body-Returns}

module _ (host : Host) (server : ServerLocks host) where
  -- No lock is held by the server or by the process.
  abbrev pub Unlocked : Machine host → Type 0
  Unlocked m = And host (HoldsNone host server) IsFree m.world m.mutexes

  -- The command returns an exit code, and no lock is held by then.
  abbrev pub Releases : Act host ℕ → Machine host → Type 0
  Releases act m = Returns (And host (HoldsNone host server) IsFree) IsExit (act m)

  module _ (answers : AnswersRelease host server)
      (connects : Connects host (HoldsNone host server)) where
    -- A body that keeps the locks as they are, between the connection and its end, with the lock or without.
    locked-Releases :
        (cmd : Bytes) (json no_lock : Bool) (db_url dir table : Bytes) (body : Config → Act host ℕ)
        (m : Machine host)
        → ((cfg : Config) (m : Machine host) → Unlocked m → Releases (body cfg) m)
        → ((cfg : Config) (l : AdvisoryLock) (m : Machine host)
            → And host (Holds host server l) (Owns l) m.world m.mutexes
            → Returns (And host (Holds host server l) (Owns l)) IsExit (body cfg m))
        → Unlocked m
        → Releases
            (λ m. continue (configure host cmd json db_url dir table m) (λ cfg.
              with_database host cmd json cfg
                (with_conn host cmd json (with_lock host cmd json cfg no_lock (body cfg)))))
            m
    locked-Releases cmd json no_lock db_url dir table body m bare locked h =
        let K = HoldsNone host server in
        bind-Returns (And host K IsFree) Any IsExit (configure host cmd json db_url dir table m) _
          (check-Returns host cmd json (And host K IsFree) config_error
            (new_with_opts host.getenv db_url dir table default_timeout) m h)
          λ cfg m1 u i.
            with_database-Returns host K connects cmd json IsExit IsFree cfg
              (with_conn host cmd json (with_lock host cmd json cfg no_lock (body cfg))) m1
              (λ m2.
                with_conn-Returns host K connects cmd json IsExit IsFree
                  (with_lock host cmd json cfg no_lock (body cfg)) m2 (λ m3. either cfg no_lock m3))
              i
      where
        either :
            (cfg : Config) (no_lock : Bool) (m : Machine host)
            → Unlocked m
            → Releases (with_lock host cmd json cfg no_lock (body cfg)) m
        either cfg true m h = bare cfg m h
        either cfg false m h =
            with_lock-Holds host server answers cmd json IsExit cfg (body cfg) m
              (λ l m' same i. locked cfg l m' i) h

    -- If neither the server nor the process holds a lock when `apply` or `dry-run` starts, then the command comes to an
    -- end with the exit code of success or of failure, and neither of them holds a lock then, whatever its flags and
    -- whatever else fails on the way. This takes the laws of the server's locks, that the server answers the query that
    -- releases a lock the session holds, by releasing it, and that connecting and closing, the
    -- statements on the history table and those of the files on the disk neither take a lock nor give one back.
    pub handle_apply-Releases :
        (db_url dir table : Bytes) (no_lock json : Bool) (m : Machine host)
        → ((n : ℤ → ℕ) → RunsKeep host.rt host.fs (Counts host server n))
        → Unlocked m
        → Releases (handle_apply host db_url dir table no_lock json) m
          × Releases (handle_dry_run host db_url dir table no_lock json) m
    unfolding handle_apply handle_dry_run
    handle_apply-Releases db_url dir table no_lock json m keeps h =
        let rt = host.rt in
        let fs = host.fs in
        (
          locked-Releases (codes "apply") json no_lock db_url dir table (apply_body host json) m
              (λ cfg m1.
                let K = HoldsNone host server in
                apply_body-Returns host K IsFree json cfg m1 (ensure_table-Kept rt fs K (keeps _))
                  (λ name pending. apply-Kept rt fs K (keeps _) execer name (pointers pending)))
              (λ cfg l m1.
                let K = Holds host server l in
                apply_body-Returns host K (Owns l) json cfg m1 (ensure_table-Kept rt fs K (keeps _))
                  (λ name pending. apply-Kept rt fs K (keeps _) execer name (pointers pending)))
              h,
          locked-Releases (codes "dry-run") json no_lock db_url dir table (dry_run_body host json) m
              (λ cfg m1.
                let K = HoldsNone host server in
                dry_run_body-Returns host K IsFree json cfg m1
                  (λ name pending. dry_run-Kept rt fs K (keeps _) execer name (pointers pending)))
              (λ cfg l m1.
                let K = Holds host server l in
                dry_run_body-Returns host K (Owns l) json cfg m1
                  (λ name pending. dry_run-Kept rt fs K (keeps _) execer name (pointers pending)))
              h,
        )
