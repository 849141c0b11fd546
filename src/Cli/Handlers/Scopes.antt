-- ===== src/Cli/Handlers/Scopes.antt =====
-- What the handlers set up around their bodies, and what they defer, return if the bodies do.
use schemago.Base.{ℕ, Bool}
use schemago.Text.{Bytes}
use schemago.Config.{Config, default_timeout, new_with_opts}
use schemago.Lock.{Mutexes}
use schemago.Lock.Single.{IsFree}
use schemago.Cli.Host.{config_error, Host, Machine, Act, continue}
use schemago.Cli.Steps.{configure, with_database, with_conn, with_lock}
use schemago.Cli.Steps.Returns.{Returns, Any, bind-Returns, check-Returns}
use schemago.Cli.Steps.Keeps.{
  Keeps, And, with_database-Returns, with_conn-Returns, with_lock-Returns,
}
use schemago.Cli.Handlers.Finish.{IsExit}

module _ (host : Host) (K : host.rt.World → Type 0) (keeps : Keeps host K) where
  pub configured-Returns :
      (cmd : Bytes) (json : Bool) (db_url dir table : Bytes) (rest : Config → Act host ℕ)
      (m : Machine host)
      → ((cfg : Config) (m : Machine host)
          → And host K IsFree m.world m.mutexes
          → Returns (And host K IsFree) IsExit (rest cfg m))
      → And host K IsFree m.world m.mutexes
      → Returns
          (And host K IsFree)
          IsExit
          (continue (configure host cmd json db_url dir table m) rest)
  configured-Returns cmd json db_url dir table rest m k h =
      bind-Returns (And host K IsFree) Any IsExit (configure host cmd json db_url dir table m) rest
        (check-Returns host cmd json (And host K IsFree) config_error
          (new_with_opts host.getenv db_url dir table default_timeout) m h)
        λ cfg m' u i. k cfg m' i

  -- A body between the connection and its end.
  pub connected-Returns :
      (cmd : Bytes) (json : Bool) (db_url dir table : Bytes) (body : Config → Act host ℕ)
      (m : Machine host)
      → ((cfg : Config) (m : Machine host)
          → And host K IsFree m.world m.mutexes
          → Returns (And host K IsFree) IsExit (body cfg m))
      → And host K IsFree m.world m.mutexes
      → Returns (And host K IsFree) IsExit (
          continue
            (configure host cmd json db_url dir table m)
            (λ cfg. with_database host cmd json cfg (body cfg)))
  connected-Returns cmd json db_url dir table body m k h =
      configured-Returns cmd json db_url dir table
        (λ cfg. with_database host cmd json cfg (body cfg)) m
        (λ cfg m1 i.
          with_database-Returns host K keeps.connects cmd json IsExit IsFree cfg (body cfg) m1
            (k cfg) i)
        h

  -- The same with the lock.
  pub locked-Returns :
      (cmd : Bytes) (json no_lock : Bool) (db_url dir table : Bytes) (body : Config → Act host ℕ)
      (m : Machine host)
      → ((cfg : Config) (M : Mutexes → Type 0) (m : Machine host)
          → And host K M m.world m.mutexes
          → Returns (And host K M) IsExit (body cfg m))
      → And host K IsFree m.world m.mutexes
      → Returns (And host K IsFree) IsExit (
          continue (configure host cmd json db_url dir table m) (λ cfg.
            with_database host cmd json cfg
              (with_conn host cmd json (with_lock host cmd json cfg no_lock (body cfg)))))
  locked-Returns cmd json no_lock db_url dir table body m k h =
      connected-Returns cmd json db_url dir table
        (λ cfg. with_conn host cmd json (with_lock host cmd json cfg no_lock (body cfg))) m
        (λ cfg m1 i.
          with_conn-Returns host K keeps.connects cmd json IsExit IsFree
            (with_lock host cmd json cfg no_lock (body cfg)) m1
            (λ m2. with_lock-Returns host K keeps cmd json IsExit cfg no_lock (body cfg) m2 (k cfg))
            i)
        h
