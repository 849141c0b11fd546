-- ===== src/Cli/Steps/Keeps.antt =====
-- A property of the world that the calls on the connection keep, and what the handlers defer.
use schemago.Base.{
  ◌≡◌, refl, subst, sym, Bool, true, false, not, ◌&&◌, Result, Bool-cases, Result-cases,
  Option-cases, inl, inr, if◌then◌else◌,
}
use schemago.Base.Int.{ℤ}
use schemago.Text.{Bytes, is_empty}
use schemago.Text.Trim.{trim_space}
use schemago.Db.{connect, ping, or_default, connect_and_ping}
use schemago.Config.{Config}
use schemago.Lock.{AdvisoryLock, Mutexes}
use schemago.Lock.Key.{generate_lock_id}
use schemago.Lock.Single.{IsFree, Owns, lock-Owns, unlock-Owns}
use schemago.Cli.Host.{
  CliError, connection_error, lock_error, Host, Machine, Act, continue, deferring,
}
use schemago.Cli.Steps.{
  option_result, call, closing, with_database, with_conn, acquire, release_lock, with_lock,
}
use schemago.Cli.Steps.Returns.{
  Keeping, Returns, Any, Cleans, clean_up-Returns, bind-Returns, stop-Returns, call-Returns,
}

-- Connecting and closing keep the property.
pub record Connects (host : Host) (K : host.rt.World → Type 0) : Type 0 where
  pub opens :
      (driver dsn : Bytes) (w : host.rt.World) → K w → K (host.connector.open_driver driver dsn w).1
  pub pings : (t : ℤ) (w : host.rt.World) → K w → K (host.connector.ping_context t w).1
  pub closes : (w : host.rt.World) → K w → K (host.connector.close w)
  pub conns : (w : host.rt.World) → K w → K (host.conn w).1
  pub releases : (w : host.rt.World) → K w → K (host.release w)

-- The lock's queries keep it too.
pub record Keeps (host : Host) (K : host.rt.World → Type 0) : Type 0 where
  pub connects : Connects host K
  pub locks : (id : ℤ) (w : host.rt.World) → K w → K (host.lock_query id w).1
  pub unlocks : (id : ℤ) (w : host.rt.World) → K w → K (host.unlock_query id w).1

-- The property of the world, and one of the mutexes.
abbrev pub And : (host : Host) → (host.rt.World → Type 0) → (Mutexes → Type 0) → Keeping host
And host K M w ms = K w × M ms

module _ (host : Host) (K : host.rt.World → Type 0) (keeps : Connects host K) where
  connect-Kept :
      (s : Bytes) (w : host.rt.World) → K w → K (connect host.format_duration host.connector s w).1
  unfolding connect
  connect-Kept s w h = elim (Bool-cases (is_empty (trim_space s))) [
    | inl e ↦ rw (e, connect) h
    | inr e ↦ rw (e, connect) (keeps.opens _ _ w h)
  ]

  pub connect_and_ping-Kept :
      (s : Bytes) (t : ℤ) (w : host.rt.World)
      → K w
      → K (connect_and_ping host.format_duration host.connector s t w).1
  unfolding connect_and_ping
  connect_and_ping-Kept s t w h =
      elim (Result-cases (connect host.format_duration host.connector s w).0) [
        | inr (x, e) ↦ rw (e, connect_and_ping) (connect-Kept s w h)
        | inl (a, e) ↦
            let w' = (connect host.format_duration host.connector s w).1 in
            elim (Option-cases
              (ping host.format_duration host.connector true (or_default t) w').0) [
                | inl n ↦
                    rw (e, connect_and_ping)
                      (rw n (keeps.pings (or_default t) w' (connect-Kept s w h)))
                | inr (x, n) ↦
                    rw (e, connect_and_ping)
                      (rw n (keeps.closes _ (keeps.pings (or_default t) w' (connect-Kept s w h))))
              ]
      ]

  module _ {A : Type 0} (cmd : Bytes) (json : Bool) (Good : A → Type 0) where
    -- A call, a body, and what closes what the call has opened.
    scoped-Returns :
        {E : Type 0} (M : Mutexes → Type 0) (wrapped : E → CliError)
        (f : host.rt.World → Result E (Unit {0}) × host.rt.World)
        (g : host.rt.World → host.rt.World) (body : Act host A) (m : Machine host)
        → ((w : host.rt.World) → K w → K (f w).1)
        → ((w : host.rt.World) → K w → K (g w))
        → ((m : Machine host)
            → And host K M m.world m.mutexes
            → Returns (And host K M) Good (body m))
        → And host K M m.world m.mutexes
        → Returns (And host K M) Good (
            continue
              (call host cmd json wrapped f m)
              (λ _. deferring (closing host cmd json g) body))
    scoped-Returns M wrapped f g body m kf kg k h =
        bind-Returns (And host K M) Any Good (call host cmd json wrapped f m)
          (λ _. deferring (closing host cmd json g) body)
          (call-Returns host cmd json (And host K M) wrapped f m (kf m.world h.0, h.1))
          λ a m' u i.
            clean_up-Returns (And host K M) (And host K M) Good (closing host cmd json g) (body m')
              (k m' i) λ v j. (kg v.world j.0, j.1)

    pub with_database-Returns :
        (M : Mutexes → Type 0) (cfg : Config) (body : Act host A) (m : Machine host)
        → ((m : Machine host)
            → And host K M m.world m.mutexes
            → Returns (And host K M) Good (body m))
        → And host K M m.world m.mutexes
        → Returns (And host K M) Good (with_database host cmd json cfg body m)
    with_database-Returns M cfg body m k h =
        scoped-Returns M connection_error
          (connect_and_ping host.format_duration host.connector cfg.database_url cfg.timeout)
          host.connector.close body m (connect_and_ping-Kept cfg.database_url cfg.timeout)
          keeps.closes k h

    pub with_conn-Returns :
        (M : Mutexes → Type 0) (body : Act host A) (m : Machine host)
        → ((m : Machine host)
            → And host K M m.world m.mutexes
            → Returns (And host K M) Good (body m))
        → And host K M m.world m.mutexes
        → Returns (And host K M) Good (with_conn host cmd json body m)
    with_conn-Returns M body m k h =
        scoped-Returns M connection_error
          (λ w. let (r, w') = host.conn w in (option_result host cmd json r, w')) host.release body
          m keeps.conns keeps.releases k h

module _ (host : Host) (K : host.rt.World → Type 0) (keeps : Keeps host K) (cmd : Bytes)
    (json : Bool) where
  if_kept : (b : Bool) (v w : host.rt.World) → K v → K w → K (if b then v else w)
  if_kept true v w h i = h
  if_kept false v w h i = i

  release_lock-Cleans :
      (l : AdvisoryLock) (m : Machine host)
      → K m.world
      → Owns l m.mutexes
      → Cleans (And host K IsFree) (release_lock host cmd json l m)
  unfolding release_lock
  release_lock-Cleans l m h o =
      let (answer, asked) = host.unlock_query l.lock_id m.world in
      let (r, l', ms, e, free) = unlock-Owns answer l m.mutexes o in
      rw (e, release_lock)
        (
          if_kept (l.locked && not l.is_fallback) asked m.world (keeps.unlocks l.lock_id m.world h)
              h,
          free,
        )

  pub with_lock-Returns :
      {A : Type 0} (Good : A → Type 0) (cfg : Config) (no_lock : Bool) (body : Act host A)
      (m : Machine host)
      → ((M : Mutexes → Type 0) (m : Machine host)
          → And host K M m.world m.mutexes
          → Returns (And host K M) Good (body m))
      → And host K IsFree m.world m.mutexes
      → Returns (And host K IsFree) Good (with_lock host cmd json cfg no_lock body m)
  unfolding acquire
  with_lock-Returns Good cfg true body m k h = k IsFree m h
  with_lock-Returns Good cfg false body m k h =
      let id = generate_lock_id cfg.table_name in
      elim (lock-Owns (host.lock_query id m.world).0 id m.mutexes h.1) [
        | inl (x, e) ↦
            rw (e, acquire)
              (stop-Returns host cmd json (And host K IsFree) Good (lock_error x) _
                (keeps.locks id m.world h.0, h.1))
        | inr (l, ms, e, o) ↦
            let m' : Machine host = record m {
              world = (host.lock_query id m.world).1;
              mutexes = ms;
            } in
            rw (e, acquire)
              (clean_up-Returns (And host K (λ x. x ≡ ms)) (And host K IsFree) Good
                (release_lock host cmd json l) (body m')
                (k (λ x. x ≡ ms) m' (keeps.locks id m.world h.0, refl))
                λ v j. release_lock-Cleans l v j.0 (subst (Owns l) (sym j.1) o))
      ]
