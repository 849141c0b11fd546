-- ===== src/Cli/Steps/Quiet.antt =====
-- Handlers whose calls on the connection keep what is observed of the world, such as what is committed
-- in the database, and what is observed around their bodies.
use schemago.Base.{
  ◌≡◌, refl, ◌∙◌, sym, ap, Bool, true, false, not, ◌&&◌, none, some, Result, ok, ◌⊎◌, inl, inr,
  if◌then◌else◌,
}
use schemago.Base.Int.{ℤ}
use schemago.Text.{Bytes}
use schemago.Config.{Config}
use schemago.Lock.{
  Mutexes, AdvisoryLock, new, lock, unlock, Outcome, returns, waits_inside, waits, fails,
}
use schemago.Lock.Key.{generate_lock_id}
use schemago.Db.{GoError, connect_and_ping}
use schemago.Cli.Host.{connection_error, Host, Machine, ended, Act}
use schemago.Cli.Steps.{
  stop, call, option_result, closing, acquire, release_lock, with_database, with_conn, with_lock,
}
use schemago.Cli.Steps.Keeps.{Keeps, connect_and_ping-Kept}
use schemago.Cli.Steps.Inversion.{continue_inv, clean_up_inv, check_inv}

Outcome-cases :
    {A : Type 0} (o : Outcome A)
    → ((a : A) × (l : AdvisoryLock) × (ms : Mutexes) × (o ≡ returns a l ms))
      ⊎ ((o ≡ waits) ⊎ ((o ≡ fails) ⊎ ((l : AdvisoryLock) × (o ≡ waits_inside l))))
Outcome-cases (returns a l ms) = inl (a, l, ms, refl)
Outcome-cases waits = inr (inl refl)
Outcome-cases fails = inr (inr (inl refl))
Outcome-cases (waits_inside l) = inr (inr (inr (l, refl)))

-- Connecting, the queries of the lock and closing keep what is observed.
pub record Quiet (host : Host) {O : Type 0} (observe : host.rt.World → O) : Type 0 where
  pub opens :
      (driver dsn : Bytes) (w : host.rt.World)
      → observe (host.connector.open_driver driver dsn w).1 ≡ observe w
  pub pings : (t : ℤ) (w : host.rt.World) → observe (host.connector.ping_context t w).1 ≡ observe w
  pub closes : (w : host.rt.World) → observe (host.connector.close w) ≡ observe w
  pub conns : (w : host.rt.World) → observe (host.conn w).1 ≡ observe w
  pub releases : (w : host.rt.World) → observe (host.release w) ≡ observe w
  pub locks : (id : ℤ) (w : host.rt.World) → observe (host.lock_query id w).1 ≡ observe w
  pub unlocks : (id : ℤ) (w : host.rt.World) → observe (host.unlock_query id w).1 ≡ observe w

module _ (host : Host) {O : Type 0} (observe : host.rt.World → O) where
  -- The property that `c` is observed.
  abbrev pub Is : O → host.rt.World → Type 0
  Is c w = observe w ≡ c

  pub Is-Keeps : Quiet host observe → (c : O) → Keeps host (Is c)
  Is-Keeps quiet c = record {
    connects = record {
      opens = λ driver dsn w h. quiet.opens driver dsn w ∙ h;
      pings = λ t w h. quiet.pings t w ∙ h;
      closes = λ w h. quiet.closes w ∙ h;
      conns = λ w h. quiet.conns w ∙ h;
      releases = λ w h. quiet.releases w ∙ h;
    };
    locks = λ id w h. quiet.locks id w ∙ h;
    unlocks = λ id w h. quiet.unlocks id w ∙ h;
  }

module _ (host : Host) {O : Type 0} (observe : host.rt.World → O) (quiet : Quiet host observe)
    (cmd : Bytes) (json : Bool) where
  -- A body has run, and the same was observed at the beginning and before it, and at the end and after it.
  abbrev pub Ran : {A : Type 0} → Act host A → A → Machine host → Machine host → Type 0
  Ran body b m m1 =
      (before : Machine host) × (after : Machine host) × (body before ≡ ended (ok b) after)
      × (observe before.world ≡ observe m.world)
      × (observe m1.world ≡ observe after.world)

  closed_kept :
      (g : host.rt.World → host.rt.World)
      → ((w : host.rt.World) → observe (g w) ≡ observe w)
      → (m : Machine host) {m1 : Machine host} → closing host cmd json g m ≡ ended tt m1
      → observe m1.world ≡ observe m.world
  closed_kept g kept m {m1} h =
      let same : record m { world = g m.world } ≡ m1 = cc h in
      ap (λ (x : Machine host). observe x.world) (sym same) ∙ kept m.world

  pub with_database-Ran :
      {A : Type 0} (cfg : Config) (body : Act host A) (m : Machine host) {b : A} {m1 : Machine host}
      → with_database host cmd json cfg body m ≡ ended (ok b) m1
      → Ran body b m m1
  with_database-Ran cfg body m h =
      let connects =
        connect_and_ping host.format_duration host.connector cfg.database_url cfg.timeout in
      let m' : Machine host = record m { world = (connects m.world).1 } in
      let (u, m2, connected, h2) =
        continue_inv (call host cmd json connection_error connects m) _ h in
      let (opened, same) =
        check_inv host cmd json connection_error (connects m.world).0 m' connected in
      let (after, went, closed) =
        clean_up_inv (closing host cmd json host.connector.close) (body m2) h2 in
      (
        m2,
        after,
        went,
        ap (λ (x : Machine host). observe x.world) same
            ∙ connect_and_ping-Kept host (Is host observe (observe m.world))
                (Is-Keeps host observe quiet (observe m.world)).connects cfg.database_url
                cfg.timeout m.world refl,
        closed_kept host.connector.close quiet.closes after closed,
      )

  pub with_conn-Ran :
      {A : Type 0} (body : Act host A) (m : Machine host) {b : A} {m1 : Machine host}
      → with_conn host cmd json body m ≡ ended (ok b) m1
      → Ran body b m m1
  with_conn-Ran body m h =
      let m' : Machine host = record m { world = (host.conn m.world).1 } in
      let gives : host.rt.World → Result GoError (Unit {0}) × host.rt.World =
        λ w. (option_result host cmd json (host.conn w).0, (host.conn w).1) in
      let (u, m2, connected, h2) = continue_inv (call host cmd json connection_error gives m) _ h in
      let (opened, same) =
        check_inv host cmd json connection_error (gives m.world).0 m' connected in
      let (after, went, closed) = clean_up_inv (closing host cmd json host.release) (body m2) h2 in
      (
        m2,
        after,
        went,
        ap (λ (x : Machine host). observe x.world) same ∙ quiet.conns m.world,
        closed_kept host.release quiet.releases after closed,
      )

  acquire_kept :
      (cfg : Config) (m : Machine host) {l : AdvisoryLock} {m1 : Machine host}
      → acquire host cmd json cfg m ≡ ended (ok l) m1
      → observe m1.world ≡ observe m.world
  unfolding acquire stop
  acquire_kept cfg m {m1 = m1} h =
      let id = generate_lock_id cfg.table_name in
      let w = (host.lock_query id m.world).1 in
      elim (Outcome-cases (lock (host.lock_query id m.world).0 (new true id) m.mutexes)) [
        | inl (none, l', ms, e) ↦
            let m' : Machine host = record m { world = w; mutexes = ms } in
            let same : m' ≡ m1 = cc (rw (e, acquire) at h) in
            ap (λ (x : Machine host). observe x.world) (sym same) ∙ quiet.locks id m.world
        | inl (some x, l', ms, e) ↦ absurd (cc (rw (e, acquire) at h))
        | inr (inl e) ↦ absurd (cc (rw (e, acquire) at h))
        | inr (inr (inl e)) ↦ absurd (cc (rw (e, acquire) at h))
        | inr (inr (inr (l', e))) ↦ absurd (cc (rw (e, acquire) at h))
      ]

  either_kept :
      (b : Bool) (v w : host.rt.World)
      → observe v ≡ observe w
      → observe (if b then v else w) ≡ observe w
  either_kept true v w h = h
  either_kept false v w h = refl

  release_kept :
      (l : AdvisoryLock) (m : Machine host) {m1 : Machine host}
      → release_lock host cmd json l m ≡ ended tt m1
      → observe m1.world ≡ observe m.world
  unfolding release_lock
  release_kept l m {m1 = m1} h =
      let (answer, asked) = host.unlock_query l.lock_id m.world in
      let b = l.locked && not l.is_fallback in
      elim (Outcome-cases (unlock answer l m.mutexes)) [
        | inl (r, l', ms, e) ↦
            let m' : Machine host = record m {
              world = if b then asked else m.world;
              mutexes = ms;
            } in
            let same : m' ≡ m1 = cc (rw (e, release_lock) at h) in
            ap (λ (x : Machine host). observe x.world) (sym same)
            ∙ either_kept b asked m.world (quiet.unlocks l.lock_id m.world)
        | inr (inl e) ↦ absurd (cc (rw (e, release_lock) at h))
        | inr (inr (inl e)) ↦ absurd (cc (rw (e, release_lock) at h))
        | inr (inr (inr (l', e))) ↦ absurd (cc (rw (e, release_lock) at h))
      ]

  pub with_lock-Ran :
      {A : Type 0} (cfg : Config) (no_lock : Bool) (body : Act host A) (m : Machine host) {b : A}
      {m1 : Machine host}
      → with_lock host cmd json cfg no_lock body m ≡ ended (ok b) m1
      → Ran body b m m1
  with_lock-Ran cfg true body m {m1 = m1} h = (m, m1, h, refl, refl)
  with_lock-Ran cfg false body m h =
      let (l, m2, acquired, h2) = continue_inv (acquire host cmd json cfg m) _ h in
      let (after, went, released) = clean_up_inv (release_lock host cmd json l) (body m2) h2 in
      (m2, after, went, acquire_kept cfg m acquired, release_kept l after released)
