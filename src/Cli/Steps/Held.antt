-- ===== src/Cli/Steps/Held.antt =====
-- The locks that the server holds for the session of a handler, around `l.Lock` and `l.Unlock`.
use schemago.Base.{
  ℕ, ◌+◌, ◌-◌, ◌≤◌, ◌≡◌, refl, ◌∙◌, Bool, true, false, ok, err, Bool-cases, Result-cases, inl, inr,
  arith, if◌then◌else◌,
}
use schemago.Base.Int.{ℤ, eq_ℤ, eq_ℤ_refl}
use schemago.Text.{Bytes}
use schemago.Database.{SqlError}
use schemago.Config.{Config}
use schemago.Lock.{AdvisoryLock, new, lock, is_non_postgres_error, acquire_failed}
use schemago.Map.{insert}
use schemago.Lock.Key.{generate_lock_id}
use schemago.Lock.Exclusion.{is_held-insert}
use schemago.Lock.Single.{IsFree, Owns, unlock-Owns}
use schemago.Cli.Host.{lock_error, Host, Machine, Act, deferring}
use schemago.Cli.Steps.{acquire, release_lock, with_lock}
use schemago.Cli.Steps.Returns.{Returns, Cleans, clean_up-Returns, stop-Returns}
use schemago.Cli.Steps.Keeps.{And}

-- One for the id itself.
abbrev one_for : ℤ → ℤ → ℕ
one_for id j = if eq_ℤ id j then 1 else 0

-- How often the session of a world holds the lock of an id. A lock that is granted is held once more, and one that
-- the server says it has released is held once less.
pub record ServerLocks (host : Host) : Type 0 where
  pub held : ℤ → host.rt.World → ℕ
  pub granted :
      (id j : ℤ) (w : host.rt.World)
      → (host.lock_query id w).0 ≡ ok tt
      → held j (host.lock_query id w).1 ≡ held j w + one_for id j
  pub refused :
      (id j : ℤ) (w : host.rt.World) (e : SqlError)
      → (host.lock_query id w).0 ≡ err e
      → held j (host.lock_query id w).1 ≡ held j w
  pub given_back :
      (id j : ℤ) (w : host.rt.World)
      → (host.unlock_query id w).0 ≡ ok true
      → held j (host.unlock_query id w).1 ≡ held j w - one_for id j

-- The server answers a session that releases a lock it holds, and says that it is released.
abbrev pub AnswersRelease : (host : Host) → ServerLocks host → Type 0
AnswersRelease host server =
    (id : ℤ) (w : host.rt.World) → 1 ≤ server.held id w → (host.unlock_query id w).0 ≡ ok true

module _ (host : Host) (server : ServerLocks host) where
  -- The session holds each lock so many times.
  abbrev pub Counts : (ℤ → ℕ) → host.rt.World → Type 0
  Counts n w = (j : ℤ) → server.held j w ≡ n j

  -- The session holds no lock.
  abbrev pub HoldsNone : host.rt.World → Type 0
  HoldsNone = Counts λ j. 0

  -- The session holds the lock once if it is the server's, and no other lock.
  abbrev pub Holds : AdvisoryLock → host.rt.World → Type 0
  Holds l = Counts λ j. if l.is_fallback then 0 else one_for l.lock_id j

  module _ (answers : AnswersRelease host server) (cmd : Bytes) (json : Bool) where
    given :
        (id : ℤ) (w : host.rt.World) → Counts (one_for id) w → HoldsNone (host.unlock_query id w).1
    given id w h j =
        let said = answers id w (ground (arith, h id, eq_ℤ_refl id)) in
        ground (arith, server.given_back id j w said, h j)

    release_lock-Cleans :
        (l : AdvisoryLock) (m : Machine host)
        → Holds l m.world
        → Owns l m.mutexes
        → Cleans (And host HoldsNone IsFree) (release_lock host cmd json l m)
    unfolding release_lock
    release_lock-Cleans l m h o =
        let (answer, asked) = host.unlock_query l.lock_id m.world in
        let (r, l', ms, e, free) = unlock-Owns answer l m.mutexes o in
        let y = o.0 in
        elim (Bool-cases l.is_fallback) [
          | inl f ↦ rw (e, release_lock) (rw (y, f) ((λ j. rw f at (h j)), free))
          | inr n ↦
              rw (e, release_lock) (rw (y, n) (given l.lock_id m.world (λ j. rw n at (h j)), free))
        ]

    -- A body behind the lock, and what follows it.
    released :
        {A : Type 0} (Good : A → Type 0) (l : AdvisoryLock) (body : Act host A) (m : Machine host)
        → Returns (And host (Holds l) (Owns l)) Good (body m)
        → Returns (And host HoldsNone IsFree) Good (deferring (release_lock host cmd json l) body m)
    released Good l body m h =
        clean_up-Returns (And host (Holds l) (Owns l)) (And host HoldsNone IsFree) Good
          (release_lock host cmd json l) (body m) h λ v j. release_lock-Cleans l v j.0 j.1

    -- A command that locks runs its body only with the lock held, either once by the server and no mutex locked,
    -- or by the one mutex of its id and nothing by the server, as `l` tells. If the body returns and leaves it so,
    -- then whatever the body returns, neither the server nor a mutex holds a lock at the end. This takes the laws of
    -- the server's locks, that the server answers the query that releases a lock the session holds, by releasing it, and that at the start the session holds no lock and no mutex is locked.
    pub with_lock-Holds :
        {A : Type 0} (Good : A → Type 0) (cfg : Config) (body : Act host A) (m : Machine host)
        → ((l : AdvisoryLock) (m : Machine host)
            → l.lock_id ≡ generate_lock_id cfg.table_name
            → And host (Holds l) (Owns l) m.world m.mutexes
            → Returns (And host (Holds l) (Owns l)) Good (body m))
        → And host HoldsNone IsFree m.world m.mutexes
        → Returns (And host HoldsNone IsFree) Good (with_lock host cmd json cfg false body m)
    unfolding acquire lock
    with_lock-Holds Good cfg body m k h =
        let id = generate_lock_id cfg.table_name in
        let w = (host.lock_query id m.world).1 in
        elim (Result-cases (host.lock_query id m.world).0) [
          | inl (u, e) ↦
              let l : AdvisoryLock = record (new true id) { locked = true } in
              let m' : Machine host = record m { world = w } in
              rw (e, acquire)
                (released Good l body m' (
                  k l m' refl (
                    (λ j. ground (arith, server.granted id j m.world e, h.0 j)),
                    (refl, refl, h.1),
                  )))
          | inr (x, e) ↦
              let none_held : HoldsNone w = λ j. server.refused id j m.world x e ∙ h.0 j in
              elim (Bool-cases (is_non_postgres_error x)) [
                | inr n ↦
                    rw (e, acquire)
                      (rw n (
                        stop-Returns host cmd json (And host HoldsNone IsFree) Good
                          (lock_error (acquire_failed id x)) _ (none_held, h.1)))
                | inl y ↦
                    let l : AdvisoryLock = record (new true id) {
                      is_fallback = true;
                      locked = true;
                    } in
                    let m' : Machine host = record m {
                      world = w;
                      mutexes = insert id true m.mutexes;
                    } in
                    rw (e, acquire)
                      (rw y (
                        rw (h.1 id) (
                          released Good l body m' (
                            k l m' refl (
                              none_held,
                              (
                                refl,
                                refl,
                                λ j. ground (arith, is_held-insert id j true m.mutexes, h.1 j),
                              ),
                            )))))
              ]
        ]
