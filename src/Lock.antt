-- ===== src/Lock.antt =====
-- The package internal/lock: the advisory lock, and its fallback to mutexes of the process.
pub mod Key
pub mod Exclusion
pub mod Single
use schemago.Base.{
  ℕ, Bool, true, false, not, ◌&&◌, ◌||◌, Option, none, some, List, [], ◌∷◌, map, Result, ok, err,
  if◌then◌else◌,
}
use schemago.Base.Int.{ℤ}
use schemago.Text.{Bytes, codes, contains, has_prefix, to_lower}
use schemago.Map.{Map, lookup, insert}
use schemago.Database.{SqlError}

-- ErrAlreadyLocked, ErrNilExecer, and the failures of the three queries with the lock id.
pub data LockError : Type 0 where
  already_locked nil_execer : LockError
  acquire_failed try_failed release_failed : ℤ → SqlError → LockError
  not_held : ℤ → LockError

-- `AdvisoryLock`, of whose handle only counts whether it is nil. Its own mutex makes each operation
-- one step, but for a `Lock` that waits for the mutex of the id: it has `l.mu` locked all the while,
-- which is the field `mu_locked`. A call that waits for the server's answer takes its step when it is there.
pub record AdvisoryLock : Type 0 where
  pub has_execer : Bool
  pub lock_id : ℤ
  pub locked : Bool
  pub is_fallback : Bool
  pub mu_locked : Bool

-- `New`
abbrev pub new : Bool → ℤ → AdvisoryLock
new has_execer lock_id = record {
  has_execer = has_execer;
  lock_id = lock_id;
  locked = false;
  is_fallback = false;
  mu_locked = false;
}

-- globalFallbackLocks: for each lock id, whether its mutex is locked.
abbrev pub Mutexes : Type 0
Mutexes = Map Bool

-- Whether the mutex of `getFallbackMutex` is locked; a new one is not.
unfoldable pub is_held : ℤ → Mutexes → Bool
unfolding lookup
is_held id ms = elim (lookup id ms) [ none ↦ false | some held ↦ held ]

-- `isNonPostgresError`, on the text of the error.
unfoldable pub is_non_postgres_error : SqlError → Bool
unfolding contains has_prefix to_lower
is_non_postgres_error e =
    let msg = to_lower e in
    contains msg (codes "no such function")
    || contains msg (codes "unknown function")
    || contains msg (codes "sqlite")
    || contains msg (codes "near \"select\"")
    || contains msg (codes "syntax error")

-- How a call goes: it returns; it waits for `l.mu`; it has locked `l.mu` and waits for the mutex of
-- the id, with what it leaves of the lock meanwhile; or the runtime stops the program since it unlocks
-- a mutex that is not locked.
pub data Outcome (A : Type 0) : Type 0 where
  returns : A → AdvisoryLock → Mutexes → Outcome A
  waits_inside : AdvisoryLock → Outcome A
  waits fails : Outcome A

-- The lock once the server has granted it, and once the mutex has.
abbrev granted : AdvisoryLock → AdvisoryLock
granted l = record l { locked = true }

abbrev fallen_back : AdvisoryLock → AdvisoryLock
fallen_back l = record l { is_fallback = true; locked = true }

-- `m.Lock()` and what follows it, with `l.mu` locked; it is also how a `Lock` that waits there goes on.
unfoldable pub lock_mutex : AdvisoryLock → Mutexes → Outcome (Option LockError)
unfolding is_held insert
lock_mutex l ms =
    if is_held l.lock_id ms
    then waits_inside (record l { mu_locked = true })
    else returns none (record (fallen_back l) { mu_locked = false }) (insert l.lock_id true ms)

abbrev lock_answered :
    Result SqlError (Unit {0}) → AdvisoryLock → Mutexes → Outcome (Option LockError)
lock_answered (ok done) l ms = returns none (granted l) ms
lock_answered (err e) l ms =
    if is_non_postgres_error e
    then lock_mutex l ms
    else returns (some (acquire_failed l.lock_id e)) l ms

-- `Lock`, with the answer to `SELECT pg_advisory_lock($1)`.
unfoldable pub lock :
    Result SqlError (Unit {0}) → AdvisoryLock → Mutexes → Outcome (Option LockError)
unfolding lock_mutex
lock answer l ms =
    if l.mu_locked
    then waits
    else if l.locked
    then returns (some already_locked) l ms
    else if not l.has_execer
    then returns (some nil_execer) l ms
    else lock_answered answer l ms

abbrev try_lock_answered :
    Result SqlError Bool → AdvisoryLock → Mutexes → Outcome (Result LockError Bool)
try_lock_answered (ok acquired) l ms = returns (ok acquired) (if acquired then granted l else l) ms
try_lock_answered (err e) l ms =
    if is_non_postgres_error e
    then if is_held l.lock_id ms
      then returns (ok false) l ms
      else returns (ok true) (fallen_back l) (insert l.lock_id true ms)
    else returns (err (try_failed l.lock_id e)) l ms

-- `TryLock`, with the answer to `SELECT pg_try_advisory_lock($1)`.
unfoldable pub try_lock :
    Result SqlError Bool → AdvisoryLock → Mutexes → Outcome (Result LockError Bool)
unfolding is_held insert
try_lock answer l ms =
    if l.mu_locked
    then waits
    else if l.locked
    then returns (ok true) l ms
    else if not l.has_execer
    then returns (err nil_execer) l ms
    else try_lock_answered answer l ms

abbrev unlock_answered : ℤ → Result SqlError Bool → Option LockError
unlock_answered id (err e) = some (release_failed id e)
unlock_answered id (ok released) = if released then none else some (not_held id)

-- `Unlock`, with the answer to `SELECT pg_advisory_unlock($1)`.
unfoldable pub unlock : Result SqlError Bool → AdvisoryLock → Mutexes → Outcome (Option LockError)
unfolding is_held insert
unlock answer l ms =
    if l.mu_locked
    then waits
    else if not l.locked
    then returns none l ms
    else if l.is_fallback
    then if is_held l.lock_id ms
      then returns none (record l { locked = false; is_fallback = false })
          (insert l.lock_id false ms)
      else fails
    else returns (unlock_answered l.lock_id answer) (record l { locked = false }) ms

-- `IsLocked`
abbrev pub is_locked : AdvisoryLock → Mutexes → Outcome Bool
is_locked l ms = if l.mu_locked then waits else returns l.locked l ms
