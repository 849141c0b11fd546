-- ===== src/Lock/Exclusion.antt =====
-- Any number of locks in one process, whose operations come in any order.
pub mod Invariant
pub mod Progress
use schemago.Base.{
  ℕ, ◌+◌, ◌≤◌, ◌≡◌, refl, sym, ap, ◌∙◌, Bool, true, false, ◌&&◌, Option, none, some, List, [], ◌∷◌,
  ◌++◌, Result, ok, err, if◌then◌else◌, arith, All, All-append, Bool-cases, inl, inr, not,
}
use schemago.Base.Int.{ℤ, eq_ℤ, eq_ℤ_iff, eq_ℤ_refl}
use schemago.Map.{lookup, insert, lookup-insert}
use schemago.Database.{SqlError}
use schemago.Lock.{
  LockError, AdvisoryLock, new, Mutexes, is_held, is_non_postgres_error, Outcome, returns,
  waits_inside, fails, lock, lock_mutex, lock_answered, try_lock, try_lock_answered, unlock,
}

-- The lock holds the mutex of the id.
abbrev pub holds : ℤ → AdvisoryLock → Bool
holds id l = l.locked && l.is_fallback && eq_ℤ l.lock_id id

abbrev pub bit : Bool → ℕ
bit b = if b then 1 else 0

abbrev pub count_holders : ℤ → List AdvisoryLock → ℕ
count_holders id [] = 0
count_holders id (l ∷ ls) = bit (holds id l) + count_holders id ls

-- The locks of a process, and its mutexes.
pub record Process : Type 0 where
  pub locks : List AdvisoryLock
  pub mutexes : Mutexes

abbrev pub put : List AdvisoryLock → AdvisoryLock → List AdvisoryLock → Mutexes → Process
put before l after ms = record { locks = before ++ l ∷ after; mutexes = ms }

-- A new lock, a call of one that returns, whatever the server answers, a call of `Lock` that
-- begins to wait for the mutex of its id with `l.mu` locked, or one that gets this mutex and returns.
pub data Step : Process → Process → Type 0 where
  created : (b : Bool) (id : ℤ) (p : Process) → Step p (record p { locks = new b id ∷ p.locks })
  locked :
      (before after : List AdvisoryLock) (l l' : AdvisoryLock) (ms ms' : Mutexes)
      (answer : Result SqlError (Unit {0})) (r : Option LockError)
      → lock answer l ms ≡ returns r l' ms'
      → Step (put before l after ms) (put before l' after ms')
  waited :
      (before after : List AdvisoryLock) (l l' : AdvisoryLock) (ms : Mutexes)
      (answer : Result SqlError (Unit {0}))
      → lock answer l ms ≡ waits_inside l'
      → Step (put before l after ms) (put before l' after ms)
  resumed :
      (before after : List AdvisoryLock) (l l' : AdvisoryLock) (ms ms' : Mutexes)
      (r : Option LockError)
      → l.mu_locked ≡ true
      → lock_mutex l ms ≡ returns r l' ms'
      → Step (put before l after ms) (put before l' after ms')
  tried :
      (before after : List AdvisoryLock) (l l' : AdvisoryLock) (ms ms' : Mutexes)
      (answer : Result SqlError Bool) (r : Result LockError Bool)
      → try_lock answer l ms ≡ returns r l' ms'
      → Step (put before l after ms) (put before l' after ms')
  unlocked :
      (before after : List AdvisoryLock) (l l' : AdvisoryLock) (ms ms' : Mutexes)
      (answer : Result SqlError Bool) (r : Option LockError)
      → unlock answer l ms ≡ returns r l' ms'
      → Step (put before l after ms) (put before l' after ms')

abbrev pub initial : Process
initial = record { locks = []; mutexes = [] }

pub data Reachable : Process → Type 0 where
  start : Reachable initial
  then_step : (p q : Process) → Reachable p → Step p q → Reachable q

-- A lock has fallen back only while it is locked, and none that is locked has its `l.mu` locked.
abbrev pub IsSound : AdvisoryLock → Type 0
IsSound l = (l.is_fallback ≡ true → l.locked ≡ true) × (l.mu_locked ≡ true → l.locked ≡ false)

-- A call changes what the lock holds as it changes the mutexes.
abbrev pub Balanced : AdvisoryLock → Mutexes → AdvisoryLock → Mutexes → Type 0
Balanced l ms l' ms' =
    IsSound l'
    × ((id : ℤ) → bit (holds id l') + bit (is_held id ms) ≡ bit (holds id l) + bit (is_held id ms'))

pub is_held-insert :
    (k id : ℤ) (b : Bool) (ms : Mutexes)
    → is_held id (insert k b ms) ≡ (if eq_ℤ k id then b else is_held id ms)
unfolding is_held
is_held-insert k id b ms = ground (arith, lookup-insert k id b ms)

same-held : (k id : ℤ) (ms : Mutexes) → eq_ℤ k id ≡ true → is_held id ms ≡ is_held k ms
same-held k id ms e = ap (λ j. is_held j ms) (sym ((eq_ℤ_iff k id).0 e))

pub lock-Balanced :
    (answer : Result SqlError (Unit {0})) (l l' : AdvisoryLock) (ms ms' : Mutexes)
    (r : Option LockError)
    → IsSound l
    → lock answer l ms ≡ returns r l' ms'
    → Balanced l ms l' ms'
unfolding lock lock_mutex
lock-Balanced (ok a) l l' ms ms' r s h = ((ground arith, ground arith), λ id. ground arith)
lock-Balanced (err e) l l' ms ms' r s h = (
  (ground arith, ground arith),
  λ id. ground (arith, is_held-insert l.lock_id id true ms, same-held l.lock_id id ms),
)

pub waits-Balanced :
    (answer : Result SqlError (Unit {0})) (l l' : AdvisoryLock) (ms : Mutexes)
    → IsSound l
    → lock answer l ms ≡ waits_inside l'
    → Balanced l ms l' ms
unfolding lock lock_mutex
waits-Balanced (ok a) l l' ms s h = absurd (ground arith)
waits-Balanced (err e) l l' ms s h = ((ground arith, ground arith), λ id. ground arith)

pub lock_mutex-Balanced :
    (l l' : AdvisoryLock) (ms ms' : Mutexes) (r : Option LockError)
    → IsSound l
    → l.mu_locked ≡ true
    → lock_mutex l ms ≡ returns r l' ms'
    → Balanced l ms l' ms'
unfolding lock_mutex
lock_mutex-Balanced l l' ms ms' r s m h = (
  (ground arith, ground arith),
  λ id. ground (arith, is_held-insert l.lock_id id true ms, same-held l.lock_id id ms, s.1 m),
)

pub try_lock-Balanced :
    (answer : Result SqlError Bool) (l l' : AdvisoryLock) (ms ms' : Mutexes)
    (r : Result LockError Bool)
    → IsSound l
    → try_lock answer l ms ≡ returns r l' ms'
    → Balanced l ms l' ms'
unfolding try_lock
try_lock-Balanced (ok a) l l' ms ms' r s h = ((ground arith, ground arith), λ id. ground arith)
try_lock-Balanced (err e) l l' ms ms' r s h = (
  (ground arith, ground arith),
  λ id. ground (arith, is_held-insert l.lock_id id true ms, same-held l.lock_id id ms),
)

pub unlock-Balanced :
    (answer : Result SqlError Bool) (l l' : AdvisoryLock) (ms ms' : Mutexes) (r : Option LockError)
    → IsSound l
    → unlock answer l ms ≡ returns r l' ms'
    → Balanced l ms l' ms'
unfolding unlock
unlock-Balanced answer l l' ms ms' r s h = (
  (ground arith, ground arith),
  λ id. ground (arith, is_held-insert l.lock_id id false ms, same-held l.lock_id id ms),
)
