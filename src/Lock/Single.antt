-- ===== src/Lock/Single.antt =====
-- One lock in a process in which no other lock holds a mutex, as a handler takes and releases it.
use schemago.Base.{
  ◌≡◌, refl, Bool, true, false, ◌&&◌, Option, none, some, Result, ok, err, arith, Bool-cases, ◌⊎◌,
  inl, inr,
}
use schemago.Base.Int.{ℤ, eq_ℤ, eq_ℤ_refl}
use schemago.Database.{SqlError}
use schemago.Lock.{
  LockError, acquire_failed, AdvisoryLock, new, Mutexes, is_held, is_non_postgres_error, lock,
  unlock, lock_mutex, returns,
}
use schemago.Lock.Exclusion.{is_held-insert}

-- No mutex is locked.
abbrev pub IsFree : Mutexes → Type 0
IsFree ms = (id : ℤ) → is_held id ms ≡ false

-- The lock is locked, none of its calls waits, and if it has fallen back, its mutex is the only one that is.
abbrev pub Owns : AdvisoryLock → Mutexes → Type 0
Owns l ms =
    (l.locked ≡ true)
    × (l.mu_locked ≡ false)
    × ((id : ℤ) → is_held id ms ≡ (l.is_fallback && eq_ℤ l.lock_id id))

pub lock-Owns :
    (answer : Result SqlError (Unit {0})) (id : ℤ) (ms : Mutexes)
    → IsFree ms
    → ((e : LockError) × (lock answer (new true id) ms ≡ returns (some e) (new true id) ms))
      ⊎ ((l : AdvisoryLock) × (ms' : Mutexes) × (lock answer (new true id) ms ≡ returns none l ms')
          × Owns l ms')
unfolding lock lock_mutex
lock-Owns (ok done) id ms free = inr (_, _, refl, (refl, refl, free))
lock-Owns (err e) id ms free = elim (Bool-cases (is_non_postgres_error e)) [
  | inr n ↦ rw (n, lock) (inl (acquire_failed id e, refl))
  | inl y ↦
      rw (y, lock)
        (rw (free id) (
          inr (_, _, refl, (refl, refl, λ j. ground (arith, is_held-insert id j true ms, free j)))))
]

pub unlock-Owns :
    (answer : Result SqlError Bool) (l : AdvisoryLock) (ms : Mutexes)
    → Owns l ms
    → (r : Option LockError) × (l' : AdvisoryLock) × (ms' : Mutexes) × (unlock answer l ms
        ≡ returns r l' ms')
      × IsFree ms'
unfolding unlock
unlock-Owns answer l ms (y, m, owns) = elim (Bool-cases l.is_fallback) [
  | inr n ↦ rw (m, y, unlock) (rw n (_, _, _, refl, λ j. ground (arith, owns j)))
  | inl f ↦
      let held : is_held l.lock_id ms ≡ true =
        ground (arith, owns l.lock_id, eq_ℤ_refl l.lock_id) in
      rw (m, y, unlock)
        (rw f (
          rw held
            (_, _, _, refl, λ j. ground (arith, is_held-insert l.lock_id j false ms, owns j))))
]
