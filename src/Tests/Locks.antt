-- ===== src/Tests/Locks.antt =====
-- Two locks of one id, of which the second falls back first.
use schemago.Base.{◌⊎◌, ◌≡◌, ◌≤◌, refl, true, false, Option, none, List, [], ◌∷◌, ◌++◌, ok, err}
use schemago.Base.Int.{pos}
use schemago.Text.{codes}
use schemago.Map.{insert, lookup}
use schemago.Lock.{
  is_non_postgres_error, LockError, AdvisoryLock, Mutexes, new, returns, waits, waits_inside,
  lock_mutex, lock, try_lock, unlock,
}
use schemago.Text.{contains, has_prefix, to_lower}
use schemago.Lock.Key.{write_from, sum64a}
use schemago.Lock.Exclusion.{
  Process, count_holders, put, created, locked, initial, Reachable, start, then_step,
}
use schemago.Lock.Exclusion.Progress.{GoesOn, lock-Progress}
use schemago.Lock.Exclusion.Invariant.{count_holders-Reachable, unlock-Reachable}

abbrev fresh : AdvisoryLock
fresh = new true (pos 9)

abbrev holder : AdvisoryLock
holder = record fresh { locked = true; is_fallback = true }

abbrev mutexes : Mutexes
mutexes = (pos 9, true) ∷ []

abbrev both : Process
both = record { locks = fresh ∷ fresh ∷ []; mutexes = [] }

abbrev one : Process
one = record { locks = fresh ∷ []; mutexes = [] }

lock_test : lock (err (codes "SQLite: no such function")) fresh [] ≡ returns none holder mutexes
unfolding lock insert is_non_postgres_error contains has_prefix to_lower lookup
lock_test = refl

-- The other lock has to wait.
abbrev waiting : AdvisoryLock
waiting = record fresh { mu_locked = true }

wait_test : lock (err (codes "sqlite")) fresh mutexes ≡ waits_inside waiting
unfolding lock is_non_postgres_error contains has_prefix to_lower lookup
wait_test = refl

-- While the other lock waits, calls of it wait.
unlock_waits_test : unlock (ok true) waiting mutexes ≡ waits
unfolding unlock
unlock_waits_test = refl

-- A lock that is free again is taken by the call that waited.
resumed_test : lock_mutex waiting ((pos 9, false) ∷ []) ≡ returns none holder mutexes
unfolding lock_mutex insert lookup
resumed_test = refl

-- The TryLock of a third lock fails.
try_test : try_lock (err (codes "sqlite")) fresh mutexes ≡ returns (ok false) fresh mutexes
unfolding try_lock is_non_postgres_error contains has_prefix to_lower lookup
try_test = refl

held : Reachable (put (fresh ∷ []) holder [] mutexes)
held =
    then_step both _
      (then_step one _ (then_step initial _ start (created true (pos 9) initial))
        (created true (pos 9) one))
      (locked (fresh ∷ []) [] fresh holder [] mutexes (err (codes "SQLite: no such function")) none
        lock_test)

count_holders-Reachable_example : count_holders (pos 9) (fresh ∷ holder ∷ []) ≤ 1
count_holders-Reachable_example =
    count_holders-Reachable (put (fresh ∷ []) holder [] mutexes) held (pos 9)

unlock-Reachable_example :
    ((holder.mu_locked ≡ true)
      × (holder.locked ≡ false)
      × (unlock (ok true) holder mutexes ≡ waits))
    ⊎ ((holder.mu_locked ≡ false)
        × ((r : Option LockError) × (l' : AdvisoryLock) × (ms' : Mutexes) × (unlock
                (ok true)
                holder
                mutexes
              ≡ returns r l' ms')))
unlock-Reachable_example = unlock-Reachable (fresh ∷ []) [] holder mutexes (ok true) held

lock-Progress_example :
    (count_holders (pos 9) (fresh ∷ holder ∷ []) ≡ 1)
    × ((before : List AdvisoryLock) × (l : AdvisoryLock) × (after : List AdvisoryLock) × (fresh
            ∷ holder ∷ []
          ≡ before ++ l ∷ after)
        × GoesOn waiting l mutexes)
lock-Progress_example =
    lock-Progress (put (fresh ∷ []) holder [] mutexes) (err (codes "sqlite")) fresh waiting held
      wait_test

-- The published test value of the hash.
sum64a_test : sum64a (codes "a") ≡ 0xaf63dc4c8601ec8c
unfolding write_from
sum64a_test = refl
