-- ===== src/Lock/Exclusion/Invariant.antt =====
-- The invariant of the locks of a process, and what it gives.
use schemago.Base.{
  ◌+◌, ◌≤◌, ◌≡◌, refl, Bool, true, Option, List, [], ◌∷◌, ◌++◌, ◌⊎◌, false, Result, arith, All,
  Bool-cases, inl, inr,
}
use schemago.Base.Int.{ℤ, eq_ℤ_refl}
use schemago.Database.{SqlError}
use schemago.Lock.{LockError, AdvisoryLock, Mutexes, is_held, returns, waits, unlock}
use schemago.Lock.Exclusion.{
  holds, bit, count_holders, Process, put, Step, created, locked, waited, resumed, tried, unlocked,
  Reachable, start, then_step, IsSound, Balanced, lock-Balanced, waits-Balanced,
  lock_mutex-Balanced, try_lock-Balanced, unlock-Balanced,
}

-- Every lock is sound, and each mutex is locked as often as locks hold it.
abbrev Invariant : Process → Type 0
Invariant p =
    All IsSound p.locks × ((id : ℤ) → count_holders id p.locks ≡ bit (is_held id p.mutexes))

count_holders-append :
    (id : ℤ) (xs ys : List AdvisoryLock)
    → count_holders id (xs ++ ys) ≡ count_holders id xs + count_holders id ys
count_holders-append id [] ys = omega arith
count_holders-append id (x ∷ xs) ys = omega (arith, count_holders-append id xs ys)

pub IsSound-here :
    (before after : List AdvisoryLock) (l : AdvisoryLock)
    → All IsSound (before ++ l ∷ after)
    → IsSound l
IsSound-here [] after l h = h.0
IsSound-here (x ∷ before) after l h = IsSound-here before after l h.1

All-replace :
    (before after : List AdvisoryLock) (l l' : AdvisoryLock)
    → All IsSound (before ++ l ∷ after)
    → IsSound l'
    → All IsSound (before ++ l' ∷ after)
All-replace [] after l l' h s = (s, h.1)
All-replace (x ∷ before) after l l' h s = (h.0, All-replace before after l l' h.1 s)

Invariant-put :
    (before after : List AdvisoryLock) (l l' : AdvisoryLock) (ms ms' : Mutexes)
    → Invariant (put before l after ms)
    → Balanced l ms l' ms'
    → Invariant (put before l' after ms')
Invariant-put before after l l' ms ms' (s, c) (s', b) = (
  All-replace before after l l' s s',
  λ id. omega (
    arith,
    c id,
    b id,
    count_holders-append id before (l ∷ after),
    count_holders-append id before (l' ∷ after),
  ),
)

Step-Invariant : (p q : Process) → Step p q → Invariant p → Invariant q
Step-Invariant p q (created b id o) (s, c) =
    (((λ e. absurd (cc e), λ e. absurd (cc e)), s), λ j. omega (arith, c j))
Step-Invariant p q (locked before after l l' ms ms' answer r h) i =
    Invariant-put before after l l' ms ms' i
      (lock-Balanced answer l l' ms ms' r (IsSound-here before after l i.0) h)
Step-Invariant p q (waited before after l l' ms answer h) i =
    Invariant-put before after l l' ms ms i
      (waits-Balanced answer l l' ms (IsSound-here before after l i.0) h)
Step-Invariant p q (resumed before after l l' ms ms' r m h) i =
    Invariant-put before after l l' ms ms' i
      (lock_mutex-Balanced l l' ms ms' r (IsSound-here before after l i.0) m h)
Step-Invariant p q (tried before after l l' ms ms' answer r h) i =
    Invariant-put before after l l' ms ms' i
      (try_lock-Balanced answer l l' ms ms' r (IsSound-here before after l i.0) h)
Step-Invariant p q (unlocked before after l l' ms ms' answer r h) i =
    Invariant-put before after l l' ms ms' i
      (unlock-Balanced answer l l' ms ms' r (IsSound-here before after l i.0) h)

pub Reachable-Invariant : (p : Process) → Reachable p → Invariant p
unfolding is_held
Reachable-Invariant p start = (tt, λ id. refl)
Reachable-Invariant p (then_step q o r s) = Step-Invariant q o s (Reachable-Invariant q r)

unlock-returns :
    (answer : Result SqlError Bool) (l : AdvisoryLock) (ms : Mutexes)
    → l.mu_locked ≡ false
    → (l.locked ≡ true → l.is_fallback ≡ true → is_held l.lock_id ms ≡ true)
    → (r : Option LockError) × (l' : AdvisoryLock) × (ms' : Mutexes) × (unlock answer l ms
        ≡ returns r l' ms')
unfolding unlock
unlock-returns answer l ms m k = elim (Bool-cases l.locked) [
  | inr n ↦ rw (m, n, unlock) (_, _, _, refl)
  | inl y ↦ elim (Bool-cases l.is_fallback) [
    | inr n ↦ rw (m, y, unlock) (rw n (_, _, _, refl))
    | inl f ↦ rw (m, y, unlock) (rw f (rw (k y f) (_, _, _, refl)))
  ]
]

-- A mutex that one of the locks holds is locked.
is_held_of_holds :
    (before after : List AdvisoryLock) (l : AdvisoryLock) (ms : Mutexes)
    → Invariant (put before l after ms)
    → holds l.lock_id l ≡ true
    → is_held l.lock_id ms ≡ true
is_held_of_holds before after l ms i h =
    ground (arith, i.1 l.lock_id, count_holders-append l.lock_id before (l ∷ after))

-- No call waits inside of a lock that is locked.
pub idle_mu : (l : AdvisoryLock) → l.locked ≡ true → IsSound l → l.mu_locked ≡ false
idle_mu l y s = elim (Bool-cases l.mu_locked) [ inl m ↦ absurd (cc (y, s.1 m)) | inr n ↦ n ]

-- A call of `Unlock` waits only for a call of `Lock` that waits for the mutex of the id, and then the lock is not
-- locked. Where there is none it returns, once the server has answered the queries: it never unlocks a mutex that is
-- not locked.
pub unlock-Reachable :
    (before after : List AdvisoryLock) (l : AdvisoryLock) (ms : Mutexes)
    (answer : Result SqlError Bool)
    → Reachable (put before l after ms)
    → ((l.mu_locked ≡ true) × (l.locked ≡ false) × (unlock answer l ms ≡ waits))
      ⊎ ((l.mu_locked ≡ false)
          × ((r : Option LockError) × (l' : AdvisoryLock) × (ms' : Mutexes) × (unlock answer l ms
                ≡ returns r l' ms')))
unfolding unlock
unlock-Reachable before after l ms answer r =
    let i = Reachable-Invariant (put before l after ms) r in
    elim (Bool-cases l.mu_locked) [
      | inl m ↦ inl (m, (IsSound-here before after l i.0).1 m, rw (m, unlock) refl)
      | inr m ↦ inr (
        m,
        unlock-returns answer l ms m
            λ y f. is_held_of_holds before after l ms i (rw (y, f) (eq_ℤ_refl l.lock_id)),
      )
    ]

-- However the calls of any number of locks interleave and whatever the server answers them, at most
-- one lock of each id holds the mutex of the process.
pub count_holders-Reachable : (p : Process) → Reachable p → (id : ℤ) → count_holders id p.locks ≤ 1
count_holders-Reachable p r id = let e = (Reachable-Invariant p r).1 id in ground (arith, e)
