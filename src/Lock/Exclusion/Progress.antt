-- ===== src/Lock/Exclusion/Progress.antt =====
-- Locks that wait for a mutex, and what they wait for.
use schemago.Base.{
  ◌≡◌, All, none, subst, refl, ap, [], ◌∷◌, ◌++◌, Bool, true, false, Option, List, Result, ok, err,
  arith, Bool-cases, inl, inr,
}
use schemago.Base.Int.{ℤ, eq_ℤ, eq_ℤ_iff}
use schemago.Map.{insert}
use schemago.Database.{SqlError}
use schemago.Lock.{
  AdvisoryLock, LockError, Mutexes, is_held, lock, lock_mutex, unlock, returns, waits_inside,
}
use schemago.Lock.Exclusion.{is_held-insert, bit, count_holders, holds, IsSound, Process, Reachable}
use schemago.Lock.Exclusion.Invariant.{IsSound-here, idle_mu, Reachable-Invariant}

lock_waits :
    (answer : Result SqlError (Unit {0})) (l l' : AdvisoryLock) (ms : Mutexes)
    → lock answer l ms ≡ waits_inside l'
    → (is_held l.lock_id ms ≡ true) × (l'.lock_id ≡ l.lock_id)
unfolding lock lock_mutex
lock_waits (ok a) l l' ms h = absurd (ground arith)
lock_waits (err e) l l' ms h = (ground arith, ground arith)

-- One of the locks holds the mutex.
abbrev pub HolderAmong : ℤ → List AdvisoryLock → Type 0
HolderAmong id ls =
    (before : List AdvisoryLock) × (l : AdvisoryLock) × (after : List AdvisoryLock) × (ls
      ≡ before ++ l ∷ after)
    × (holds id l ≡ true)

holder_among : (id : ℤ) (ls : List AdvisoryLock) → count_holders id ls ≡ 1 → HolderAmong id ls
holder_among id [] h = absurd (omega (arith, h))
holder_among id (l ∷ ls) h = elim (Bool-cases (holds id l)) [
  | inl y ↦ ([], l, ls, refl, y)
  | inr n ↦
      let (before, l', after, e, y) = holder_among id ls (omega (arith, h, ap bit n)) in
      (l ∷ before, l', after, ap (λ x. l ∷ x) e, y)
]

-- After the holder has unlocked, the call that waits, with what it has left of its lock, gets the mutex.
abbrev pub GoesOn : AdvisoryLock → AdvisoryLock → Mutexes → Type 0
GoesOn waiting holder ms =
    (reply : Result SqlError Bool)
    → (r : Option LockError) × (holder' : AdvisoryLock) × (ms' : Mutexes) × (unlock reply holder ms
        ≡ returns r holder' ms')
      × ((l : AdvisoryLock) × (ms'' : Mutexes) × (lock_mutex waiting ms' ≡ returns none l ms'')
          × (l.locked ≡ true))

unlock-GoesOn :
    (waiting holder : AdvisoryLock) (ms : Mutexes)
    → holds waiting.lock_id holder ≡ true
    → IsSound holder
    → is_held waiting.lock_id ms ≡ true
    → GoesOn waiting holder ms
unfolding unlock lock_mutex
unlock-GoesOn waiting holder ms h sound held reply =
    let y : holder.locked ≡ true = ground (arith, h) in
    let f : holder.is_fallback ≡ true = ground (arith, h) in
    let m = idle_mu holder y sound in
    let same : eq_ℤ holder.lock_id waiting.lock_id ≡ true = ground (arith, h) in
    let here : is_held holder.lock_id ms ≡ true =
      ground (arith, held, (eq_ℤ_iff holder.lock_id waiting.lock_id).0 same) in
    let open_again : is_held waiting.lock_id (insert holder.lock_id false ms) ≡ false =
      ground (arith, is_held-insert holder.lock_id waiting.lock_id false ms, same) in
    rw (m, y, unlock)
      (rw f (rw here (_, _, _, refl, rw (open_again, lock_mutex) (_, _, refl, refl))))

-- However the calls of any number of locks have interleaved, a call of `Lock` that waits for the mutex of its id, of
-- one of them or of a new one, waits for exactly one lock of the process, and can go on: whatever the server replies,
-- a call of `Unlock` of that lock returns, and the waiting call then gets the mutex and returns without an error,
-- with its lock locked.
pub lock-Progress :
    (p : Process) (answer : Result SqlError (Unit {0})) (l waiting : AdvisoryLock)
    → Reachable p
    → lock answer l p.mutexes ≡ waits_inside waiting
    → (count_holders l.lock_id p.locks ≡ 1)
      × ((before : List AdvisoryLock) × (holder : AdvisoryLock) × (after : List AdvisoryLock)
          × (p.locks ≡ before ++ holder ∷ after)
          × GoesOn waiting holder p.mutexes)
lock-Progress p answer l waiting r h =
    let (held, same) = lock_waits answer l waiting p.mutexes h in
    let (sound, balanced) = Reachable-Invariant p r in
    let balance = balanced l.lock_id in
    let one : count_holders l.lock_id p.locks ≡ 1 = ground (arith, balance, held) in
    let (before, holder, after, e, y) = holder_among l.lock_id p.locks one in
    let fine = IsSound-here before after holder (subst (All IsSound) e sound) in
    let on = unlock-GoesOn waiting holder p.mutexes (rw same y) fine (rw same held) in
    (one, (before, holder, after, e, on))
