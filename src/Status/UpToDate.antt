-- ===== src/Status/UpToDate.antt =====
-- `ComputePending` where nothing is left to apply, and files of different versions.
use schemago.Base.{
  ◌≡◌, refl, sym, subst, ◌∙◌, ◌↔◌, true, none, some, List, [], ◌∷◌, arith, ap, All, All-map, Sorted,
  inl, inr, Result, ok, err,
}
use schemago.Base.Int.{eq_ℤ_refl}
use schemago.Files.{Files}
use schemago.Map.{last_with}
use schemago.Map.Keys.{has_key}
use schemago.Migration.Filename.{MigrationFile}
use schemago.Migration.Order.Sorted.{IsOther}
use schemago.History.{AppliedMigration}
use schemago.History.Pending.{PendingError, compute_pending}
use schemago.History.Pending.Exact.{
  file_version, record_version, unapplied, IsPresent, IsIntact, Verdict, compute_pending-Verdict,
}

last_with-other :
    (disc : MigrationFile) (files : List MigrationFile)
    → All (IsOther disc) files
    → last_with file_version disc.version files ≡ none
unfolding last_with
last_with-other disc [] h = refl
last_with-other disc (f ∷ files) h = rw (last_with-other disc files h.1) (ground (arith, h.0))

-- Where versions differ, each file is the last one of its version.
pub last_with-distinct :
    (files : List MigrationFile)
    → Sorted IsOther files
    → All (λ disc. last_with file_version disc.version files ≡ some disc) files
unfolding last_with
last_with-distinct [] s = tt
last_with-distinct (f ∷ files) s = (
  rw (last_with-other f files s.0, last_with) (rw (eq_ℤ_refl f.version)),
  All-map (λ disc. last_with file_version disc.version files ≡ some disc) _ files
      (λ disc e. rw (e, last_with)) (last_with-distinct files s.1),
)

module _ (fs : Files) (discovered : List MigrationFile) (applied : List AppliedMigration) where
  -- All that `ComputePending` checks, with nothing left to apply.
  abbrev pub IsUpToDate : Type 0
  IsUpToDate =
      All (IsPresent discovered) applied
      × All (λ disc. has_key record_version disc.version applied ≡ true) discovered
      × All (IsIntact fs applied) discovered

  unapplied-nil :
      (files : List MigrationFile)
      → (unapplied applied files ≡ [])
        ↔ All (λ disc. has_key record_version disc.version applied ≡ true) files
  unapplied-nil [] = (λ e. tt, λ h. refl)
  unapplied-nil (f ∷ files) = ground (arith, unapplied-nil files)

  pub compute_pending-IsUpToDate : (compute_pending fs discovered applied ≡ ok []) ↔ IsUpToDate
  compute_pending-IsUpToDate = (
    λ e.
        let (out, p, i) =
          subst (Verdict fs discovered applied) e (compute_pending-Verdict fs discovered applied) in
        (p, (unapplied-nil discovered).0 (sym out), i),
    λ u.
        go u (compute_pending fs discovered applied)
          (compute_pending-Verdict fs discovered applied),
  )
    where
      go :
          IsUpToDate
          → (r : Result PendingError (List MigrationFile)) → Verdict fs discovered applied r
          → r ≡ ok []
      go u (ok out) h = ap ok (h.0 ∙ (unapplied-nil discovered).1 u.1)
      go u (err e) (inl (a, p, n, m)) = absurd (m u.0)
      go u (err e) (inr (q, (d, a, p, n, m))) = absurd (m u.2)
