-- ===== src/History/Pending/Unapplied.antt =====
-- The files that no record is of.
use schemago.Base.{◌≡◌, refl, true, false, List, [], ◌∷◌, All, Sorted, Bool-cases, inl, inr}
use schemago.Map.Keys.{has_key}
use schemago.Migration.Filename.{MigrationFile}
use schemago.Migration.Order.Sorted.{IsOther}
use schemago.History.{AppliedMigration}
use schemago.History.Pending.Exact.{record_version, unapplied}

pub All-unapplied {κ} :
    (applied : List AppliedMigration) (P : MigrationFile → Type κ) (files : List MigrationFile)
    → All P files
    → All P (unapplied applied files)
All-unapplied applied P [] h = tt
All-unapplied applied P (f ∷ files) h =
    elim (Bool-cases (has_key record_version f.version applied)) [
      | inl e ↦ rw e (All-unapplied applied P files h.1)
      | inr e ↦ rw e (h.0, All-unapplied applied P files h.1)
    ]

pub none_unapplied :
    (history : List AppliedMigration) (files : List MigrationFile)
    → All (λ d. has_key record_version d.version history ≡ true) files
    → unapplied history files ≡ []
none_unapplied history [] h = refl
none_unapplied history (f ∷ files) h = rw (h.0) (none_unapplied history files h.1)

pub Sorted-unapplied :
    (applied : List AppliedMigration) (files : List MigrationFile)
    → Sorted IsOther files
    → Sorted IsOther (unapplied applied files)
Sorted-unapplied applied [] s = tt
Sorted-unapplied applied (f ∷ files) s =
    elim (Bool-cases (has_key record_version f.version applied)) [
      | inl e ↦ rw e (Sorted-unapplied applied files s.1)
      | inr e ↦
          rw e (All-unapplied applied (IsOther f) files s.0, Sorted-unapplied applied files s.1)
    ]

pub unapplied-unrecorded :
    (applied : List AppliedMigration) (files : List MigrationFile)
    → All (λ f. has_key record_version f.version applied ≡ false) (unapplied applied files)
unapplied-unrecorded applied [] = tt
unapplied-unrecorded applied (f ∷ files) =
    elim (Bool-cases (has_key record_version f.version applied)) [
      | inl e ↦ rw e (unapplied-unrecorded applied files)
      | inr e ↦ rw e (e, unapplied-unrecorded applied files)
    ]
