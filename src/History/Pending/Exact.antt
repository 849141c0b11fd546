-- ===== src/History/Pending/Exact.antt =====
-- `ComputePending` against a description with no maps.
use schemago.Base.{
  ◌≡◌, refl, sym, ap, ◌∙◌, ◌⊎◌, Bool, true, false, none, some, List, [], ◌∷◌, Result, ok, err,
  ◌>>=◌, if◌then◌else◌, All, inl, inr, Bool-cases, Option-cases,
}
use schemago.Base.Int.{ℤ}
use schemago.Files.{Files}
use schemago.Map.{lookup, index, last_with, lookup-index}
use schemago.Map.Keys.{has_key, last_with-none, last_with-some}
use schemago.Migration.Filename.{MigrationFile}
use schemago.History.{AppliedMigration}
use schemago.History.Pending.{
  PendingError, missing_migration_file, checksum_mismatch, disc_checksum, is_mismatch,
  check_present, collect_pending, compute_pending,
}

abbrev pub file_version : MigrationFile → ℤ
file_version disc = disc.version

abbrev pub record_version : AppliedMigration → ℤ
record_version app = app.version

-- The files whose versions are in no record, in their order.
abbrev pub unapplied : List AppliedMigration → List MigrationFile → List MigrationFile
unapplied applied [] = []
unapplied applied (disc ∷ discovered) =
    let rest = unapplied applied discovered in
    if has_key record_version disc.version applied then rest else disc ∷ rest

-- The record has a file of its version.
abbrev pub IsPresent : List MigrationFile → AppliedMigration → Type 0
IsPresent discovered app = has_key file_version app.version discovered ≡ true

-- The last record of the file's version, if any, is at odds with the file.
abbrev pub is_drifted : Files → List AppliedMigration → MigrationFile → Bool
is_drifted fs applied disc = elim (last_with record_version disc.version applied) [
  | none ↦ false
  | some app ↦ is_mismatch app.checksum (disc_checksum fs disc)
]

abbrev pub IsIntact : Files → List AppliedMigration → MigrationFile → Type 0
IsIntact fs applied disc = is_drifted fs applied disc ≡ false

-- A record that has no file, as the error cites it.
abbrev pub IsMissing : List MigrationFile → List AppliedMigration → PendingError → Type 0
IsMissing discovered applied e =
    (app : AppliedMigration) × (e ≡ missing_migration_file app.version app.name)
    × (has_key file_version app.version discovered ≡ false)
    × ¬ All (IsPresent discovered) applied

abbrev PresentVerdict :
    List MigrationFile → List AppliedMigration → Result PendingError (Unit {0}) → Type 0
PresentVerdict discovered applied (ok _) = All (IsPresent discovered) applied
PresentVerdict discovered applied (err e) = IsMissing discovered applied e

PresentVerdict-cons :
    (discovered : List MigrationFile) (app : AppliedMigration) (applied : List AppliedMigration)
    (r : Result PendingError (Unit {0}))
    → IsPresent discovered app
    → PresentVerdict discovered applied r
    → PresentVerdict discovered (app ∷ applied) r
PresentVerdict-cons discovered app applied (ok _) p h = (p, h)
PresentVerdict-cons discovered app applied (err e) p (a, q, m, h) = (a, q, m, λ all. h all.1)

check_present-Verdict :
    (discovered : List MigrationFile) (applied : List AppliedMigration)
    → PresentVerdict discovered applied (check_present (index file_version discovered) applied)
unfolding check_present
check_present-Verdict discovered [] = tt
check_present-Verdict discovered (app ∷ applied) =
    let found = lookup app.version (index file_version discovered) in
    let last = lookup-index file_version app.version discovered in
    elim (Option-cases found) [
      | inl e ↦
          let no_file = last_with-none file_version app.version discovered (sym last ∙ e) in
          rw (e, check_present) (app, refl, no_file, λ all. cc (no_file, all.0))
      | inr (disc, e) ↦
          let file = last_with-some file_version app.version discovered disc (sym last ∙ e) in
          rw (e, check_present)
            (PresentVerdict-cons discovered app applied _ file
              (check_present-Verdict discovered applied))
    ]

-- A file that differs from its record, as the error cites it.
abbrev pub IsMismatch : Files → List MigrationFile → List AppliedMigration → PendingError → Type 0
IsMismatch fs discovered applied e =
    (disc : MigrationFile) × (app : AppliedMigration) × (e
      ≡ checksum_mismatch disc.filename disc.version app.checksum (disc_checksum fs disc))
    × (last_with record_version disc.version applied ≡ some app)
    × ¬ All (IsIntact fs applied) discovered

abbrev CollectVerdict :
    Files
    → List MigrationFile
    → List AppliedMigration
    → Result PendingError (List MigrationFile)
    → Type 0
CollectVerdict fs discovered applied (ok out) =
    (out ≡ unapplied applied discovered) × All (IsIntact fs applied) discovered
CollectVerdict fs discovered applied (err e) = IsMismatch fs discovered applied e

module _ (fs : Files) (applied : List AppliedMigration) (disc : MigrationFile) where
  CollectVerdict-pending :
      (discovered : List MigrationFile) (r : Result PendingError (List MigrationFile))
      → has_key record_version disc.version applied ≡ false
      → IsIntact fs applied disc
      → CollectVerdict fs discovered applied r
      → CollectVerdict fs (disc ∷ discovered) applied (r >>= λ pending. ok (disc ∷ pending))
  CollectVerdict-pending discovered (ok out) n i h = (rw n (ap (◌∷◌ disc) h.0), (i, h.1))
  CollectVerdict-pending discovered (err e) n i (d, a, p, q, h) = (d, a, p, q, λ all. h all.1)

  CollectVerdict-applied :
      (discovered : List MigrationFile) (r : Result PendingError (List MigrationFile))
      → has_key record_version disc.version applied ≡ true
      → IsIntact fs applied disc
      → CollectVerdict fs discovered applied r
      → CollectVerdict fs (disc ∷ discovered) applied r
  CollectVerdict-applied discovered (ok out) n i h = (rw n h.0, (i, h.1))
  CollectVerdict-applied discovered (err e) n i (d, a, p, q, h) = (d, a, p, q, λ all. h all.1)

collect_pending-Verdict :
    (fs : Files) (discovered : List MigrationFile) (applied : List AppliedMigration)
    → CollectVerdict fs discovered applied
        (collect_pending fs (index record_version applied) discovered)
unfolding collect_pending
collect_pending-Verdict fs [] applied = (refl, tt)
collect_pending-Verdict fs (disc ∷ discovered) applied =
    let rest = collect_pending-Verdict fs discovered applied in
    let last = lookup-index record_version disc.version applied in
    elim (Option-cases (lookup disc.version (index record_version applied))) [
      | inl e ↦
          let no_record : last_with record_version disc.version applied ≡ none = sym last ∙ e in
          rw (e, collect_pending)
            (CollectVerdict-pending fs applied disc discovered _
              (last_with-none record_version disc.version applied no_record)
              (rw (no_record, is_drifted)) rest)
      | inr (app, e) ↦
          let is_last : last_with record_version disc.version applied ≡ some app = sym last ∙ e in
          let has = last_with-some record_version disc.version applied app is_last in
          elim (Bool-cases (is_mismatch app.checksum (disc_checksum fs disc))) [
            | inl bad ↦
                rw (e, collect_pending)
                  (rw bad
                    (disc, app, refl, is_last, λ all. cc (bad, rw (is_last, is_drifted) at all.0)))
            | inr good ↦
                rw (e, collect_pending)
                  (rw good (
                    CollectVerdict-applied fs applied disc discovered _ has
                      (rw (is_last, is_drifted) good) rest))
          ]
    ]

-- What each result says of the files and the records.
abbrev pub Verdict :
    Files
    → List MigrationFile
    → List AppliedMigration
    → Result PendingError (List MigrationFile)
    → Type 0
Verdict fs discovered applied (ok out) =
    (out ≡ unapplied applied discovered)
    × All (IsPresent discovered) applied
    × All (IsIntact fs applied) discovered
Verdict fs discovered applied (err e) =
    IsMissing discovered applied e
    ⊎ (All (IsPresent discovered) applied × IsMismatch fs discovered applied e)

pub compute_pending-Verdict :
    (fs : Files) (discovered : List MigrationFile) (applied : List AppliedMigration)
    → Verdict fs discovered applied (compute_pending fs discovered applied)
unfolding compute_pending
compute_pending-Verdict fs discovered applied =
    go (check_present (index file_version discovered) applied)
      (check_present-Verdict discovered applied)
      (collect_pending fs (index record_version applied) discovered)
      (collect_pending-Verdict fs discovered applied)
  where
    go :
        (p : Result PendingError (Unit {0}))
        → PresentVerdict discovered applied p
        → (r : Result PendingError (List MigrationFile)) → CollectVerdict fs discovered applied r
        → Verdict fs discovered applied (p >>= λ _. r)
    go (ok _) hp (ok out) hr = (hr.0, hp, hr.1)
    go (ok _) hp (err e) hr = inr (hp, hr)
    go (err e) hp r hr = inl hp
