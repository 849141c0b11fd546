-- ===== src/History/Pending/Grown.antt =====
-- `ComputePending` on a history into which records of pending migrations are inserted, wherever their
-- order puts them.
use schemago.Base.{
  ◌≡◌, refl, sym, ap, ◌∙◌, subst, true, false, List, [], ◌∷◌, ◌++◌, ok, All, All-map, All-zip,
  Sorted, Bool-cases, inl, inr, arith,
}
use schemago.Base.Int.{eq_ℤ, eq_ℤ_iff}
use schemago.Files.{Files}
use schemago.Map.Keys.{has_key}
use schemago.Map.Last.{has_key_self}
use schemago.Map.Inserted.{
  Inserted, All-Inserted, has_key-Inserted, last_with-Inserted_other, last_with-Inserted_new,
}
use schemago.Migration.Filename.{MigrationFile}
use schemago.Migration.Order.Sorted.{IsOther}
use schemago.History.{AppliedMigration}
use schemago.History.Pending.{disc_checksum, is_mismatch, compute_pending}
use schemago.History.Pending.Exact.{
  file_version, record_version, unapplied, IsPresent, is_drifted, IsIntact, compute_pending-Verdict,
}
use schemago.History.Pending.Unapplied.{All-unapplied}
use schemago.History.Pending.Done.{Agree, All-pairs, Sorted-Agree, pending_left, is_mismatch_refl}

module _ (fs : Files) where
  -- A record of the file is inserted, of a version that was not recorded.
  pub record Records (file : MigrationFile) (before after : List AppliedMigration) : Type 0 where
    pub app : AppliedMigration
    pub version_kept : app.version ≡ file.version
    pub checksum_kept : app.checksum ≡ disc_checksum fs file
    pub unrecorded : has_key record_version file.version before ≡ false
    pub inserted : Inserted app before after

  -- Records of the files are inserted one after the other.
  abbrev pub RecordsAll :
      List MigrationFile → List AppliedMigration → List AppliedMigration → Type 0
  RecordsAll [] before after = after ≡ before
  RecordsAll (file ∷ files) before after =
      (mid : List AppliedMigration) × Records file before mid × RecordsAll files mid after

  -- The file is as its record, and of one checksum with each pending one of its version.
  abbrev Agrees : List AppliedMigration → List MigrationFile → MigrationFile → Type 0
  Agrees history pending d = IsIntact fs history d × All (Agree fs d) pending

  -- What the checks of `ComputePending` ask of the history, with what is pending by it.
  abbrev Consistent : List MigrationFile → List AppliedMigration → List MigrationFile → Type 0
  Consistent files history pending =
      (unapplied history files ≡ pending)
      × All (IsPresent files) history
      × All (Agrees history pending) files
      × All (λ g. has_key file_version g.version files ≡ true) pending

  -- A record of another version does not make a file applied.
  unapplied-Records_other :
      (file : MigrationFile) (files : List MigrationFile) {before after : List AppliedMigration}
      → Records file before after
      → All (IsOther file) files
      → unapplied after files ≡ unapplied before files
  unapplied-Records_other file [] r o = refl
  unapplied-Records_other file (d ∷ files) {before} {after} r o =
      let rest = unapplied-Records_other file files r o.1 in
      let eq = has_key-Inserted record_version d.version r.inserted in
      let kept = r.version_kept in
      let other : eq_ℤ file.version d.version ≡ false = o.0 in
      let same : has_key record_version d.version after ≡ has_key record_version d.version before =
        rw (eq, kept, other) refl in
      rw (same, rest) refl

  -- The record of the first pending file leaves the others pending.
  unapplied-Records :
      (file : MigrationFile) (pending files : List MigrationFile)
      {before after : List AppliedMigration}
      → Records file before after
      → Sorted IsOther files
      → unapplied before files ≡ file ∷ pending
      → unapplied after files ≡ pending
  unapplied-Records file pending [] r s h = absurd (cc h)
  unapplied-Records file pending (d ∷ files) {before} {after} r s h =
      let eq = has_key-Inserted record_version d.version r.inserted in
      elim (Bool-cases (has_key record_version d.version before)) [
        | inl e ↦
            let same : has_key record_version d.version after ≡ true = ground (arith, eq, e) in
            rw same (unapplied-Records file pending files r s.1 (rw e at h))
        | inr e ↦
            let h' : d ∷ unapplied before files ≡ file ∷ pending = rw e at h in
            let first : d ≡ file = cc h' in
            let rest : unapplied before files ≡ pending = cc h' in
            let now : eq_ℤ r.app.version d.version ≡ true =
              (eq_ℤ_iff r.app.version d.version).1
                (r.version_kept ∙ ap (λ g. g.version) (sym first)) in
            let same : has_key record_version d.version after ≡ true = ground (arith, eq, now) in
            rw same (
              unapplied-Records_other file files r (subst (λ g. All (IsOther g) files) first s.0)
              ∙ rest)
      ]

  IsIntact-Records :
      (d file : MigrationFile) {before after : List AppliedMigration}
      → Agree fs d file
      → Records file before after
      → IsIntact fs before d
      → IsIntact fs after d
  IsIntact-Records d file {before} {after} agree r h =
      elim (Bool-cases (eq_ℤ file.version d.version)) [
        | inr e ↦
            let other : eq_ℤ r.app.version d.version ≡ false = rw (r.version_kept) e in
            let same = last_with-Inserted_other record_version d.version r.inserted other in
            rw (same, is_drifted) h
        | inl e ↦
            let eq : file.version ≡ d.version = (eq_ℤ_iff file.version d.version).0 e in
            let found =
              last_with-Inserted_new record_version d.version r.inserted (r.version_kept ∙ eq)
                (subst (λ v. has_key record_version v before ≡ false) eq r.unrecorded) in
            let fits : r.app.checksum ≡ disc_checksum fs d =
              r.checksum_kept ∙ sym (agree (sym eq)) in
            rw (found, is_drifted)
              (subst (λ c. is_mismatch r.app.checksum c ≡ false) fits
                (is_mismatch_refl r.app.checksum))
      ]

  Consistent-Records :
      (files : List MigrationFile) (file : MigrationFile) (pending : List MigrationFile)
      {before after : List AppliedMigration}
      → Sorted IsOther files
      → Records file before after
      → Consistent files before (file ∷ pending)
      → Consistent files after pending
  Consistent-Records files file pending {before} {after} s r (left, present, sound, listed) = (
    unapplied-Records file pending files r s left,
    All-Inserted (IsPresent files) r.inserted (rw (r.version_kept) listed.0) present,
    All-map (Agrees before (file ∷ pending)) (Agrees after pending) files
        (λ d (intact, agree). (IsIntact-Records d file agree.0 r intact, agree.1)) sound,
    listed.1,
  )

  RecordsAll-Consistent :
      (files done left : List MigrationFile) (before after : List AppliedMigration)
      → Sorted IsOther files
      → RecordsAll done before after
      → Consistent files before (done ++ left)
      → Consistent files after left
  RecordsAll-Consistent files [] left before after s r h =
      subst (λ x. Consistent files x left) (sym r) h
  RecordsAll-Consistent files (file ∷ done) left before after s (mid, r, rs) h =
      RecordsAll-Consistent files done left mid after s rs
        (Consistent-Records files file (done ++ left) s r h)

  pending-Consistent :
      (files : List MigrationFile) (history : List AppliedMigration) (pending : List MigrationFile)
      → Sorted IsOther files
      → compute_pending fs files history ≡ ok pending
      → Consistent files history pending
  pending-Consistent files history pending distinct h =
      let (listed, present, intact) = rw h at (compute_pending-Verdict fs files history) in
      let agree =
        All-pairs (Agree fs) files (λ a e. refl) (λ a b p e. sym (p (sym e)))
          (Sorted-Agree fs files distinct) in
      let all : Consistent files history (unapplied history files) = (
        refl,
        present,
        All-zip (IsIntact fs history) (λ d. All (Agree fs d) (unapplied history files)) files intact
            (All-map (λ d. All (Agree fs d) files) (λ d. All (Agree fs d) (unapplied history files))
              files (λ d a. All-unapplied history (Agree fs d) files a) agree),
        All-unapplied history (λ g. has_key file_version g.version files ≡ true) files
            (has_key_self file_version files),
      ) in
      subst (λ n. Consistent files history n) (sym listed) all

  -- If the files have different versions and `ComputePending` returns some of them without an error, then for a history
  -- into which one record of each of the first of these, of its version and its checksum, has been inserted, at
  -- any place, it returns the others, without an error.
  pub compute_pending-RecordsAll :
      (files done left : List MigrationFile) (before after : List AppliedMigration)
      → Sorted IsOther files
      → compute_pending fs files before ≡ ok (done ++ left)
      → RecordsAll done before after
      → compute_pending fs files after ≡ ok left
  compute_pending-RecordsAll files done left before after distinct h r =
      let (rest, present, sound, listed) =
        RecordsAll-Consistent files done left before after distinct r
          (pending-Consistent files before (done ++ left) distinct h) in
      pending_left fs after files left (compute_pending fs files after) rest present
        (All-map (Agrees after left) (λ d. IsIntact fs after d) files (λ d q. q.0) sound)
        (compute_pending-Verdict fs files after)
