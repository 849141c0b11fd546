-- ===== src/Status/Agreement.antt =====
-- The exit code of `status` against what `plan` and `apply` compute from the same files.
use schemago.Base.{
  ◌≡◌, refl, sym, subst, ◌∙◌, ◌↔◌, true, false, Option, none, some, List, [], ◌∷◌, arith, All,
  All-map, All-zip, Sorted, Bool-cases, inl, inr, ok,
}
use mathlib.Core.Bool.{false≢true}
use schemago.Base.Int.{ℤ, eq_ℤ, eq_ℤ_iff}
use schemago.Text.{is_empty}
use schemago.Files.{Files}
use schemago.Map.{last_with}
use schemago.Map.Last.{last_with-All, last_with_key, has_key_self}
use schemago.Map.Keys.{has_key, member, last_with-none, last_with-some}
use schemago.Migration.Filename.{MigrationFile}
use schemago.Migration.Order.Sorted.{IsOther}
use schemago.History.{AppliedMigration}
use schemago.History.Pending.{disc_checksum, is_mismatch, compute_pending}
use schemago.History.Pending.Exact.{file_version, record_version, IsPresent, IsIntact, is_drifted}
use schemago.Status.{Item, exit_code, build_report}
use schemago.Status.Items.{Fits, Describes, IsKnown, item_versions, build_report-Describes}
use schemago.Status.UpToDate.{IsUpToDate, compute_pending-IsUpToDate, last_with-distinct}
use schemago.Status.Counts.{IsClean, exit_code-build_report}

-- Discovery has computed the file's checksum.
abbrev pub HasChecksum : MigrationFile → Type 0
HasChecksum disc = is_empty disc.checksum ≡ false

disc_checksum_lem :
    (fs : Files) (disc : MigrationFile) → HasChecksum disc → disc_checksum fs disc ≡ disc.checksum
unfolding disc_checksum
disc_checksum_lem fs disc h = rw h

-- The item of a version that a report has.
item_of :
    {P : Item → Type 0} (v : ℤ) (items : List Item)
    → member v (item_versions items) ≡ true
    → All P items
    → (item : Item) × (item.version ≡ v) × P item
item_of v [] m h = absurd (cc m)
item_of v (item ∷ items) m h = elim (Bool-cases (eq_ℤ item.version v)) [
  | inl e ↦ (item, (eq_ℤ_iff item.version v).0 e, h.0)
  | inr e ↦ item_of v items (ground arith) h.1
]

module _ (fs : Files) (discovered : List MigrationFile) (applied : List AppliedMigration) where
  IsClean-of_up_to_date :
      All HasChecksum discovered
      → IsUpToDate fs discovered applied
      → (item : Item) → Describes discovered applied item
      → IsClean item
  IsClean-of_up_to_date c u item h =
      go (last_with file_version item.version discovered) refl
        (last_with record_version item.version applied) refl h
    where
      go :
          (d : Option MigrationFile)
          → last_with file_version item.version discovered ≡ d
          → (a : Option AppliedMigration) → last_with record_version item.version applied ≡ a
          → Fits d a item
          → IsClean item
      go (some d) p (some a) q f =
          let key = last_with_key file_version item.version discovered p in
          let intact =
            last_with-All file_version (IsIntact fs applied) item.version discovered p u.2 in
          let recorded : last_with record_version d.version applied ≡ some a = rw key q in
          let known = last_with-All file_version HasChecksum item.version discovered p c in
          let same : is_mismatch a.checksum d.checksum ≡ false =
            rw (disc_checksum_lem fs d known) at (rw (recorded, is_drifted) at intact) in
          f.0 ∙ rw same
      go (some d) p none q f =
          let key = last_with_key file_version item.version discovered p in
          let has =
            last_with-All file_version (λ disc. has_key record_version disc.version applied ≡ true)
              item.version discovered p u.1 in
          absurd (
            false≢true (sym (last_with-none record_version item.version applied q) ∙ rw key at has))
      go none p (some a) q f =
          let key = last_with_key record_version item.version applied q in
          let has =
            last_with-All record_version (IsPresent discovered) item.version applied q u.0 in
          absurd (
            false≢true
              (sym (last_with-none file_version item.version discovered p) ∙ rw key at has))
      go none p none q f = absurd f

  -- A clean item has both a file and a record, with no mismatch.
  clean_item :
      (item : Item)
      → Describes discovered applied item
      → IsClean item
      → (d : MigrationFile) × (a : AppliedMigration) × (last_with file_version item.version
            discovered
          ≡ some d)
        × (last_with record_version item.version applied ≡ some a)
        × (is_mismatch a.checksum d.checksum ≡ false)
  clean_item item h clean =
      go (last_with file_version item.version discovered) refl
        (last_with record_version item.version applied) refl h
    where
      go :
          (d' : Option MigrationFile)
          → last_with file_version item.version discovered ≡ d'
          → (a' : Option AppliedMigration) → last_with record_version item.version applied ≡ a'
          → Fits d' a' item
          → (d : MigrationFile) × (a : AppliedMigration) × (last_with file_version item.version
                discovered
              ≡ some d)
            × (last_with record_version item.version applied ≡ some a)
            × (is_mismatch a.checksum d.checksum ≡ false)
      go (some d) p (some a) q f = (d, a, p, q, ground (arith, clean, f.0))
      go (some d) p none q f = absurd (ground (arith, clean, f.0))
      go none p (some a) q f = absurd (ground (arith, clean, f.0))
      go none p none q f = absurd f

  -- The file and the record of a version, if the report is clean.
  abbrev Recorded : ℤ → Type 0
  Recorded v =
      (d : MigrationFile) × (a : AppliedMigration) × (last_with file_version v discovered ≡ some d)
      × (last_with record_version v applied ≡ some a)
      × (is_mismatch a.checksum d.checksum ≡ false)

  abbrev AllRecorded : Type 0
  AllRecorded = (v : ℤ) → IsKnown discovered applied v → Recorded v

  recorded_of_clean : All IsClean (build_report discovered applied).items → AllRecorded
  recorded_of_clean clean v known =
      let items = (build_report discovered applied).items in
      let (ascending, members, described) = build_report-Describes discovered applied in
      let (item, e, both) =
        item_of v items (members v ∙ known)
          (All-zip (Describes discovered applied) IsClean items described clean) in
      subst Recorded e (clean_item item both.0 both.1)

  IsPresent-of_Recorded : AllRecorded → All (IsPresent discovered) applied
  IsPresent-of_Recorded all =
      All-map (λ a. has_key record_version a.version applied ≡ true) (IsPresent discovered) applied
        (λ a h.
          let (d, b, p, q, m) = all a.version (ground (arith, h)) in
          last_with-some file_version a.version discovered d p)
        (has_key_self record_version applied)

  has_record_of_recorded :
      AllRecorded → All (λ disc. has_key record_version disc.version applied ≡ true) discovered
  has_record_of_recorded all =
      All-map (λ d. has_key file_version d.version discovered ≡ true) _ discovered
        (λ f h.
          let (d, a, p, q, m) = all f.version (ground (arith, h)) in
          last_with-some record_version f.version applied a q)
        (has_key_self file_version discovered)

  abbrev IsLast : MigrationFile → Type 0
  IsLast disc =
      (last_with file_version disc.version discovered ≡ some disc)
      × (has_key file_version disc.version discovered ≡ true)
      × HasChecksum disc

  IsIntact-of_Recorded :
      AllRecorded → (disc : MigrationFile) → IsLast disc → IsIntact fs applied disc
  IsIntact-of_Recorded all disc (last, has, known) =
      let (d, a, p, q, m) = all disc.version (ground (arith, has)) in
      let same : d ≡ disc = ground (arith, p, last) in
      rw (q, is_drifted)
        (rw (disc_checksum_lem fs disc known)
          (subst (λ x. is_mismatch a.checksum x.checksum ≡ false) same m))

  All-IsLast : Sorted IsOther discovered → All HasChecksum discovered → All IsLast discovered
  All-IsLast distinct known =
      All-map _ IsLast discovered (λ d h. (h.0, h.1.0, h.1.1))
        (All-zip (λ d. last_with file_version d.version discovered ≡ some d)
          (λ d. (has_key file_version d.version discovered ≡ true) × HasChecksum d) discovered
          (last_with-distinct discovered distinct)
          (All-zip (λ d. has_key file_version d.version discovered ≡ true) HasChecksum discovered
            (has_key_self file_version discovered) known))

  -- For files of different versions whose checksums discovery has computed, `status` exits with 0
  -- exactly if `ComputePending` finds no error and nothing to apply.
  pub exit_code-compute_pending :
      Sorted IsOther discovered
      → All HasChecksum discovered
      → (exit_code (build_report discovered applied) ≡ 0)
        ↔ (compute_pending fs discovered applied ≡ ok [])
  exit_code-compute_pending distinct known =
      let items = (build_report discovered applied).items in
      let described = (build_report-Describes discovered applied).2 in
      (
        λ e.
            let all = recorded_of_clean ((exit_code-build_report discovered applied).0 e) in
            (compute_pending-IsUpToDate fs discovered applied).1 (
              IsPresent-of_Recorded all,
              has_record_of_recorded all,
              All-map IsLast (IsIntact fs applied) discovered (IsIntact-of_Recorded all)
                  (All-IsLast distinct known),
            ),
        λ e. (exit_code-build_report discovered applied).1 (
            All-map (Describes discovered applied) IsClean items
              (IsClean-of_up_to_date known ((compute_pending-IsUpToDate fs discovered applied).0 e))
              described),
      )
