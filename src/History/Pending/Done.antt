-- ===== src/History/Pending/Done.antt =====
-- `ComputePending` and the records that `Apply` makes of the files that it returns.
use schemago.Base.{
  ◌≡◌, refl, sym, ap, ◌∙◌, subst, true, false, ◌||◌, none, some, List, [], ◌∷◌, ◌++◌, map, Result,
  ok, err, All, All-map, All-append, All-zip, Sorted, Bool-cases, Option-cases, inl, inr, arith,
}
use schemago.Base.Int.{ℤ, eq_ℤ_iff, eq_ℤ_refl}
use schemago.Text.{Bytes, eq_bytes_iff}
use schemago.Files.{Files}
use schemago.Map.{last_with}
use schemago.Map.Keys.{has_key}
use schemago.Map.Last.{last_with-All, last_with_key, has_key_self}
use schemago.Migration.Filename.{MigrationFile}
use schemago.Migration.Order.Sorted.{IsOther}
use schemago.History.{Time, AppliedMigration}
use schemago.History.Pending.{PendingError, disc_checksum, is_mismatch, compute_pending}
use schemago.History.Pending.Unapplied.{All-unapplied, none_unapplied}
use schemago.History.Pending.Exact.{
  file_version, record_version, unapplied, IsPresent, is_drifted, IsIntact, Verdict,
  compute_pending-Verdict,
}

-- What holds of an item and itself, is symmetric, and holds along the list, holds of any two items.
pub All-pairs {ℓ κ} :
    {A : Type ℓ} (S : A → A → Type κ) (xs : List A)
    → ((a : A) → S a a)
    → ((a b : A) → S a b → S b a)
    → Sorted S xs
    → All (λ x. All (S x) xs) xs
All-pairs S [] r s h = tt
All-pairs S (x ∷ xs) r s h = (
  (r x, h.0),
  All-map (λ y. S x y × All (S y) xs) (λ y. S y x × All (S y) xs) xs (λ y p. (s x y p.0, p.1))
      (All-zip (S x) (λ y. All (S y) xs) xs h.0 (All-pairs S xs r s h.1)),
)

All-mapped {ℓ κ ι} :
    {A : Type ℓ} {B : Type κ} (P : B → Type ι) (f : A → B) (xs : List A)
    → All (λ x. P (f x)) xs
    → All P (map f xs)
All-mapped P f [] h = tt
All-mapped P f (x ∷ xs) h = (h.0, All-mapped P f xs h.1)

has_key-append {ℓ} :
    {A : Type ℓ} (key : A → ℤ) (v : ℤ) (xs ys : List A)
    → has_key key v (xs ++ ys) ≡ (has_key key v xs || has_key key v ys)
has_key-append key v [] ys = refl
has_key-append key v (x ∷ xs) ys = ground (arith, has_key-append key v xs ys)

last_with-append {ℓ} :
    {A : Type ℓ} (key : A → ℤ) (v : ℤ) (xs ys : List A)
    → last_with key v (xs ++ ys)
      ≡ (elim (last_with key v ys) [ none ↦ last_with key v xs | some y ↦ some y ])
unfolding last_with
last_with-append key v [] ys = ground arith
last_with-append key v (x ∷ xs) ys = ground (arith, last_with-append key v xs ys)

pub is_mismatch_refl : (c : Bytes) → is_mismatch c c ≡ false
is_mismatch_refl c = ground (arith, eq_bytes_iff c c)

module _ (fs : Files) where
  -- Files of one version have one checksum.
  abbrev pub Agree : MigrationFile → MigrationFile → Type 0
  Agree a b = a.version ≡ b.version → disc_checksum fs a ≡ disc_checksum fs b

  Agree-of_IsOther : (a b : MigrationFile) → IsOther a b → Agree a b
  Agree-of_IsOther a b h e = absurd (ground (arith, h, e, eq_ℤ_iff a.version b.version))

  pub Sorted-Agree : (files : List MigrationFile) → Sorted IsOther files → Sorted Agree files
  Sorted-Agree [] h = tt
  Sorted-Agree (f ∷ files) h =
      (All-map (IsOther f) (Agree f) files (Agree-of_IsOther f) h.0, Sorted-Agree files h.1)

  -- The result for a history that passes the checks.
  pub pending_left :
      (history : List AppliedMigration) (files left : List MigrationFile)
      (r : Result PendingError (List MigrationFile))
      → unapplied history files ≡ left
      → All (IsPresent files) history
      → All (IsIntact fs history) files
      → Verdict fs files history r
      → r ≡ ok left
  pending_left history files left (ok out) n p i v = ap ok (v.0 ∙ n)
  pending_left history files left (err e) n p i (inl (app, q, m, h)) = absurd (h p)
  pending_left history files left (err e) n p i (inr (q, (d, app, m, l, h))) = absurd (h i)

module _ (fs : Files) (applied : List AppliedMigration) (at_time : MigrationFile → Time) where
  -- The record that `Apply` makes of a file.
  abbrev pub record_for : MigrationFile → AppliedMigration
  record_for file = record {
    version = file.version;
    name = file.filename;
    applied_at = at_time file;
    checksum = disc_checksum fs file;
  }

  -- The history behind the records of what was pending.
  abbrev pub recorded : List MigrationFile → List AppliedMigration
  recorded pending = applied ++ map record_for pending

  -- One of the records is of the file's version.
  abbrev Known : List MigrationFile → MigrationFile → Type 0
  Known pending d =
      (has_key record_version d.version applied
        || has_key record_version d.version (map record_for pending))
      ≡ true

  unapplied-Known : (files : List MigrationFile) → All (Known (unapplied applied files)) files
  unapplied-Known [] = tt
  unapplied-Known (f ∷ files) = elim (Bool-cases (has_key record_version f.version applied)) [
    | inl e ↦
        let same : unapplied applied (f ∷ files) ≡ unapplied applied files = rw e refl in
        subst (λ n. All (Known n) (f ∷ files)) (sym same) (rw e refl, unapplied-Known files)
    | inr e ↦
        let rest = unapplied applied files in
        let same : unapplied applied (f ∷ files) ≡ f ∷ rest = rw e refl in
        subst (λ n. All (Known n) (f ∷ files)) (sym same)
          (
            ground (arith, eq_ℤ_refl f.version),
            All-map (Known rest) (Known (f ∷ rest)) files (λ d h. ground (arith, h))
                (unapplied-Known files),
          )
  ]

  -- A record of the file's version has its checksum.
  abbrev Fits : MigrationFile → AppliedMigration → Type 0
  Fits d app = app.version ≡ d.version → app.checksum ≡ disc_checksum fs d

  IsIntact-recorded :
      (pending : List MigrationFile) (d : MigrationFile)
      → All (Agree fs d) pending
      → IsIntact fs applied d
      → IsIntact fs (recorded pending) d
  IsIntact-recorded pending d agree before =
      let v = d.version in
      let new = map record_for pending in
      let joined = last_with-append record_version v applied new in
      elim (Option-cases (last_with record_version v new)) [
        | inl e ↦
            let eq : last_with record_version v (applied ++ new)
                ≡ last_with record_version v applied =
              joined ∙ rw e refl in
            rw (eq, is_drifted) before
        | inr (app, e) ↦
            let eq : last_with record_version v (applied ++ new) ≡ some app = joined ∙ rw e refl in
            let same : app.checksum ≡ disc_checksum fs d =
              last_with-All record_version (Fits d) v new e
                (All-mapped (Fits d) record_for pending (
                  All-map (Agree fs d) (λ g. Fits d (record_for g)) pending
                    (λ g a q. sym (a (sym q))) agree))
                (last_with_key record_version v new e) in
            rw (eq, is_drifted)
              (subst (λ c. is_mismatch app.checksum c ≡ false) same (is_mismatch_refl app.checksum))
      ]

  -- If the files have different versions and `ComputePending` returns some of them without an error, then with a record
  -- of each of these behind the history, of its version, its name and its checksum and of any time, it returns that nothing is
  -- pending, without an error.
  pub compute_pending-recorded :
      (files : List MigrationFile) {pending : List MigrationFile}
      → Sorted IsOther files
      → compute_pending fs files applied ≡ ok pending
      → compute_pending fs files (recorded pending) ≡ ok []
  compute_pending-recorded files {pending} distinct h =
      let (listed, present, intact) = rw h at (compute_pending-Verdict fs files applied) in
      let known : All (Known pending) files =
        subst (λ n. All (Known n) files) (sym listed) (unapplied-Known files) in
      let agree =
        All-pairs (Agree fs) files (λ a e. refl) (λ a b p e. sym (p (sym e)))
          (Sorted-Agree fs files distinct) in
      pending_left fs (recorded pending) files [] (compute_pending fs files (recorded pending))
        (none_unapplied (recorded pending) files (
          All-map (Known pending) (λ d. has_key record_version d.version (recorded pending) ≡ true)
            files
            (λ d e. has_key-append record_version d.version applied (map record_for pending) ∙ e)
            known))
        (All-append (IsPresent files) applied (map record_for pending) present (
          All-mapped (IsPresent files) record_for pending (
            subst (λ n. All (λ g. has_key file_version g.version files ≡ true) n) (sym listed)
              (All-unapplied applied (λ g. has_key file_version g.version files ≡ true) files
                (has_key_self file_version files)))))
        (All-map (λ d. All (Agree fs d) files × IsIntact fs applied d)
          (IsIntact fs (recorded pending)) files
          (λ d q.
            IsIntact-recorded pending d
              (subst (λ n. All (Agree fs d) n) (sym listed)
                (All-unapplied applied (Agree fs d) files q.0))
              q.1)
          (All-zip (λ d. All (Agree fs d) files) (IsIntact fs applied) files agree intact))
        (compute_pending-Verdict fs files (recorded pending))
