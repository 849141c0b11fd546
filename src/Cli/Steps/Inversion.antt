-- ===== src/Cli/Steps/Inversion.antt =====
-- What is known of the steps of a handler that has gone through.
use schemago.Base.{
  ℕ, ◌≡◌, refl, sym, ◌∙◌, ap, Bool, true, List, [], Result, ok, err, ◌⊎◌, inl, inr, Bool-cases,
}
use schemago.Text.{Bytes}
use schemago.Migration.Filename.{MigrationFile}
use schemago.Migration.Discovery.{DiscoverError}
use schemago.Cli.Host.{
  CliError, Host, Machine, Ended, ended, blocks, crashes, Act, continue, ended_with, clean_up,
}
use schemago.Cli.Steps.{stop, check, is_not_exist, discovered_files}

module _ {host : Host} where
  -- Both parts have gone through.
  pub continue_inv :
      {A B : Type 0} (e : Ended host (Result ℕ A)) (f : A → Act host B) {b : B} {m : Machine host}
      → continue e f ≡ ended (ok b) m
      → (a : A) × (m1 : Machine host) × (e ≡ ended (ok a) m1) × (f a m1 ≡ ended (ok b) m)
  continue_inv (ended (ok a) m1) f h = (a, m1, refl, h)
  continue_inv (ended (err code) m1) f h = absurd (cc h)
  continue_inv blocks f h = absurd (cc h)
  continue_inv crashes f h = absurd (cc h)

  cleaned_inv :
      {A : Type 0} (cleanup : Machine host → Ended host (Unit {0})) (r1 : Result ℕ A)
      (m1 : Machine host) (e : Ended host (Unit {0})) {r : Result ℕ A} {m : Machine host}
      → cleanup m1 ≡ e
      → ended_with cleanup r1 m1 ≡ ended r m
      → (r1 ≡ r) × (cleanup m1 ≡ ended tt m)
  cleaned_inv cleanup r1 m1 (ended u m2) e h =
      let h' : ended r1 m2 ≡ _ = rw (e, ended_with) at h in (cc h', e ∙ cc h')
  cleaned_inv cleanup r1 m1 blocks e h = absurd (cc (rw (e, ended_with) at h))
  cleaned_inv cleanup r1 m1 crashes e h = absurd (cc (rw (e, ended_with) at h))

  -- The body and what was deferred have gone through.
  pub clean_up_inv :
      {A : Type 0} (cleanup : Machine host → Ended host (Unit {0})) (e : Ended host (Result ℕ A))
      {r : Result ℕ A} {m : Machine host}
      → clean_up cleanup e ≡ ended r m
      → (m1 : Machine host) × (e ≡ ended r m1) × (cleanup m1 ≡ ended tt m)
  clean_up_inv cleanup (ended r1 m1) h =
      let (same, cleaned) = cleaned_inv cleanup r1 m1 (cleanup m1) refl h in
      (m1, ap (λ x. ended x m1) same, cleaned)
  clean_up_inv cleanup blocks h = absurd (cc h)
  clean_up_inv cleanup crashes h = absurd (cc h)

-- The files that a handler goes on with: those discovered, or none for a directory that does not exist.
abbrev pub Found : Result DiscoverError (List MigrationFile) → List MigrationFile → Type 0
Found r files =
    (r ≡ ok files) ⊎ ((files ≡ []) × (e : DiscoverError) × (r ≡ err e) × (is_not_exist e ≡ true))

-- The files that a handler goes on with are determined by the directory.
pub Found-unique :
    {r : Result DiscoverError (List MigrationFile)} {files files' : List MigrationFile}
    → Found r files
    → Found r files'
    → files ≡ files'
Found-unique (inl e) (inl e') = cc (e, e')
Found-unique (inl e) (inr (empty, x, e', y)) = absurd (cc (e, e'))
Found-unique (inr (empty, x, e, y)) (inl e') = absurd (cc (e, e'))
Found-unique (inr (empty, x, e, y)) (inr (empty', x', e', y')) = empty ∙ sym empty'

module _ (host : Host) (cmd : Bytes) (json : Bool) where
  pub check_inv :
      {E A : Type 0} (wrapped : E → CliError) (r : Result E A) (m : Machine host) {a : A}
      {m1 : Machine host}
      → check host cmd json wrapped r m ≡ ended (ok a) m1
      → (r ≡ ok a) × (m1 ≡ m)
  unfolding stop
  check_inv wrapped (ok a) m h = (cc h, cc h)
  check_inv wrapped (err e) m h = absurd (cc h)

  pub discovered_files_inv :
      (r : Result DiscoverError (List MigrationFile)) (m : Machine host)
      {files : List MigrationFile} {m1 : Machine host}
      → discovered_files host cmd json r m ≡ ended (ok files) m1
      → (m1 ≡ m) × Found r files
  unfolding stop
  discovered_files_inv (ok files) m h = (cc h, inl (cc h))
  discovered_files_inv (err e) m h = elim (Bool-cases (is_not_exist e)) [
    | inl y ↦ let h' : _ ≡ _ = rw (y, discovered_files) at h in (cc h', inr (cc h', e, refl, y))
    | inr n ↦ absurd (cc (rw (n, discovered_files) at h))
  ]

  -- A handler finds those files again.
  pub Found-discovered_files :
      (m : Machine host) {r : Result DiscoverError (List MigrationFile)}
      {files : List MigrationFile}
      → Found r files
      → discovered_files host cmd json r m ≡ ended (ok files) m
  Found-discovered_files m (inl e) = rw e refl
  Found-discovered_files m (inr (empty, x, e, y)) = rw e (rw y (rw empty refl))
