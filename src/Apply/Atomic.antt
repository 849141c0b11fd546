-- ===== src/Apply/Atomic.antt =====
-- Runs of `Apply` that fail, beside runs over the files before the failed one.
use schemago.Base.{
  ◌≡◌, refl, sym, ap, ◌∙◌, Option, none, some, List, [], ◌∷◌, ◌++◌, map, All, Bool-cases,
  Result-cases, inl, inr,
}
use schemago.Text.{Bytes}
use schemago.Files.{Files}
use schemago.Migration.Filename.{MigrationFile}
use schemago.Database.{Runtime}
use schemago.Database.Transactions.{Transactions}
use schemago.Apply.{RunResult, RunError, Run, grow}
use schemago.Apply.Step.{Handle, apply_file, is_already_applied, apply_files}
use schemago.Apply.Laws.{KeepsTable, apply_file-Ended}
use schemago.DryRun.Rollback.{IsContained?}

-- The file that a run names as failed, and those it lists as applied.
abbrev pub failed_file : Run → Option MigrationFile
failed_file run = elim run.result [
  | none ↦ none
  | some res ↦ elim res.failed [ none ↦ none | some m ↦ some m.file ]
]

abbrev pub applied_files : Run → List MigrationFile
applied_files run = elim run.result [ none ↦ [] | some res ↦ map (λ m. m.file) res.applied ]

module _ (rt : Runtime) (tx : Transactions rt) (fs : Files) (k : KeepsTable rt tx fs) where
  -- The loop of `Apply` failed at `file`, with `before` in front of it.
  pub record Stopped (db : Handle) (table : Bytes) (files : List (Option MigrationFile))
      (res : RunResult) (w : rt.World) : Type 0 where
    pub before : List (Option MigrationFile)
    pub file : MigrationFile
    pub after : List (Option MigrationFile)
    pub splits : files ≡ before ++ some file ∷ after
    pub went_through : (apply_files rt fs db table res before w).0.error ≡ none
    pub committed :
        tx.committed (apply_files rt fs db table res files w).1
        ≡ tx.committed (apply_files rt fs db table res before w).1
    pub named : failed_file (apply_files rt fs db table res files w).0 ≡ some file
    pub listed :
        applied_files (apply_files rt fs db table res files w).0
        ≡ applied_files (apply_files rt fs db table res before w).0

  Stopped-cons :
      (db : Handle) (table : Bytes) (f : Option MigrationFile) (files : List (Option MigrationFile))
      (res res' : RunResult) (w w' : rt.World)
      → ((fs' : List (Option MigrationFile))
          → apply_files rt fs db table res (f ∷ fs') w ≡ apply_files rt fs db table res' fs' w')
      → Stopped db table files res' w'
      → Stopped db table (f ∷ files) res w
  Stopped-cons db table f files res res' w w' step s = record {
    before = f ∷ s.before;
    file = s.file;
    after = s.after;
    splits = ap (◌∷◌ f) s.splits;
    went_through = ap (λ r. r.0.error) (step s.before) ∙ s.went_through;
    committed =
        ap (λ r. tx.committed r.1) (step files)
        ∙ s.committed
        ∙ sym (ap (λ r. tx.committed r.1) (step s.before));
    named = ap (λ r. failed_file r.0) (step files) ∙ s.named;
    listed =
        ap (λ r. applied_files r.0) (step files)
        ∙ s.listed
        ∙ sym (ap (λ r. applied_files r.0) (step s.before));
  }

  -- A run over the files that returns an error stopped at one of them. It leaves committed what a run
  -- over the files in front of that one leaves, which returns no error; it names that file as the
  -- failed one, and lists as applied what that run lists. This takes the laws of transactions, and
  -- that neither the statements on the history table nor those of the files end the transaction.
  pub apply_files-Stopped :
      (db : Handle) (table : Bytes) (files : List (Option MigrationFile)) (res : RunResult)
      (w : rt.World) {e : RunError}
      → All (IsContained? rt tx fs) files
      → (apply_files rt fs db table res files w).0.error ≡ some e
      → Stopped db table files res w
  unfolding apply_files
  apply_files-Stopped db table [] res w all h = absurd (cc h)
  apply_files-Stopped db table (none ∷ files) res w all h =
      Stopped-cons db table none files res res w w (λ fs'. refl)
        (apply_files-Stopped db table files res w all.1 h)
  apply_files-Stopped db table (some f ∷ files) res w all h =
      elim (Bool-cases (is_already_applied rt fs db table f w)) [
        | inl t ↦
            Stopped-cons db table (some f) files res res w w (λ fs'. rw (t, apply_files))
              (apply_files-Stopped db table files res w all.1 (rw (t, apply_files) at h))
        | inr t ↦ elim (Result-cases (apply_file rt fs table f w).0.0) [
          | inl (a, e) ↦
              let res' = grow res f (apply_file rt fs table f w).0.1 in
              let w' = (apply_file rt fs table f w).1 in
              Stopped-cons db table (some f) files res res' w w' (λ fs'. rw (t, apply_files) (rw e))
                (apply_files-Stopped db table files res' w' all.1
                  (rw e at (rw (t, apply_files) at h)))
          | inr (x, e) ↦ record {
            before = [];
            file = f;
            after = files;
            splits = refl;
            went_through = refl;
            committed =
                rw (t, apply_files) (rw e (rw e at (apply_file-Ended rt tx fs table f w k all.0)));
            named = rw (t, apply_files) (rw e refl);
            listed = rw (t, apply_files) (rw e refl);
          }
        ]
      ]
