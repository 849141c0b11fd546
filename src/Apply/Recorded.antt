-- ===== src/Apply/Recorded.antt =====
-- What one migration of `Apply` makes of the history table.
use schemago.Base.{
  ◌≡◌, refl, ap, ◌∙◌, subst, false, List, [], ◌∷◌, map, Result, ok, err, All, Result-cases, inl,
  inr, arith,
}
use schemago.Base.Int.{ℤ}
use schemago.Text.{Bytes}
use schemago.Files.{Files}
use schemago.Map.Keys.{has_key}
use schemago.Map.Inserted.{Inserted, map-Inserted}
use schemago.Migration.Filename.{MigrationFile}
use schemago.Migration.Statement.{Statement, split_statements}
use schemago.History.Reads.{HistoryTable, records, record_of_row, row_version}
use schemago.History.Pending.{disc_checksum}
use schemago.History.Pending.Exact.{record_version}
use schemago.History.Pending.Grown.{Records}
use schemago.Database.{Runtime, Row}
use schemago.Database.Transactions.{Transactions}
use schemago.Apply.Step.{
  Failure, Act, continue, ◌>>=◌, begin_step, run_statements, record_step, commit_step, roll_back,
  transaction, read_step, check_step, perform, apply_file,
}
use schemago.Apply.Laws.{IsContained}
use schemago.Apply.Effects.{RunsAll, Migrates, Post}

module _ (rt : Runtime) (tx : Transactions rt) (fs : Files) (ht : HistoryTable rt tx) where
  -- Outside of a transaction.
  abbrev pub IsIdle : rt.World → Type 0
  IsIdle w = tx.in_tx w ≡ false

  -- A statement that leaves the rows of the history table as they are.
  abbrev pub LeavesRows : Bytes → Statement → Type 0
  LeavesRows table st =
      (c d : tx.Contents) → tx.Runs st.sql [] c d → ht.rows table d ≡ ht.rows table c

  -- The statements of the file are about other tables.
  abbrev IsElsewhere : Bytes → MigrationFile → Type 0
  IsElsewhere table file =
      (content : Bytes)
      → fs.read_file file.path ≡ ok content
      → All (LeavesRows table) (split_statements content)

  -- A file whose statements end no transaction and leave the history table alone.
  abbrev pub IsProper : Bytes → MigrationFile → Type 0
  IsProper table file = IsContained rt tx fs file × IsElsewhere table file

  RunsAll-rows :
      (table : Bytes) (stmts : List Statement) (c d : tx.Contents)
      → All (LeavesRows table) stmts
      → RunsAll rt tx fs stmts c d
      → ht.rows table d ≡ ht.rows table c
  RunsAll-rows table [] c d l same = ap (ht.rows table) same
  RunsAll-rows table (st ∷ stmts) c d l (e, ran, rest) =
      RunsAll-rows table stmts e d l.1 rest ∙ l.0 c e ran

  has_key-map :
      (v : ℤ) (rows : List Row)
      → has_key record_version v (map (record_of_row rt) rows) ≡ has_key row_version v rows
  has_key-map v [] = refl
  has_key-map v (row ∷ rows) = ground (arith, has_key-map v rows)

  -- A migration inserts one record of itself.
  pub Migrates-Records :
      (table : Bytes) (file : MigrationFile) (c d : tx.Contents)
      → IsElsewhere table file
      → Migrates rt tx fs table file c d
      → Records fs file (records rt tx ht table c) (records rt tx ht table d)
  Migrates-Records table file c d l (content, reads, transactional, e, ran, t, row_in) =
      let (row, version_kept, checksum_kept, fresh, i) =
        ht.inserted table file.version file.filename (rt.format_time t) (disc_checksum fs file) e d
          row_in in
      let same = RunsAll-rows table (split_statements content) c e (l content reads) ran in
      record {
        app = record_of_row rt row;
        version_kept = version_kept;
        checksum_kept = checksum_kept;
        unrecorded =
            has_key-map file.version (ht.rows table c)
            ∙ subst (λ rows. has_key row_version file.version rows ≡ false) same fresh;
        inserted =
            map-Inserted (record_of_row rt)
              (subst (λ rows. Inserted row rows (ht.rows table d)) same i);
      }

  -- An act whose success leaves the world idle.
  abbrev EndsIdle : {A : Type 0} → Act rt.World A → Type 0
  EndsIdle m = (w : rt.World) → let (r, w') = m w in Post rt tx fs (λ _ u. IsIdle u) r w'

  -- Whatever the first act is, the second decides.
  bind-EndsIdle :
      {A B : Type 0} (m : Act rt.World A) (f : A → Act rt.World B)
      → ((a : A) → EndsIdle (f a))
      → EndsIdle (m >>= f)
  bind-EndsIdle {A} {B} m f h w = go (m w).0 (m w).1
    where
      go :
          (r : Result Failure A) (v : rt.World)
          → let (s, v') = continue r f v in Post rt tx fs (λ _ u. IsIdle u) s v'
      go (ok a) v = h a v
      go (err x) v = tt

  commit_step-EndsIdle : (file : MigrationFile) → EndsIdle (commit_step rt fs file)
  unfolding commit_step
  commit_step-EndsIdle file w = elim (Result-cases (rt.commit w).0) [
    | inl (a, e) ↦ rw (e, commit_step) (ht.commit_in_tx w e)
    | inr (x, e) ↦ rw (e, commit_step) tt
  ]

  perform-EndsIdle : (table : Bytes) (file : MigrationFile) → EndsIdle (perform rt fs table file)
  unfolding perform transaction
  perform-EndsIdle table file =
      let run = run_statements rt fs (roll_back rt fs) file in
      let recorded = record_step rt fs (roll_back rt fs) table file in
      let commits = commit_step rt fs file in
      bind-EndsIdle (read_step rt fs file)
        (λ content. check_step rt fs file content >>= λ _. transaction rt fs table file content)
        λ content.
          bind-EndsIdle (check_step rt fs file content) (λ _. transaction rt fs table file content)
            λ _.
              bind-EndsIdle (begin_step rt fs file)
                (λ _. run (split_statements content) >>= λ _. recorded >>= λ _. commits)
                λ _.
                  bind-EndsIdle (run (split_statements content)) (λ _. recorded >>= λ _. commits)
                    λ _. bind-EndsIdle recorded (λ _. commits) λ _. commit_step-EndsIdle file

  pub apply_file-Idle :
      (table : Bytes) (file : MigrationFile) (w : rt.World) {u : Unit {0}}
      → (apply_file rt fs table file w).0.0 ≡ ok u
      → IsIdle (apply_file rt fs table file w).1
  unfolding apply_file
  apply_file-Idle table file w h =
      let (r, w1) = perform rt fs table file (rt.now w).1 in
      tx.now_in_tx w1 ∙ rw h at (perform-EndsIdle table file (rt.now w).1)
