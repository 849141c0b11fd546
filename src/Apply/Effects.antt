-- ===== src/Apply/Effects.antt =====
-- An abstract view of a migration, as a relation on the contents of the database, and what the steps
-- of `Apply` make of the contents.
use schemago.Base.{
  ◌≡◌, refl, ◌∙◌, subst, false, List, [], ◌∷◌, All, Result, ok, err, ◌==◌, Bool-cases, Result-cases,
  inl, inr,
}
use schemago.Text.{Bytes, is_empty}
use schemago.Text.Trim.{trim_space}
use schemago.Text.Trimmed.{trim_space_id}
use schemago.Files.{Files}
use schemago.Migration.Filename.{MigrationFile}
use schemago.Migration.Statement.{Statement, split_statements}
use schemago.Migration.Statement.Shape.{IsText}
use schemago.History.{Time, AppliedMigration}
use schemago.History.Pending.{disc_checksum}
use schemago.History.Table.{validate_table_name}
use schemago.History.Store.{record_migration, insert_query, record_result}
use schemago.Database.{Runtime, SqlArg, int, text}
use schemago.Database.Transactions.{Transactions}
use schemago.Apply.NonTransactional.{is_non_transactional}
use schemago.Apply.Step.{Failure, Act, continue, exec_step, run_statements, record_step, record_of}
use schemago.Apply.Laws.{KeepsTable, Inside, Inside-now, Inside-exec}

module _ (rt : Runtime) (tx : Transactions rt) (fs : Files) where
  -- The statements run one after the other.
  abbrev pub RunsAll : List Statement → tx.Contents → tx.Contents → Type 0
  RunsAll [] c c' = c' ≡ c
  RunsAll (st ∷ stmts) c c' = (d : tx.Contents) × tx.Runs st.sql [] c d × RunsAll stmts d c'

  -- The row that a migration leaves in the history table.
  abbrev pub row_of : MigrationFile → Time → List SqlArg
  row_of file t =
      int file.version
      ∷ text file.filename
      ∷ text (rt.format_time t)
      ∷ text (disc_checksum fs file)
      ∷ []

  -- A migration runs the statements of its file, and inserts its row.
  abbrev pub Migrates : Bytes → MigrationFile → tx.Contents → tx.Contents → Type 0
  Migrates table file c c' =
      (content : Bytes) × (fs.read_file file.path ≡ ok content)
      × (is_non_transactional content ≡ false)
      × (d : tx.Contents) × RunsAll (split_statements content) c d
      × (t : Time) × tx.Runs (insert_query table) (row_of file t) d c'

  abbrev pub MigratesAll : Bytes → List MigrationFile → tx.Contents → tx.Contents → Type 0
  MigratesAll table [] c c' = c' ≡ c
  MigratesAll table (file ∷ files) c c' =
      (d : tx.Contents) × Migrates table file c d × MigratesAll table files d c'

  -- In the transaction, with `c` committed and `d` in work.
  abbrev pub Within : tx.Contents → tx.Contents → rt.World → Type 0
  Within c d w = Inside rt tx fs c w × (tx.working w ≡ d)

  -- What success leaves.
  abbrev pub Post : {A : Type 0} → (A → rt.World → Type 0) → Result Failure A → rt.World → Type 0
  Post Q (ok a) w = Q a w
  Post Q (err f) w = Unit

  pub Post-continue :
      {A B : Type 0} (Q : A → rt.World → Type 0) (R : B → rt.World → Type 0) (r : Result Failure A)
      (f : A → Act rt.World B) (w : rt.World)
      → Post Q r w
      → ((a : A) (v : rt.World) → Q a v → let (s, v') = f a v in Post R s v')
      → let (s, w') = continue r f w in Post R s w'
  Post-continue Q R (ok a) f w h k = k a w h
  Post-continue Q R (err e) f w h k = tt

  pub Post-map :
      {A : Type 0} (Q R : A → rt.World → Type 0) (r : Result Failure A) (w : rt.World)
      → ((a : A) (v : rt.World) → Q a v → R a v)
      → Post Q r w
      → Post R r w
  Post-map Q R (ok a) w f h = f a w h
  Post-map Q R (err e) w f h = tt

  exec_step-Post :
      (cleanup : rt.World → rt.World) (c d : tx.Contents) (file : MigrationFile) (st : Statement)
      (w : rt.World)
      → tx.ends_tx st.sql ≡ false
      → Within c d w
      → let (r, w') = exec_step rt fs cleanup file st w in
        Post (λ _ v. (e : tx.Contents) × tx.Runs st.sql [] d e × Within c e v) r w'
  unfolding exec_step
  exec_step-Post cleanup c d file st w n h = elim (Result-cases (rt.exec st.sql [] w).0) [
    | inr (x, e) ↦ rw (e, exec_step) tt
    | inl (a, e) ↦
        rw (e, exec_step)
          (
            tx.working (rt.exec st.sql [] w).1,
            subst (λ x. tx.Runs st.sql [] x (tx.working (rt.exec st.sql [] w).1)) h.1
                (tx.exec_working st.sql [] w h.0.1 n e),
            (Inside-exec rt tx fs c st.sql [] w n h.0, refl),
          )
  ]

  module _ (cleanup : rt.World → rt.World) (c : tx.Contents) (file : MigrationFile) where
    pub run_statements-Post :
        (d : tx.Contents) (stmts : List Statement) (w : rt.World)
        → All (λ (st : Statement). tx.ends_tx st.sql ≡ false) stmts
        → All IsText stmts
        → Within c d w
        → let (r, w') = run_statements rt fs cleanup file stmts w in
          Post (λ _ v. (e : tx.Contents) × RunsAll stmts d e × Within c e v) r w'
    unfolding run_statements
    run_statements-Post d [] w n t h = (d, refl, h)
    run_statements-Post d (st ∷ stmts) w n t h =
        let some_text : is_empty (trim_space st.sql) ≡ false =
          rw (trim_space_id st.sql t.0.0) t.0.1 in
        rw (some_text, run_statements)
          (Post-continue (λ _ v. (e : tx.Contents) × tx.Runs st.sql [] d e × Within c e v)
            (λ _ v. (e : tx.Contents) × RunsAll (st ∷ stmts) d e × Within c e v) _
            (λ _. run_statements rt fs cleanup file stmts) _
            (exec_step-Post cleanup c d file st w n.0 h)
            (λ a v q.
              let (e, ran, i) = q in
              let (s, v') = run_statements rt fs cleanup file stmts v in
              Post-map (λ _ u. (e' : tx.Contents) × RunsAll stmts e e' × Within c e' u)
                (λ _ u. (e' : tx.Contents) × RunsAll (st ∷ stmts) d e' × Within c e' u) s v'
                (λ b u p. (p.0, (e, ran, p.1), p.2)) (run_statements-Post e stmts v n.1 t.1 i)))

    -- The insertion, once its time is known.
    insert-Runs :
        (d : tx.Contents) (table : Bytes) (args : List SqlArg) (w : rt.World)
        → tx.ends_tx (insert_query table) ≡ false
        → Within c d w
        → record_result rt (rt.exec (insert_query table) args w).0 ≡ ok tt
        → (e : tx.Contents) × tx.Runs (insert_query table) args d e
          × Within c e (rt.exec (insert_query table) args w).1
    insert-Runs d table args w n h done =
        elim (Result-cases (rt.exec (insert_query table) args w).0) [
          | inr (x, e) ↦ absurd (cc (rw (e, record_result) at done))
          | inl (a, e) ↦ (
            tx.working (rt.exec (insert_query table) args w).1,
            subst
                (λ x.
                  tx.Runs (insert_query table) args x
                    (tx.working (rt.exec (insert_query table) args w).1))
                h.1 (tx.exec_working (insert_query table) args w h.0.1 n e),
            (Inside-exec rt tx fs c (insert_query table) args w n h.0, refl),
          )
        ]

    -- The arguments of the insertion.
    abbrev args_of : AppliedMigration → Time → List SqlArg
    args_of app t =
        int app.version ∷ text app.name ∷ text (rt.format_time t) ∷ text app.checksum ∷ []

    record_migration-Runs :
        (d : tx.Contents) (table : Bytes) (app : AppliedMigration) (w : rt.World)
        → KeepsTable rt tx fs
        → validate_table_name table ≡ ok table
        → Within c d w
        → (record_migration rt table app w).0 ≡ ok tt
        → (t : Time) × (e : tx.Contents) × tx.Runs (insert_query table) (args_of app t) d e
          × Within c e (record_migration rt table app w).1
    unfolding record_migration
    record_migration-Runs d table app w k valid h done =
        let n = k.insert_kept table table valid in
        elim (Bool-cases (app.applied_at == 0)) [
          | inl z ↦
              let t = (rt.now w).0 in
              let inside : Within c d (rt.now w).1 =
                (Inside-now rt tx fs c w h.0, tx.now_working w ∙ h.1) in
              let done' : record_result rt
                    (rt.exec (insert_query table) (args_of app t) (rt.now w).1).0
                  ≡ ok tt =
                rw z at (rw (valid, record_migration) at done) in
              rw (valid, record_migration)
                (rw z (
                  let (e, r, i) = insert-Runs d table (args_of app t) (rt.now w).1 n inside done' in
                  (t, e, r, i)))
          | inr z ↦
              let t = app.applied_at in
              let done' : record_result rt (rt.exec (insert_query table) (args_of app t) w).0
                  ≡ ok tt =
                rw z at (rw (valid, record_migration) at done) in
              rw (valid, record_migration)
                (rw z
                  (let (e, r, i) = insert-Runs d table (args_of app t) w n h done' in (t, e, r, i)))
        ]

    pub record_step-Post :
        (d : tx.Contents) (table : Bytes) (w : rt.World)
        → KeepsTable rt tx fs
        → validate_table_name table ≡ ok table
        → Within c d w
        → let (r, w') = record_step rt fs cleanup table file w in
          Post
            (λ _ v.
              (t : Time) × (e : tx.Contents) × tx.Runs (insert_query table) (row_of file t) d e
              × Within c e v)
            r
            w'
    unfolding record_step
    record_step-Post d table w k valid h =
        let inside : Within c d (rt.now w).1 =
          (Inside-now rt tx fs c w h.0, tx.now_working w ∙ h.1) in
        elim (Result-cases
          (record_migration rt table (record_of rt fs file (rt.now w).0) (rt.now w).1).0) [
            | inl (a, e) ↦
                rw (e, record_step)
                  (record_migration-Runs d table (record_of rt fs file (rt.now w).0) (rt.now w).1 k
                    valid inside e)
            | inr (x, e) ↦ rw (e, record_step) tt
          ]
