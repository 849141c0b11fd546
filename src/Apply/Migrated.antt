-- ===== src/Apply/Migrated.antt =====
-- The steps of a migration of `Apply`, on the contents of the database.
use schemago.Base.{
  ◌≡◌, sym, ◌∙◌, subst, false, All, Result, ok, err, Bool-cases, Result-cases, inl, inr,
}
use schemago.Text.{Bytes}
use schemago.Files.{Files}
use schemago.Migration.Filename.{MigrationFile}
use schemago.Migration.Statement.{Statement, split_statements}
use schemago.Migration.Statement.Shape.{split_statements_shape}
use schemago.History.{Time}
use schemago.History.Table.{validate_table_name}
use schemago.History.Store.{insert_query}
use schemago.Database.{Runtime}
use schemago.Database.Transactions.{Transactions}
use schemago.Apply.NonTransactional.{is_non_transactional}
use schemago.Apply.Step.{
  Failure, read_step, check_step, begin_step, commit_step, roll_back, transaction, perform,
  apply_file,
}
use schemago.Apply.Laws.{IsContained, KeepsTable}
use schemago.Apply.Effects.{
  Post-map, RunsAll, Migrates, row_of, Within, Post, Post-continue, run_statements-Post,
  record_step-Post,
}

module _ (rt : Runtime) (tx : Transactions rt) (fs : Files) (k : KeepsTable rt tx fs) where
  begin_step-Post :
      (file : MigrationFile) (w : rt.World)
      → let (r, w') = begin_step rt fs file w in
        Post rt tx fs (λ _ v. Within rt tx fs (tx.committed w) (tx.committed w) v) r w'
  unfolding begin_step
  begin_step-Post file w = elim (Result-cases (rt.begin_tx w).0) [
    | inl (a, e) ↦
        rw (e, begin_step) ((tx.begin_committed w, tx.begin_in_tx w e), tx.begin_working w e)
    | inr (x, e) ↦ rw (e, begin_step) tt
  ]

  commit_step-Post :
      (c d : tx.Contents) (file : MigrationFile) (w : rt.World)
      → Within rt tx fs c d w
      → let (r, w') = commit_step rt fs file w in Post rt tx fs (λ _ v. tx.committed v ≡ d) r w'
  unfolding commit_step
  commit_step-Post c d file w h = elim (Result-cases (rt.commit w).0) [
    | inl (a, e) ↦ rw (e, commit_step) (tx.commit_committed w h.0.1 e ∙ h.1)
    | inr (x, e) ↦ rw (e, commit_step) tt
  ]

  module _ (table : Bytes) (valid : validate_table_name table ≡ ok table) where
    -- What follows the read of a file, from its contents `c`.
    abbrev Done : MigrationFile → Bytes → tx.Contents → tx.Contents → Type 0
    Done file content c c' =
        (d : tx.Contents) × RunsAll rt tx fs (split_statements content) c d
        × (t : Time) × tx.Runs (insert_query table) (row_of rt tx fs file t) d c'

    transaction-Post :
        (file : MigrationFile) (content : Bytes) (w : rt.World)
        → All (λ (st : Statement). tx.ends_tx st.sql ≡ false) (split_statements content)
        → let (r, w') = transaction rt fs table file content w in
          Post rt tx fs (λ _ v. Done file content (tx.committed w) (tx.committed v)) r w'
    unfolding transaction
    transaction-Post file content w n =
        let c = tx.committed w in
        Post-continue rt tx fs (λ _ v. Within rt tx fs c c v)
          (λ _ v. Done file content c (tx.committed v)) _ _ _ (begin_step-Post file w)
          λ a v i.
            Post-continue rt tx fs
              (λ _ v.
                (e : tx.Contents) × RunsAll rt tx fs (split_statements content) c e
                × Within rt tx fs c e v)
              (λ _ v. Done file content c (tx.committed v)) _ _ _
              (run_statements-Post rt tx fs (roll_back rt fs) c file c (split_statements content) v
                n (split_statements_shape content).3 i)
              λ a v i.
                Post-continue rt tx fs
                  (λ _ v.
                    (t : Time) × (e : tx.Contents) × tx.Runs (insert_query table)
                      (row_of rt tx fs file t) i.0 e
                    × Within rt tx fs c e v)
                  (λ _ v. Done file content c (tx.committed v)) _ _ _
                  (record_step-Post rt tx fs (roll_back rt fs) c file i.0 table v k valid i.2)
                  λ a v j.
                    let (r, v') = commit_step rt fs file v in
                    Post-map rt tx fs (λ _ u. tx.committed u ≡ j.1)
                      (λ _ u. Done file content c (tx.committed u)) r v'
                      (λ b u same. (
                        i.0,
                        i.1,
                        j.0,
                        subst (tx.Runs (insert_query table) (row_of rt tx fs file j.0) i.0)
                            (sym same) j.2,
                      ))
                      (commit_step-Post c j.1 file v j.3)

    perform-Post_of :
        (P : rt.World → Type 0) (file : MigrationFile) (w : rt.World)
        → IsContained rt tx fs file
        → ((content : Bytes) (v : rt.World)
            → fs.read_file file.path ≡ ok content
            → is_non_transactional content ≡ false
            → Done file content (tx.committed w) (tx.committed v)
            → P v)
        → let (r, w') = perform rt fs table file w in Post rt tx fs (λ _ v. P v) r w'
    unfolding perform read_step check_step
    perform-Post_of P file w contained done = elim (Result-cases (fs.read_file file.path)) [
      | inr (x, e) ↦ rw (e, perform, read_step) tt
      | inl (content, e) ↦ elim (Bool-cases (is_non_transactional content)) [
        | inl t ↦ rw (e, perform, read_step) (rw (t, check_step) tt)
        | inr t ↦
            let (r, v') = transaction rt fs table file content w in
            rw (e, perform, read_step)
              (rw (t, check_step)
                (Post-map rt tx fs (λ _ u. Done file content (tx.committed w) (tx.committed u))
                  (λ _ u. P u) r v' (λ b u q. done content u e t q)
                  (transaction-Post file content w (contained content e))))
      ]
    ]

    perform-Post :
        (file : MigrationFile) (w : rt.World)
        → IsContained rt tx fs file
        → let (r, w') = perform rt fs table file w in
          Post rt tx fs (λ _ v. Migrates rt tx fs table file (tx.committed w) (tx.committed v)) r w'
    perform-Post file w contained =
        perform-Post_of (λ v. Migrates rt tx fs table file (tx.committed w) (tx.committed v)) file w
          contained (λ content v e t q. (content, e, t, q.0, q.1, q.2, q.3))

    pub apply_file-Post :
        (file : MigrationFile) (w : rt.World)
        → IsContained rt tx fs file
        → let ((r, dur), w') = apply_file rt fs table file w in
          Post rt tx fs (λ _ v. Migrates rt tx fs table file (tx.committed w) (tx.committed v)) r w'
    unfolding apply_file
    apply_file-Post file w contained =
        let (r, w1) = perform rt fs table file (rt.now w).1 in
        go r w1 (perform-Post file (rt.now w).1 contained)
      where
        go :
            (r : Result Failure (Unit {0})) (w1 : rt.World)
            → Post rt tx fs
                (λ _ v. Migrates rt tx fs table file (tx.committed (rt.now w).1) (tx.committed v))
                r
                w1
            → Post rt tx fs
                (λ _ v. Migrates rt tx fs table file (tx.committed w) (tx.committed v))
                r
                (rt.now w1).1
        go (ok a) w1 h = rw (tx.now_committed w1) (rw (tx.now_committed w) at h)
        go (err f) w1 h = tt
