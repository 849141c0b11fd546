-- ===== src/Apply/Healthy.antt =====
-- The steps of a migration of `Apply`, in worlds in which no call fails.
use schemago.Base.{
  ◌≡◌, false, Option, none, some, List, [], ◌∷◌, All, Result, ok, err, ◌==◌, Bool-cases, inl, inr,
}
use schemago.Text.{Bytes, is_empty}
use schemago.Text.Trim.{trim_space}
use schemago.Files.{Files}
use schemago.Migration.Filename.{MigrationFile}
use schemago.Migration.Statement.{Statement, split_statements}
use schemago.History.{AppliedMigration}
use schemago.History.Table.{validate_table_name}
use schemago.History.Store.{record_migration, insert_query, record_result}
use schemago.Database.{Runtime, SqlArg, SqlError}
use schemago.Apply.NonTransactional.{is_non_transactional}
use schemago.Apply.Step.{
  Failure, Act, ◌>>=◌, continue, settle, read_step, check_step, begin_step, exec_step,
  run_statements, record_step, record_of, commit_step, roll_back, transaction, perform, apply_file,
}

module _ (rt : Runtime) (fs : Files) (G : rt.World → Type 0) where
  -- A call has gone well, and so has the world after it.
  abbrev pub Well : {E A : Type 0} → Result E A × rt.World → Type 0
  Well (ok a, w) = G w
  Well (err e, w) = ⊥

  -- In a good world no call of `Apply` fails, and it leads to a good world.
  pub record IsHealthy : Type 0 where
    pub nows : (w : rt.World) → G w → G (rt.now w).1
    pub begins : (w : rt.World) → G w → Well (rt.begin_tx w)
    pub commits : (w : rt.World) → G w → Well (rt.commit w)
    pub inserts :
        (name table : Bytes) (args : List SqlArg) (w : rt.World)
        → validate_table_name name ≡ ok table
        → G w
        → Well (rt.exec (insert_query table) args w)
    pub statements :
        (path content : Bytes)
        → fs.read_file path ≡ ok content
        → All
            (λ (st : Statement). (w : rt.World) → G w → Well (rt.exec st.sql [] w))
            (split_statements content)

  -- A pending file that can be read and has no statement that needs to stand outside of a transaction; nil is passed over.
  abbrev pub IsRunnable : Option MigrationFile → Type 0
  IsRunnable none = Unit
  IsRunnable (some file) =
      (content : Bytes) × (fs.read_file file.path ≡ ok content)
      × (is_non_transactional content ≡ false)

module _ (rt : Runtime) (fs : Files) (G : rt.World → Type 0) (healthy : IsHealthy rt fs G) where
  abbrev Goes : {A : Type 0} → Act rt.World A → Type 0
  Goes m = (w : rt.World) → G w → Well rt fs G (m w)

  bind-Goes :
      {A B : Type 0} (m : Act rt.World A) (f : A → Act rt.World B)
      → Goes m
      → ((a : A) → Goes (f a))
      → Goes (m >>= f)
  bind-Goes {A} {B} m f k h w i = go (m w).0 (m w).1 (k w i)
    where
      go :
          (r : Result Failure A) (v : rt.World)
          → Well rt fs G (r, v)
          → Well rt fs G (continue r f v)
      go (ok a) v j = h a v j
      go (err x) v j = absurd j

  settle-Well :
      {E : Type 0} (cleanup : rt.World → rt.World) (f : E → Failure) (r : Result E (Unit {0}))
      (w : rt.World)
      → Well rt fs G (r, w)
      → Well rt fs G (settle cleanup f r w)
  settle-Well cleanup f (ok a) w h = h
  settle-Well cleanup f (err e) w h = absurd h

  record_result-Well :
      (r : Result SqlError (Unit {0})) (w : rt.World)
      → Well rt fs G (r, w)
      → Well rt fs G (record_result rt r, w)
  record_result-Well (ok a) w h = h
  record_result-Well (err e) w h = absurd h

  record_migration-Well :
      (name table : Bytes) (app : AppliedMigration) (w : rt.World)
      → validate_table_name name ≡ ok table
      → G w
      → Well rt fs G (record_migration rt name app w)
  unfolding record_migration
  record_migration-Well name table app w e h = elim (Bool-cases (app.applied_at == 0)) [
    | inl z ↦
        rw (e, record_migration)
          (rw z (record_result-Well _ _ (healthy.inserts name table _ _ e (healthy.nows w h))))
    | inr z ↦
        rw (e, record_migration)
          (rw z (record_result-Well _ _ (healthy.inserts name table _ w e h)))
  ]

  run_statements-Goes :
      (cleanup : rt.World → rt.World) (file : MigrationFile) (stmts : List Statement)
      → All (λ (st : Statement). (w : rt.World) → G w → Well rt fs G (rt.exec st.sql [] w)) stmts
      → Goes (run_statements rt fs cleanup file stmts)
  unfolding run_statements exec_step
  run_statements-Goes cleanup file [] k w h = h
  run_statements-Goes cleanup file (st ∷ stmts) k w h =
      elim (Bool-cases (is_empty (trim_space st.sql))) [
        | inl e ↦ rw (e, run_statements) (run_statements-Goes cleanup file stmts k.1 w h)
        | inr e ↦
            rw (e, run_statements)
              (bind-Goes (exec_step rt fs cleanup file st)
                (λ _. run_statements rt fs cleanup file stmts)
                (λ v i. settle-Well cleanup _ (rt.exec st.sql [] v).0 _ (k.0 v i))
                (λ _. run_statements-Goes cleanup file stmts k.1) w h)
      ]

  transaction-Goes :
      (table : Bytes) (file : MigrationFile) (content : Bytes)
      → validate_table_name table ≡ ok table
      → fs.read_file file.path ≡ ok content
      → Goes (transaction rt fs table file content)
  unfolding transaction begin_step record_step commit_step
  transaction-Goes table file content valid e =
      let run = run_statements rt fs (roll_back rt fs) file (split_statements content) in
      let recorded = record_step rt fs (roll_back rt fs) table file in
      let commits = commit_step rt fs file in
      bind-Goes (begin_step rt fs file) (λ _. run >>= λ _. recorded >>= λ _. commits)
        (λ w h. settle-Well (λ v. v) _ (rt.begin_tx w).0 _ (healthy.begins w h))
        λ _.
          bind-Goes run (λ _. recorded >>= λ _. commits)
            (run_statements-Goes (roll_back rt fs) file (split_statements content)
              (healthy.statements file.path content e))
            λ _.
              bind-Goes recorded (λ _. commits)
                (λ w h.
                  let app = record_of rt fs file (rt.now w).0 in
                  settle-Well (roll_back rt fs) _ (record_migration rt table app (rt.now w).1).0 _
                    (record_migration-Well table table app (rt.now w).1 valid (healthy.nows w h)))
                λ _ w h. settle-Well (roll_back rt fs) _ (rt.commit w).0 _ (healthy.commits w h)

  perform-Goes :
      (table : Bytes) (file : MigrationFile)
      → validate_table_name table ≡ ok table
      → IsRunnable rt fs G (some file)
      → Goes (perform rt fs table file)
  unfolding perform read_step check_step
  perform-Goes table file valid (content, e, t) w h =
      rw (e, perform, read_step)
        (rw (t, check_step) (transaction-Goes table file content valid e w h))

  pub apply_file-Goes :
      (table : Bytes) (file : MigrationFile) (w : rt.World)
      → validate_table_name table ≡ ok table
      → IsRunnable rt fs G (some file)
      → G w
      → Well rt fs G ((apply_file rt fs table file w).0.0, (apply_file rt fs table file w).1)
  unfolding apply_file
  apply_file-Goes table file w valid runnable h =
      let (r, w1) = perform rt fs table file (rt.now w).1 in
      go r w1 (perform-Goes table file valid runnable (rt.now w).1 (healthy.nows w h))
    where
      go :
          (r : Result Failure (Unit {0})) (v : rt.World)
          → Well rt fs G (r, v)
          → Well rt fs G (r, (rt.now v).1)
      go (ok a) v i = healthy.nows v i
      go (err x) v i = absurd i
