-- ===== src/Cli/Handlers/Repeated.antt =====
-- The command `apply`, run once more behind a run that exits with 0.
use schemago.Base.{
  ◌≡◌, ◌∙◌, sym, ap, subst, Bool, false, List, [], ◌∷◌, map, ok, All, Sorted, inl, inr,
}
use schemago.Text.{Bytes}
use schemago.Files.{Files}
use schemago.Migration.Filename.{MigrationFile}
use schemago.Migration.Order.Sorted.{IsOther, Sorted-IsOther}
use schemago.Migration.Statement.{split_statements}
use schemago.Migration.Discovery.{discover}
use schemago.Migration.Discovery.Loaded.{discover-Verdict}
use schemago.History.Table.{validate_table_name}
use schemago.History.Store.{ensure_table}
use schemago.History.Reads.{
  HistoryTable, records, record_of_row, get_applied_migrations_inv, ensure_table-rows,
}
use schemago.History.Pending.{compute_pending}
use schemago.Database.Transactions.{Transactions}
use schemago.Config.{Config, default_timeout, new_with_opts}
use schemago.Apply.Step.{execer, apply}
use schemago.Apply.Laws.{KeepsTable}
use schemago.Apply.Recorded.{LeavesRows, IsProper}
use schemago.Apply.Repeated.{apply-Leaves}
use schemago.Cli.Host.{Host, Machine, ended}
use schemago.Cli.Steps.Inversion.{Found, Found-unique}
use schemago.Cli.Steps.Quiet.{Quiet}
use schemago.Cli.Handlers.{pointers, apply_body, handle_apply}
use schemago.Cli.Handlers.Applied.{handle_apply-Ran}
use schemago.Cli.Handlers.ReadOnly.{AreContained}
use schemago.Cli.Handlers.Ends.{apply_body_inv}

Found-IsOther :
    (fs : Files) (dir : Bytes) {files : List MigrationFile}
    → Found (discover fs dir) files
    → Sorted IsOther files
Found-IsOther fs dir {files} (inl e) =
    let (ps, l, p, s, all) = rw e at (discover-Verdict fs dir) in Sorted-IsOther files s
Found-IsOther fs dir (inr (empty, x, e, y)) = subst (Sorted IsOther) (sym empty) tt

module _ (host : Host) (tx : Transactions host.rt) (ht : HistoryTable host.rt tx)
    (k : KeepsTable host.rt tx host.fs) where
  -- No file on the disk has a statement that changes the history table.
  abbrev pub AreElsewhere : Bytes → Type 0
  AreElsewhere table =
      (path content : Bytes)
      → host.fs.read_file path ≡ ok content
      → All (LeavesRows host.rt tx host.fs ht table) (split_statements content)

  pending-IsProper :
      (table : Bytes)
      → AreContained host tx k
      → AreElsewhere table
      → (files : List MigrationFile) → All (IsProper host.rt tx host.fs ht table) files
  pending-IsProper table contained elsewhere [] = tt
  pending-IsProper table contained elsewhere (f ∷ files) = (
    (λ content h. contained f.path content h, λ content h. elsewhere f.path content h),
    pending-IsProper table contained elsewhere files,
  )

  -- Nothing is pending by the directory and the history table.
  abbrev pub NothingPending : Config → Bytes → tx.Contents → Type 0
  NothingPending cfg table c =
      (files : List MigrationFile) × Found (discover host.fs cfg.migrations_dir) files
      × (compute_pending host.fs files (records host.rt tx ht table c) ≡ ok [])

  module _ (cfg : Config) (table : Bytes)
      (valid : validate_table_name cfg.table_name ≡ ok table) where
    -- A first run leaves nothing pending.
    pub apply_body-NothingPending :
        (json : Bool) (m : Machine host) {m1 : Machine host}
        → AreContained host tx k
        → AreElsewhere table
        → tx.in_tx m.world ≡ false
        → apply_body host json cfg m ≡ ended (ok 0) m1
        → NothingPending cfg table (tx.committed m1.world)
    apply_body-NothingPending json m {m1} contained elsewhere idle h =
        let (history, files, pending, created, reads, found, computed, went, ends) =
          apply_body_inv host json cfg m h in
        let w = (ensure_table host.rt cfg.table_name m.world).1 in
        let (idle_w, kept) =
          ensure_table-rows host.rt tx ht cfg.table_name table m.world idle valid in
        let (left, split, rest, complete) =
          apply-Leaves host.rt tx host.fs ht k execer cfg.table_name table files pending history w
            valid idle_w (pending-IsProper table contained elsewhere pending)
            (Found-IsOther host.fs cfg.migrations_dir found) reads computed in
        let nothing =
          subst
            (λ l.
              compute_pending host.fs files (
                records host.rt tx ht table (
                  tx.committed
                    (apply host.rt host.fs execer cfg.table_name (pointers pending) w).1))
              ≡ ok l)
            (complete went) rest in
        (
          files,
          found,
          subst
              (λ v.
                compute_pending host.fs files (records host.rt tx ht table (tx.committed v))
                ≡ ok [])
              (sym ends) nothing,
        )

    -- Where nothing is pending, a run only ensures the table.
    apply_body-ensures :
        (json : Bool) (m : Machine host) {m1 : Machine host}
        → tx.in_tx m.world ≡ false
        → NothingPending cfg table (tx.committed m.world)
        → apply_body host json cfg m ≡ ended (ok 0) m1
        → m1.world ≡ (ensure_table host.rt cfg.table_name m.world).1
    unfolding apply
    apply_body-ensures json m {m1} idle (files, found, nothing) h =
        let (history, files', pending, created, reads, found', computed, went, ends) =
          apply_body_inv host json cfg m h in
        let w = (ensure_table host.rt cfg.table_name m.world).1 in
        let (idle_w, kept) =
          ensure_table-rows host.rt tx ht cfg.table_name table m.world idle valid in
        let read =
          get_applied_migrations_inv host.rt tx ht cfg.table_name table w idle_w valid reads in
        let same_history : history ≡ records host.rt tx ht table (tx.committed m.world) =
          read ∙ ap (map (record_of_row host.rt)) kept in
        let same_files : files' ≡ files = Found-unique found' found in
        let none_left : [] ≡ pending = cc (nothing, computed, same_history, same_files) in
        ends
        ∙ ap (λ p. (apply host.rt host.fs execer cfg.table_name (pointers p) w).1) (sym none_left)

  -- What is committed, and whether a transaction is open.
  abbrev pub view : host.rt.World → tx.Contents × Bool
  view w = (tx.committed w, tx.in_tx w)

  module _ (db_url dir name : Bytes) (cfg : Config) (table : Bytes)
      (resolved : new_with_opts host.getenv db_url dir name default_timeout ≡ ok cfg)
      (valid : validate_table_name cfg.table_name ≡ ok table) (quiet : Quiet host view) where
    -- The body of a command that exits with 0 has run, on what the command found committed.
    pub body_ran :
        (no_lock json : Bool) (m : Machine host) {m1 : Machine host}
        → tx.in_tx m.world ≡ false
        → handle_apply host db_url dir name no_lock json m ≡ ended (ok 0) m1
        → (before : Machine host) × (after : Machine host) × (apply_body host json cfg before
            ≡ ended (ok 0) after)
          × (tx.in_tx before.world ≡ false)
          × (tx.committed before.world ≡ tx.committed m.world)
          × (tx.committed after.world ≡ tx.committed m1.world)
    body_ran no_lock json m {m1} idle h =
        let (cfg', resolved', before, after, ran, at_start, at_end) =
          handle_apply-Ran host view db_url dir name no_lock json m quiet h in
        let same : cfg' ≡ cfg = cc (resolved, resolved') in
        (
          before,
          after,
          subst (λ c. apply_body host json c before ≡ ended (ok 0) after) same ran,
          ap (λ v. v.1) at_start ∙ idle,
          ap (λ v. v.0) at_start,
          ap (λ v. v.0) at_end,
        )

    -- If the command `apply` exits with 0, and is run again with the same flags for the database, the directory and the
    -- table, on what it has left committed, then where it exits with 0 again it has only ensured the history table:
    -- it has run no migration, and the rows of the history table are those that the first command has left. This
    -- takes that the environment and the files are the same for both commands, the laws of transactions and of the
    -- history table, that no error of reading a history table that exists has the text of a missing one, that
    -- connecting, locking and closing neither commit
    -- anything nor open a transaction, that none is open when the commands start, and that no statement of a file on
    -- the disk ends the transaction or changes the history table.
    pub handle_apply-repeated :
        (no_lock json no_lock' json' : Bool) (m m' : Machine host) {m1 m2 : Machine host}
        → AreContained host tx k
        → AreElsewhere table
        → tx.in_tx m.world ≡ false
        → handle_apply host db_url dir name no_lock json m ≡ ended (ok 0) m1
        → tx.in_tx m'.world ≡ false
        → tx.committed m'.world ≡ tx.committed m1.world
        → handle_apply host db_url dir name no_lock' json' m' ≡ ended (ok 0) m2
        → (w : host.rt.World) × (tx.committed w ≡ tx.committed m1.world)
          × (tx.committed m2.world ≡ tx.committed (ensure_table host.rt cfg.table_name w).1)
          × (ht.rows table (tx.committed m2.world) ≡ ht.rows table (tx.committed m1.world))
    handle_apply-repeated no_lock json no_lock' json' m m' {m1} {m2} contained elsewhere idle h
          idle' same h' =
        let (a, b, ran, idle_a, in_a, out_b) = body_ran no_lock json m idle h in
        let (a', b', ran', idle_a', in_a', out_b') = body_ran no_lock' json' m' idle' h' in
        let at_start : tx.committed a'.world ≡ tx.committed m1.world = in_a' ∙ same in
        let nothing =
          subst (NothingPending cfg table) (out_b ∙ sym at_start)
            (apply_body-NothingPending cfg table valid json a contained elsewhere idle_a ran) in
        let ends = apply_body-ensures cfg table valid json' a' idle_a' nothing ran' in
        let left : tx.committed m2.world
            ≡ tx.committed (ensure_table host.rt cfg.table_name a'.world).1 =
          sym out_b' ∙ ap tx.committed ends in
        let (idle_w, kept) =
          ensure_table-rows host.rt tx ht cfg.table_name table a'.world idle_a' valid in
        (a'.world, at_start, left, ap (ht.rows table) left ∙ kept ∙ ap (ht.rows table) at_start)
