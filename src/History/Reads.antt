-- ===== src/History/Reads.antt =====
-- What the program relies on of the history table as a table of the database, and what
-- `GetAppliedMigrations` returns by it.
use schemago.Base.{
  ◌≡◌, refl, Bool, sym, ap, ◌∙◌, true, false, Option, none, some, List, [], ◌∷◌, map, Result, ok,
  err, Bool-cases, Result-cases, inl, inr,
}
use schemago.Base.Int.{ℤ}
use schemago.Text.{Bytes, codes, contains, to_lower}
use schemago.Map.Keys.{has_key}
use schemago.Map.Inserted.{Inserted}
use schemago.History.{AppliedMigration}
use schemago.History.Table.{validate_table_name}
use schemago.History.Store.{
  create_query, insert_query, select_query, is_table_not_exist_error, scan_time, scan_rows,
  get_applied_migrations, ensure_table,
}
use schemago.Database.{SqlError, int, text, Row, Runtime}
use schemago.Database.Transactions.{Transactions}

abbrev pub row_version : Row → ℤ
row_version row = row.version

module _ (rt : Runtime) where
  -- The record that the loop over the rows makes of a row.
  abbrev pub record_of_row : Row → AppliedMigration
  record_of_row row = record {
    version = row.version;
    name = row.name;
    applied_at = scan_time rt row.applied_at;
    checksum = row.checksum;
  }

  scan_rows_inv :
      (rows : List (Result SqlError Row)) (final : Option SqlError)
      {history : List AppliedMigration}
      → scan_rows rt rows final ≡ ok history
      → (all : List Row) × (rows ≡ map ok all) × (final ≡ none) × (history ≡ map record_of_row all)
  unfolding scan_rows
  scan_rows_inv [] none h = ([], refl, refl, cc h)
  scan_rows_inv [] (some e) h = absurd (cc h)
  scan_rows_inv (err e ∷ rows) final h = absurd (cc h)
  scan_rows_inv (ok row ∷ rows) final {history} h = elim (Result-cases (scan_rows rt rows final)) [
    | inr (x, e) ↦ absurd (cc (rw e at h))
    | inl (rest, e) ↦
        let (all, same, done, listed) = scan_rows_inv rows final e in
        let eq : record_of_row row ∷ rest ≡ history = cc (rw e at h) in
        (row ∷ all, ap (◌∷◌ (ok row)) same, done, sym eq ∙ ap (◌∷◌ (record_of_row row)) listed)
  ]

module _ (rt : Runtime) (tx : Transactions rt) where
  -- The rows of a table among the contents of the database, in the order in which they are selected.
  pub record HistoryTable : Type 0 where
    pub rows : Bytes → tx.Contents → List Row
    -- Outside of a transaction, rows that are read to their end are those committed.
    pub selected :
        (table : Bytes) (w : rt.World) (all : List Row)
        → tx.in_tx w ≡ false
        → rt.query (select_query table) w ≡ ok (record { rows = map ok all; final_error = none })
        → all ≡ rows table (tx.committed w)
    -- Whether there is such a table. One that there is not has no rows, and an error of reading
    -- one that there is does not have the text of a missing table.
    pub exists : Bytes → tx.Contents → Bool
    pub missing : (table : Bytes) (c : tx.Contents) → exists table c ≡ false → rows table c ≡ []
    pub unreadable :
        (table : Bytes) (w : rt.World) (e : SqlError)
        → tx.in_tx w ≡ false
        → exists table (tx.committed w) ≡ true
        → rt.query (select_query table) w ≡ err e
        → (contains (to_lower e) (codes "does not exist") ≡ false)
          × (contains (to_lower e) (codes "no such table") ≡ false)
          × (contains (to_lower e) (codes "undefined_table") ≡ false)
          × (contains (to_lower e) (codes "42p01") ≡ false)
    -- The version is the primary key.
    pub inserted :
        (table : Bytes) (version : ℤ) (name applied_at checksum : Bytes) (c d : tx.Contents)
        → tx.Runs
            (insert_query table)
            (int version ∷ text name ∷ text applied_at ∷ text checksum ∷ [])
            c
            d
        → (row : Row) × (row.version ≡ version)
          × (row.checksum ≡ checksum)
          × (has_key row_version version (rows table c) ≡ false)
          × Inserted row (rows table c) (rows table d)
    -- Outside of a transaction the table may be created, and it keeps the rows that it has.
    pub created :
        (table : Bytes) (w : rt.World)
        → tx.in_tx w ≡ false
        → rows table (tx.committed (rt.exec (create_query table) [] w).1)
          ≡ rows table (tx.committed w)
    pub created_in_tx :
        (table : Bytes) (w : rt.World)
        → tx.in_tx w ≡ false
        → tx.in_tx (rt.exec (create_query table) [] w).1 ≡ false
    pub commit_in_tx : (w : rt.World) → (rt.commit w).0 ≡ ok tt → tx.in_tx (rt.commit w).1 ≡ false

  module _ (ht : HistoryTable) where
    -- The records of the table.
    abbrev pub records : Bytes → tx.Contents → List AppliedMigration
    records table c = map (record_of_row rt) (ht.rows table c)

    -- If the error of reading the table is taken for that of a missing table, the table has no rows.
    missing-rows :
        (table : Bytes) (w : rt.World) (e : SqlError)
        → tx.in_tx w ≡ false
        → rt.query (select_query table) w ≡ err e
        → is_table_not_exist_error e ≡ true
        → ht.rows table (tx.committed w) ≡ []
    unfolding is_table_not_exist_error
    missing-rows table w e idle failed taken =
        elim (Bool-cases (ht.exists table (tx.committed w))) [
          | inr n ↦ ht.missing table (tx.committed w) n
          | inl y ↦
              let (a, b, c, d) = ht.unreadable table w e idle y failed in
              absurd (cc (rw (a, b, c, d) at taken))
        ]

    -- What `GetAppliedMigrations` returns outside of a transaction are the records committed.
    pub get_applied_migrations_inv :
        (name table : Bytes) (w : rt.World) {history : List AppliedMigration}
        → tx.in_tx w ≡ false
        → validate_table_name name ≡ ok table
        → get_applied_migrations rt name w ≡ ok history
        → history ≡ records table (tx.committed w)
    unfolding get_applied_migrations
    get_applied_migrations_inv name table w {history} idle valid h =
        elim (Result-cases (rt.query (select_query table) w)) [
          | inr (x, e) ↦ elim (Bool-cases (is_table_not_exist_error x)) [
            | inr n ↦ absurd (cc (rw n at (rw e at (rw (valid, get_applied_migrations) at h))))
            | inl y ↦
                let empty : [] ≡ history =
                  cc (rw y at (rw e at (rw (valid, get_applied_migrations) at h))) in
                sym empty ∙ ap (map (record_of_row rt)) (sym (missing-rows table w x idle e y))
          ]
          | inl (found, e) ↦
              let scanned : scan_rows rt found.rows found.final_error ≡ ok history =
                rw e at (rw (valid, get_applied_migrations) at h) in
              let (all, same, done, listed) =
                scan_rows_inv rt found.rows found.final_error scanned in
              let whole : found ≡ record { rows = map ok all; final_error = none } =
                cc (same, done) in
              listed ∙ ap (map (record_of_row rt)) (ht.selected table w all idle (e ∙ ap ok whole))
        ]

    -- Ensuring the table outside of a transaction keeps its rows.
    pub ensure_table-rows :
        (name table : Bytes) (w : rt.World)
        → tx.in_tx w ≡ false
        → validate_table_name name ≡ ok table
        → let w' = (ensure_table rt name w).1 in
          (tx.in_tx w' ≡ false) × (ht.rows table (tx.committed w') ≡ ht.rows table (tx.committed w))
    unfolding ensure_table
    ensure_table-rows name table w idle valid =
        rw (valid, ensure_table) (ht.created_in_tx table w idle, ht.created table w idle)
