-- ===== src/History/Store.antt =====
-- `EnsureTable`, `RecordMigration` and `GetAppliedMigrations` of internal/history/history.go.
use schemago.Base.{
  Bool, ◌||◌, Option, none, some, List, [], ◌∷◌, ◌++◌, Result, ok, err, ◌>>=◌, if◌then◌else◌, ◌==◌,
}
use schemago.Text.{Bytes, codes, contains, has_prefix, to_lower}
use schemago.History.{Time, AppliedMigration}
use schemago.History.Table.{TableError, validate_table_name}
use schemago.Database.{
  SqlError, int, text, TimeValue, time_value, string_value, bytes_value, other_value, Row, Runtime,
}

-- An invalid table name, or the driver's error in the wrapper of the step that failed.
pub data StoreError : Type 0 where
  bad_table : TableError → StoreError
  create_failed record_failed query_failed scan_failed rows_failed : SqlError → StoreError

-- The statement of `EnsureTable`.
unfoldable pub create_query : Bytes → Bytes
create_query table =
    codes "CREATE TABLE IF NOT EXISTS "
    ++ (table
        ++ codes
            " (\n\t\tversion BIGINT PRIMARY KEY,\n\t\tname VARCHAR(255) NOT NULL,\n\t\tapplied_at TIMESTAMPTZ NOT NULL DEFAULT CURRENT_TIMESTAMP,\n\t\tchecksum VARCHAR(64) NOT NULL\n\t);")

unfoldable pub insert_query : Bytes → Bytes
insert_query table =
    codes "INSERT INTO "
    ++ (table ++ codes " (version, name, applied_at, checksum)\n\t\tVALUES ($1, $2, $3, $4)")

unfoldable pub select_query : Bytes → Bytes
select_query table =
    codes "SELECT version, name, applied_at, checksum FROM "
    ++ (table ++ codes " ORDER BY version ASC")

-- `isTableNotExistError`, on the text of the error.
unfoldable pub is_table_not_exist_error : SqlError → Bool
unfolding contains has_prefix to_lower
is_table_not_exist_error e =
    let msg = to_lower e in
    contains msg (codes "does not exist")
    || contains msg (codes "no such table")
    || contains msg (codes "undefined_table")
    || contains msg (codes "42p01")

module _ (rt : Runtime) where
  -- `EnsureTable`
  unfoldable pub ensure_table : Bytes → rt.World → Result StoreError (Unit {0}) × rt.World
  unfolding validate_table_name create_query
  ensure_table name w = elim (validate_table_name name) [
    | err e ↦ (err (bad_table e), w)
    | ok table ↦
        let (r, w') = rt.exec (create_query table) [] w in
        (elim r [ ok done ↦ ok tt | err e ↦ err (create_failed e) ], w')
  ]

  -- `if appliedAt.IsZero() { appliedAt = time.Now().UTC() }`
  abbrev pub applied_time : Time → rt.World → Time × rt.World
  applied_time t w = if t == 0 then rt.now w else (t, w)

  -- The result of the insertion, in the wrapper of `RecordMigration`.
  abbrev pub record_result : Result SqlError (Unit {0}) → Result StoreError (Unit {0})
  record_result (ok done) = ok tt
  record_result (err e) = err (record_failed e)

  -- `RecordMigration`; its callers pass no nil record.
  unfoldable pub record_migration :
      Bytes → AppliedMigration → rt.World → Result StoreError (Unit {0}) × rt.World
  unfolding validate_table_name insert_query
  record_migration name record' w = elim (validate_table_name name) [
    | err e ↦ (err (bad_table e), w)
    | ok table ↦
        let (applied_at, w') = applied_time record'.applied_at w in
        let args =
          int record'.version
          ∷ text record'.name
          ∷ text (rt.format_time applied_at)
          ∷ text record'.checksum
          ∷ [] in
        let (r, w'') = rt.exec (insert_query table) args w' in (record_result r, w'')
  ]

  abbrev or_time : Option Time → Time → Time
  or_time (some t) d = t
  or_time none d = d

  -- The switch on the type of applied_at; a text of no known layout leaves the zero time.
  abbrev pub scan_time : TimeValue → Time
  scan_time (time_value t) = t
  scan_time (string_value s) = or_time (rt.parse_time (codes "2006-01-02T15:04:05Z07:00") s) (
      or_time (rt.parse_time (codes "2006-01-02 15:04:05.999999999-07:00") s)
        (or_time (rt.parse_time (codes "2006-01-02 15:04:05") s) 0))
  scan_time (bytes_value s) = or_time (rt.parse_time (codes "2006-01-02T15:04:05Z07:00") s) 0
  scan_time other_value = 0

  -- The loop over the rows, up to the first that cannot be scanned, and then `rows.Err`.
  unfoldable pub scan_rows :
      List (Result SqlError Row) → Option SqlError → Result StoreError (List AppliedMigration)
  scan_rows [] none = ok []
  scan_rows [] (some e) = err (rows_failed e)
  scan_rows (err e ∷ rows) final = err (scan_failed e)
  scan_rows (ok row ∷ rows) final = scan_rows rows final >>= λ records. ok (
      record {
        version = row.version;
        name = row.name;
        applied_at = scan_time row.applied_at;
        checksum = row.checksum;
      }
      ∷ records)

  -- `GetAppliedMigrations`; a missing table is an empty history.
  unfoldable pub get_applied_migrations :
      Bytes → rt.World → Result StoreError (List AppliedMigration)
  unfolding validate_table_name select_query is_table_not_exist_error scan_rows
  get_applied_migrations name w = elim (validate_table_name name) [
    | err e ↦ err (bad_table e)
    | ok table ↦ elim (rt.query (select_query table) w) [
      | err e ↦ if is_table_not_exist_error e then ok [] else err (query_failed e)
      | ok found ↦ scan_rows found.rows found.final_error
    ]
  ]
