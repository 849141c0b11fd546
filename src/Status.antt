-- ===== src/Status.antt =====
-- The package internal/status: the report on every version, and its exit code.
pub mod Items
pub mod Counts
pub mod UpToDate
pub mod Agreement
pub mod Discovered
pub mod Format
use schemago.Base.{
  ℕ, ◌+◌, Bool, true, false, not, ◌&&◌, ◌||◌, Option, none, some, List, [], ◌∷◌, ◌++◌, ltb,
  if◌then◌else◌, map,
}
use schemago.Base.Int.{ℤ, ltb_ℤ}
use schemago.Text.{Bytes, is_empty, eq_bytes}
use schemago.Sort.{sort}
use schemago.Map.{Map, lookup, insert, index, index_from, keys}
use schemago.Migration.Filename.{MigrationFile}
use schemago.History.{AppliedMigration, Time}
use schemago.History.Pending.{is_mismatch}

-- `StatusState`; `unset` is the zero value, the empty text.
pub data StatusState : Type 0 where
  unset state_applied state_pending state_drifted state_missing : StatusState

pub record Item : Type 0 where
  pub version : ℤ
  pub name : Bytes
  pub state : StatusState
  pub applied_at : Option Time
  pub db_checksum : Bytes
  pub file_checksum : Bytes

pub record Report : Type 0 where
  pub items : List Item
  pub applied_count : ℕ
  pub pending_count : ℕ
  pub drifted_count : ℕ
  pub missing_count : ℕ

-- `HasPending`
abbrev pub has_pending : Report → Bool
has_pending r = ltb 0 r.pending_count

-- `HasDrift`
abbrev pub has_drift : Report → Bool
has_drift r = ltb 0 r.drifted_count || ltb 0 r.missing_count

-- `ExitCode`
unfoldable pub exit_code : Report → ℕ
exit_code r = if has_pending r || has_drift r then 1 else 0

-- The item before the switch.
abbrev new_item : ℤ → Item
new_item v = record {
  version = v;
  name = [];
  state = unset;
  applied_at = none;
  db_checksum = [];
  file_checksum = [];
}

abbrev append_item : Item → Report → Report
append_item item r = record r { items = r.items ++ item ∷ [] }

-- The switch on what the two maps hold for a version, with the counters that it raises.
unfoldable pub add_item : ℤ → Option MigrationFile → Option AppliedMigration → Report → Report
unfolding eq_bytes
add_item v (some disc) (some app) r =
    let drifted = is_mismatch app.checksum disc.checksum in
    append_item
      (record {
        version = v;
        name = disc.filename;
        state = if drifted then state_drifted else state_applied;
        applied_at = some app.applied_at;
        db_checksum = app.checksum;
        file_checksum = disc.checksum;
      })
      (record r {
        drifted_count = if drifted then r.drifted_count + 1 else r.drifted_count;
        applied_count = r.applied_count + 1;
      })
add_item v (some disc) none r =
    append_item
      (record (new_item v) {
        name = disc.filename;
        state = state_pending;
        file_checksum = disc.checksum;
      })
      (record r { pending_count = r.pending_count + 1 })
add_item v none (some app) r =
    append_item
      (record (new_item v) {
        name = app.name;
        applied_at = some app.applied_at;
        db_checksum = app.checksum;
        state = state_missing;
      })
      (record r { missing_count = r.missing_count + 1; applied_count = r.applied_count + 1 })
add_item v none none r = append_item (new_item v) r

-- The loop over the sorted versions.
unfoldable pub add_items : Map MigrationFile → Map AppliedMigration → List ℤ → Report → Report
unfolding lookup add_item
add_items disc_map app_map [] r = r
add_items disc_map app_map (v ∷ versions) r =
    add_items disc_map app_map versions (add_item v (lookup v disc_map) (lookup v app_map) r)

-- `for v := range m { allVersionsMap[v] = struct{}{} }`
unfoldable pub mark_keys : List ℤ → Map (Unit {0}) → Map (Unit {0})
unfolding insert
mark_keys [] all_versions = all_versions
mark_keys (v ∷ vs) all_versions = mark_keys vs (insert v tt all_versions)

-- The keys of both maps in ascending order.
unfoldable pub sorted_versions : Map MigrationFile → Map AppliedMigration → List ℤ
unfolding mark_keys sort
sorted_versions disc_map app_map =
    sort ltb_ℤ (keys (mark_keys (keys app_map) (mark_keys (keys disc_map) [])))

abbrev pub empty_report : Report
empty_report = record {
  items = [];
  applied_count = 0;
  pending_count = 0;
  drifted_count = 0;
  missing_count = 0;
}

-- `BuildReport`
unfoldable pub build_report : List MigrationFile → List AppliedMigration → Report
unfolding index_from sorted_versions add_items
build_report discovered applied =
    let disc_map = index (λ (disc : MigrationFile). disc.version) discovered in
    let app_map = index (λ (app : AppliedMigration). app.version) applied in
    add_items disc_map app_map (sorted_versions disc_map app_map) empty_report
