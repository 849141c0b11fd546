-- ===== src/History.antt =====
-- The package internal/history: the table of applied migrations and the pending files.
pub mod Table
pub mod Pending
pub mod Store
pub mod Reads
use schemago.Base.{ℕ}
use schemago.Base.Int.{ℤ}
use schemago.Text.{Bytes}

-- `time.Time`, in nanoseconds after the zero time.
abbrev pub Time : Type 0
Time = ℕ

-- A row of the history table.
pub record AppliedMigration : Type 0 where
  pub version : ℤ
  pub name : Bytes
  pub applied_at : Time
  pub checksum : Bytes
