-- ===== src/Database.antt =====
-- The packages database/sql and time, as far as the program calls them: an interface of operations
-- on a world that holds the server, the connection and the clock.
pub mod Transactions
use schemago.Base.{ℕ, Option, List, Result}
use schemago.Base.Int.{ℤ}
use schemago.Text.{Bytes}
use schemago.History.{Time}

-- An error of the driver, by its text.
abbrev pub SqlError : Type 0
SqlError = Bytes

-- An argument of a query.
pub data SqlArg : Type 0 where
  int : ℤ → SqlArg
  text : Bytes → SqlArg

-- The column applied_at as the driver hands it over.
pub data TimeValue : Type 0 where
  time_value : Time → TimeValue
  string_value bytes_value : Bytes → TimeValue
  other_value : TimeValue

pub record Row : Type 0 where
  pub version : ℤ
  pub name : Bytes
  pub applied_at : TimeValue
  pub checksum : Bytes

-- `sql.Rows`: what each `Scan` gives, and `Err` after the last.
pub record Rows : Type 0 where
  pub rows : List (Result SqlError Row)
  pub final_error : Option SqlError

-- `exec` is ExecContext, on the open transaction where there is one. A query changes nothing.
pub record Runtime : Type 1 where
  pub World : Type 0
  pub now : World → Time × World
  pub begin_tx : World → Result SqlError (Unit {0}) × World
  pub exec : Bytes → List SqlArg → World → Result SqlError (Unit {0}) × World
  pub commit : World → Result SqlError (Unit {0}) × World
  pub rollback : World → Result SqlError (Unit {0}) × World
  pub query : Bytes → World → Result SqlError Rows
  -- `t.Format(time.RFC3339)` and `time.Parse`
  pub format_time : Time → Bytes
  pub parse_time : Bytes → Bytes → Option Time
