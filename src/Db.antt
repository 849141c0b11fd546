-- ===== src/Db.antt =====
-- The package internal/db: connecting, the health check, and the texts of its errors.

pub mod Handles
use schemago.Base.{
  ◌≡◌, Bool, true, false, not, ◌&&◌, ◌||◌, Option, none, some, List, [], ◌∷◌, ◌++◌, Result, ok, err,
  if◌then◌else◌,
}
use schemago.Base.Int.{ℤ, pos, ltb_ℤ}
use schemago.Text.{Bytes, codes, is_empty, eq_bytes, has_prefix, contains, after_prefix}
use schemago.Text.Trim.{trim_space}

-- A Go error: whether it is context.DeadlineExceeded or wraps it, whether it is or wraps a net.Error
-- with Timeout(), and its text.
pub record GoError : Type 0 where
  pub is_deadline : Bool
  pub is_timeout : Bool
  pub message : Bytes

-- `errors.New`
abbrev pub new_error : Bytes → GoError
new_error text = record { is_deadline = false; is_timeout = false; message = text }

-- `fmt.Errorf` of a text that ends with `%w`.
abbrev pub wrap : Bytes → GoError → GoError
wrap text e = record e { message = text ++ e.message }

-- The part of database/sql and of the drivers that makes a connection, on a world that holds it. The
-- context of the call is given by its timeout.
pub record Connector (World : Type 0) : Type 0 where
  pub open_driver : Bytes → Bytes → World → Result GoError (Unit {0}) × World
  pub ping_context : ℤ → World → Option GoError × World
  pub close : World → World

-- DriverName
abbrev driver_name : Bytes
driver_name = codes "pgx"

-- DefaultTimeout
abbrev pub default_timeout : ℤ
default_timeout = pos 5_000_000_000

-- ErrNilDB
abbrev err_nil_db : GoError
err_nil_db = new_error (codes "database connection handle is nil")

-- ErrEmptyConnectionString
abbrev pub err_empty_connection_string : GoError
err_empty_connection_string = new_error (codes "database connection string cannot be empty")

-- The switch on the text of an error: what is put in front of it.
unfoldable pub reason : Bytes → Bytes
unfolding contains has_prefix
reason s =
    if contains s (codes "connection refused")
    then codes "database unreachable: connection refused by host: "
    else if contains s (codes "no such host") || contains s (codes "lookup")
    then codes "database unreachable: host name resolution failed: "
    else if contains s (codes "password authentication failed") || contains s (codes "auth failed")
    then codes "database authentication failed: invalid credentials: "
    else if contains s (codes "database") && contains s (codes "does not exist")
    then codes "database name error: target database does not exist: "
    else if contains s (codes "cannot parse")
    then codes "invalid database connection string: "
    else codes "database connection error: "

-- `strings.HasPrefix(s, "sqlite:") || strings.HasPrefix(s, "file:") || s == ":memory:"`
unfoldable pub is_sqlite : Bytes → Bool
unfolding has_prefix eq_bytes
is_sqlite s =
    has_prefix s (codes "sqlite:") || has_prefix s (codes "file:") || eq_bytes s (codes ":memory:")

-- `strings.TrimPrefix(s, p)`
abbrev trim_prefix : Bytes → Bytes → Bytes
trim_prefix s p = elim (after_prefix p s) [ none ↦ s | some rest ↦ rest ]

-- The driver and the data source name of a connection string.
unfoldable pub driver_of : Bytes → Bytes
unfolding is_sqlite
driver_of s = if is_sqlite s then codes "sqlite" else driver_name

unfoldable pub dsn_of : Bytes → Bytes
unfolding has_prefix after_prefix
dsn_of s = if has_prefix s (codes "sqlite:") then trim_prefix s (codes "sqlite:") else s

-- `if timeout <= 0 { timeout = DefaultTimeout }`
abbrev pub or_default : ℤ → ℤ
or_default timeout = if ltb_ℤ (pos 0) timeout then timeout else default_timeout

-- `%v` of a time.Duration is a parameter.
module _ (format_duration : ℤ → Bytes) where
  abbrev timed_out : ℤ → Bytes
  timed_out timeout = codes "database connection timed out after " ++ format_duration timeout

  -- `FormatError` of an error that is not nil.
  unfoldable pub format_error : GoError → ℤ → GoError
  unfolding reason
  format_error e timeout =
      if e.is_deadline
      then new_error (timed_out timeout)
      else if e.is_timeout
      then wrap (timed_out timeout ++ codes ": ") e
      else wrap (reason e.message) e

  module _ {World : Type 0} (c : Connector World) where
    -- `Connect`
    unfoldable pub connect : Bytes → World → Result GoError (Unit {0}) × World
    unfolding trim_space driver_of dsn_of
    connect s w =
        if is_empty (trim_space s)
        then (err err_empty_connection_string, w)
        else let (r, w') = c.open_driver (driver_of s) (dsn_of s) w in
          (
            elim r [
              | ok db ↦ ok tt
              | err e ↦ err (wrap (codes "failed to initialize database driver: ") e)
            ],
            w',
          )

    -- `Ping`, of a handle that may be nil.
    unfoldable pub ping : Bool → ℤ → World → Option GoError × World
    unfolding format_error
    ping has_db timeout w =
        if not has_db
        then (some err_nil_db, w)
        else let (r, w') = c.ping_context timeout w in
          (elim r [ none ↦ none | some e ↦ some (format_error e timeout) ], w')

    -- `ConnectAndPing`
    unfoldable pub connect_and_ping : Bytes → ℤ → World → Result GoError (Unit {0}) × World
    unfolding connect ping
    connect_and_ping s timeout w =
        let limit = or_default timeout in
        let (r, w1) = connect s w in
        elim r [
          | err e ↦ (err (format_error e limit), w1)
          | ok db ↦
              let (p, w2) = ping true limit w1 in
              elim p [ some e ↦ (err e, c.close w2) | none ↦ (ok tt, w2) ]
        ]
