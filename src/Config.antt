-- ===== src/Config.antt =====
-- The package internal/config: what comes from a flag, from the environment, and by default.
pub mod Precedence
use schemago.Base.{Bool, not, List, [], ◌∷◌, Result, ok, err, if◌then◌else◌}
use schemago.Base.Int.{ℤ, pos, ltb_ℤ}
use schemago.Text.{Bytes, codes, is_empty}
use schemago.Text.Trim.{trim_space}
use schemago.History.Table.{default_table_name}

-- ErrMissingDatabaseURL
pub data ConfigError : Type 0 where
  missing_database_url : ConfigError

-- `Config`; the timeout is a number of nanoseconds.
pub record Config : Type 0 where
  pub database_url : Bytes
  pub timeout : ℤ
  pub migrations_dir : Bytes
  pub table_name : Bytes

-- DefaultTimeout
abbrev pub default_timeout : ℤ
default_timeout = pos 5_000_000_000

-- EnvDatabaseURL
abbrev pub env_database_url : Bytes
env_database_url = codes "DATABASE_URL"

-- EnvMigrationsDir
abbrev pub env_migrations_dir : Bytes
env_migrations_dir = codes "MIGRATIONS_DIR"

-- EnvTableName
abbrev pub env_table_name : Bytes
env_table_name = codes "MIGRATIONS_TABLE"

-- DefaultMigrationsDir
abbrev pub default_migrations_dir : Bytes
default_migrations_dir = codes "migrations"

-- `if timeout <= 0 { timeout = DefaultTimeout }`
abbrev pub or_default_timeout : ℤ → ℤ
or_default_timeout timeout = if ltb_ℤ (pos 0) timeout then timeout else default_timeout

-- `os.Getenv` is a parameter.
module _ (getenv : Bytes → Bytes) where
  -- `ResolveDatabaseURL`
  unfoldable pub resolve_database_url : Bytes → Bytes
  unfolding trim_space
  resolve_database_url flag_value =
      if not (is_empty (trim_space flag_value))
      then trim_space flag_value
      else trim_space (getenv env_database_url)

  -- `ResolveMigrationsDir`
  unfoldable pub resolve_migrations_dir : Bytes → Bytes
  unfolding trim_space
  resolve_migrations_dir flag_value =
      if not (is_empty (trim_space flag_value))
      then trim_space flag_value
      else let env_val = trim_space (getenv env_migrations_dir) in
        if not (is_empty env_val) then env_val else default_migrations_dir

  -- `ResolveTableName`
  unfoldable pub resolve_table_name : Bytes → Bytes
  unfolding trim_space
  resolve_table_name flag_value =
      if not (is_empty (trim_space flag_value))
      then trim_space flag_value
      else let env_val = trim_space (getenv env_table_name) in
        if not (is_empty env_val) then env_val else default_table_name

  -- `NewWithOpts`
  unfoldable pub new_with_opts : Bytes → Bytes → Bytes → ℤ → Result ConfigError Config
  unfolding resolve_database_url resolve_migrations_dir resolve_table_name
  new_with_opts flag_database_url flag_dir flag_table timeout =
      let db_url = resolve_database_url flag_database_url in
      if is_empty db_url
      then err missing_database_url
      else ok (record {
        database_url = db_url;
        timeout = or_default_timeout timeout;
        migrations_dir = resolve_migrations_dir flag_dir;
        table_name = resolve_table_name flag_table;
      })

  -- `New`
  unfoldable pub new : Bytes → ℤ → Result ConfigError Config
  unfolding new_with_opts
  new flag_database_url timeout = new_with_opts flag_database_url [] [] timeout
