-- ===== src/Config/Precedence.antt =====
-- Each setting against the order of its sources.
use schemago.Base.{
  ◌≡◌, Option, none, some, List, [], ◌∷◌, Result, ok, err, if◌then◌else◌, arith, Bool-cases, inl,
  inr,
}
use schemago.Base.Int.{ℤ, pos, LtZ}
use schemago.Text.{Bytes, is_empty}
use schemago.Text.Trim.{trim_space}
use schemago.Text.Trimmed.{IsTrimmed, trim_space-IsTrimmed}
use schemago.History.Table.{default_table_name}
use schemago.Config.{
  env_database_url, env_migrations_dir, env_table_name, ConfigError, Config, default_migrations_dir,
  or_default_timeout, resolve_database_url, resolve_migrations_dir, resolve_table_name,
  new_with_opts,
}

-- The first source that is not blank, without the white space around it.
abbrev pub first_set : List Bytes → Option Bytes
first_set [] = none
first_set (s ∷ sources) = if is_empty (trim_space s) then first_set sources else some (trim_space s)

first_set-IsTrimmed : (sources : List Bytes) {v : Bytes} → first_set sources ≡ some v → IsTrimmed v
first_set-IsTrimmed [] h = absurd (cc h)
first_set-IsTrimmed (s ∷ sources) {v = v} h = elim (Bool-cases (is_empty (trim_space s))) [
  | inl e ↦ first_set-IsTrimmed sources (rw e at h)
  | inr e ↦ let same : trim_space s ≡ v = cc (rw e at h) in rw (← same) (trim_space-IsTrimmed s)
]

-- What each result says of the flags and the environment.
abbrev pub Verdict : (Bytes → Bytes) → Bytes → Bytes → Bytes → Result ConfigError Config → Type 0
Verdict getenv url dir table (err e) = first_set (url ∷ getenv env_database_url ∷ []) ≡ none
Verdict getenv url dir table (ok cfg) =
    (first_set (url ∷ getenv env_database_url ∷ []) ≡ some cfg.database_url)
    × (first_set (dir ∷ getenv env_migrations_dir ∷ default_migrations_dir ∷ [])
        ≡ some cfg.migrations_dir)
    × (first_set (table ∷ getenv env_table_name ∷ default_table_name ∷ []) ≡ some cfg.table_name)
    × LtZ (pos 0) cfg.timeout
    × (IsTrimmed cfg.database_url × IsTrimmed cfg.migrations_dir × IsTrimmed cfg.table_name)

module _ (getenv : Bytes → Bytes) where
  resolve_migrations_dir-first_set :
      (dir : Bytes)
      → first_set (dir ∷ getenv env_migrations_dir ∷ default_migrations_dir ∷ [])
        ≡ some (resolve_migrations_dir getenv dir)
  unfolding resolve_migrations_dir trim_space
  resolve_migrations_dir-first_set dir = ground arith

  resolve_table_name-first_set :
      (table : Bytes)
      → first_set (table ∷ getenv env_table_name ∷ default_table_name ∷ [])
        ≡ some (resolve_table_name getenv table)
  unfolding resolve_table_name trim_space
  resolve_table_name-first_set table = ground arith

  resolve_database_url-first_set :
      (url : Bytes)
      → first_set (url ∷ getenv env_database_url ∷ []) ≡ (
          if is_empty (resolve_database_url getenv url)
          then none
          else some (resolve_database_url getenv url))
  unfolding resolve_database_url
  resolve_database_url-first_set url = ground arith

  or_default_timeout_pos : (timeout : ℤ) → LtZ (pos 0) (or_default_timeout timeout)
  or_default_timeout_pos timeout = ground arith

  -- Each setting is the first of the flag, the environment variable and the default that is not
  -- blank, without the white space around it, and the timeout is positive. The result is an error
  -- exactly if neither the flag nor the environment has a connection string.
  pub new_with_opts-Verdict :
      (url dir table : Bytes) (timeout : ℤ)
      → Verdict getenv url dir table (new_with_opts getenv url dir table timeout)
  unfolding new_with_opts
  new_with_opts-Verdict url dir table timeout =
      let u = resolve_database_url-first_set url in
      let d = resolve_migrations_dir-first_set dir in
      let t = resolve_table_name-first_set table in
      elim (Bool-cases (is_empty (resolve_database_url getenv url))) [
        | inl e ↦ rw (e, new_with_opts) (rw e at u)
        | inr e ↦
            rw (e, new_with_opts)
              (
                rw e at u,
                d,
                t,
                or_default_timeout_pos timeout,
                (
                  first_set-IsTrimmed (url ∷ getenv env_database_url ∷ []) (rw e at u),
                  first_set-IsTrimmed
                      (dir ∷ getenv env_migrations_dir ∷ default_migrations_dir ∷ []) d,
                  first_set-IsTrimmed (table ∷ getenv env_table_name ∷ default_table_name ∷ []) t,
                ),
              )
      ]
