-- ===== src/Cli/Dispatch.antt =====
-- `RunWithWriters` of internal/cli/cli.go, up to the handlers.
pub mod Secondary
use schemago.Base.{
  ℕ, Bool, true, false, not, ◌||◌, Option, none, some, List, [], ◌∷◌, if◌then◌else◌,
}
use schemago.Text.{Bytes, codes, is_empty, eq_bytes}
use schemago.Cli.Flags.{Flags, is_one_of, parse_flags}

-- ExitSuccess and ExitUsage.
abbrev pub exit_success : ℕ
exit_success = 0

abbrev pub exit_usage : ℕ
exit_usage = 2

-- What `RunWithWriters` does: the call of a handler with its flags, or what it prints before it
-- returns by itself, as JSON or as text.
pub data Invocation : Type 0 where
  handle_status : Bytes → Bytes → Bytes → Bool → Invocation
  handle_plan : Bytes → Bytes → Bytes → Bool → Bool → Invocation
  handle_apply handle_dry_run : Bytes → Bytes → Bytes → Bool → Bool → Invocation
  show_version show_help : Bool → Invocation
  no_subcommand : Bool → Invocation
  unknown_command : Bytes → Bool → Invocation

-- The exit code that `RunWithWriters` gives by itself, if it calls no handler.
abbrev pub own_exit_code : Invocation → Option ℕ
own_exit_code (show_version json) = some exit_success
own_exit_code (show_help json) = some exit_success
own_exit_code (no_subcommand json) = some exit_usage
own_exit_code (unknown_command cmd json) = some exit_usage
own_exit_code call = none

-- The switch on the command.
unfoldable pub dispatch : Bytes → Flags → Invocation
unfolding is_one_of eq_bytes
dispatch cmd f =
    if eq_bytes cmd (codes "status")
    then handle_status f.db_url f.dir f.table f.json_output
    else if eq_bytes cmd (codes "plan")
    then handle_plan f.db_url f.dir f.table f.show_sql f.json_output
    else if eq_bytes cmd (codes "apply")
    then handle_apply f.db_url f.dir f.table f.no_lock f.json_output
    else if eq_bytes cmd (codes "dry-run")
    then handle_dry_run f.db_url f.dir f.table f.no_lock f.json_output
    else if is_one_of (codes "version" ∷ codes "--version" ∷ codes "-version" ∷ []) cmd
    then show_version f.json_output
    else if is_one_of (codes "help" ∷ codes "-h" ∷ codes "--help" ∷ []) cmd
    then show_help f.json_output
    else unknown_command cmd f.json_output

-- `subURL != "" || subDir != "" || …`
abbrev is_any_set : Flags → Bool
is_any_set sub =
    not (is_empty sub.db_url)
    || not (is_empty sub.dir)
    || not (is_empty sub.table)
    || sub.show_sql
    || sub.no_lock
    || sub.json_output

-- The secondary check: what is not set yet is taken from the arguments behind the command.
abbrev merge : Flags → Flags → Flags
merge f sub = record {
  db_url = if is_empty f.db_url then sub.db_url else f.db_url;
  dir = if is_empty f.dir then sub.dir else f.dir;
  table = if is_empty f.table then sub.table else f.table;
  show_sql = if not f.show_sql then sub.show_sql else f.show_sql;
  no_lock = if not f.no_lock then sub.no_lock else f.no_lock;
  json_output = if not f.json_output then sub.json_output else f.json_output;
}

unfoldable pub with_secondary : Flags → List Bytes → Flags
unfolding parse_flags
with_secondary f cmd_args =
    let sub = (parse_flags cmd_args).0 in if is_any_set sub then merge f sub else f

abbrev pub run_rest : Flags → List Bytes → Invocation
run_rest f [] = no_subcommand f.json_output
run_rest f (cmd ∷ cmd_args) = dispatch cmd (with_secondary f cmd_args)

-- `RunWithWriters`
unfoldable pub run_with_writers : List Bytes → Invocation
unfolding parse_flags with_secondary dispatch
run_with_writers args = let (f, rest) = parse_flags args in run_rest f rest
