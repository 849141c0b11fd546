-- ===== src/Cli/Dispatch/Secondary.antt =====
-- The secondary check of the flags behind the command, and the exit code of wrong usage.
use schemago.Base.{some, ◌≡◌, refl, ◌↔◌, ap, Bool, false, List, [], ◌∷◌, All, arith}
use schemago.Text.{Bytes, codes}
use schemago.Cli.Flags.{Flags, is_one_of, parse_flags}
use schemago.Cli.Flags.Rest.{IsPositional, parse_flags-rest, parse_flags-positional}
use schemago.Cli.Dispatch.{
  Invocation, no_subcommand, dispatch, with_secondary, run_rest, run_with_writers, own_exit_code,
}

with_secondary-positional :
    (f : Flags) (args : List Bytes) → All IsPositional args → with_secondary f args ≡ f
unfolding with_secondary
with_secondary-positional f args h = rw (parse_flags-positional args h) refl

-- The command is the first positional argument, with the flags of the whole command line.
abbrev pub first_command : List Bytes → Flags → Invocation
first_command [] f = no_subcommand f.json_output
first_command (cmd ∷ _) f = dispatch cmd f

run_rest-first_command :
    (f : Flags) (rest : List Bytes) → All IsPositional rest → run_rest f rest ≡ first_command rest f
run_rest-first_command f [] h = refl
run_rest-first_command f (cmd ∷ args) h = ap (dispatch cmd) (with_secondary-positional f args h.1)

-- `RunWithWriters` runs the first positional argument as the command with the flags that stand
-- anywhere on the command line: the secondary check of the arguments behind the command never
-- changes a flag, and further positional arguments are ignored.
pub run_with_writers-first_command :
    (args : List Bytes)
    → run_with_writers args ≡ first_command (parse_flags args).1 (parse_flags args).0
unfolding run_with_writers
run_with_writers-first_command args =
    run_rest-first_command (parse_flags args).0 (parse_flags args).1 (parse_flags-rest args)

abbrev command_names : List Bytes
command_names =
    codes "status"
    ∷ codes "plan"
    ∷ codes "apply"
    ∷ codes "dry-run"
    ∷ codes "version"
    ∷ codes "--version"
    ∷ codes "-version"
    ∷ codes "help"
    ∷ codes "-h"
    ∷ codes "--help"
    ∷ []

-- The first word, if any, is a command.
abbrev pub has_command : List Bytes → Bool
has_command [] = false
has_command (cmd ∷ _) = is_one_of command_names cmd

own_exit_code-dispatch :
    (cmd : Bytes) (f : Flags)
    → (own_exit_code (dispatch cmd f) ≡ some 2) ↔ (is_one_of command_names cmd ≡ false)
unfolding dispatch is_one_of
own_exit_code-dispatch cmd f = ground arith

own_exit_code-first_command :
    (rest : List Bytes) (f : Flags)
    → (own_exit_code (first_command rest f) ≡ some 2) ↔ (has_command rest ≡ false)
own_exit_code-first_command [] f = (λ e. refl, λ e. refl)
own_exit_code-first_command (cmd ∷ rest) f = own_exit_code-dispatch cmd f

-- `RunWithWriters` itself returns ExitUsage exactly if no word is left beside the flags, or the first
-- one is none of the names of commands.
pub own_exit_code-run_with_writers :
    (args : List Bytes)
    → (own_exit_code (run_with_writers args) ≡ some 2) ↔ (has_command (parse_flags args).1 ≡ false)
own_exit_code-run_with_writers args =
    rw (run_with_writers-first_command args)
      (own_exit_code-first_command (parse_flags args).1 (parse_flags args).0)
