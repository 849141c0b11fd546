-- ===== src/Tests/Commands.antt =====
-- Command lines.
use schemago.Base.{◌≡◌, refl, false, List, [], ◌∷◌}
use schemago.Text.{codes, eq_bytes, after_prefix}
use schemago.Cli.Flags.{dir_field, json_switch, parse_flags}
use schemago.Cli.Flags.RoundTrip.{Argument, separate, inline, switch, word, render}
use schemago.Cli.Dispatch.{handle_apply, run_with_writers}
use schemago.Cli.Dispatch.Secondary.{first_command, run_with_writers-first_command}

-- apply --dir=db --json extra --dir --json
abbrev line : List Argument
line =
    word (codes "apply")
    ∷ inline dir_field (codes "db")
    ∷ switch json_switch
    ∷ word (codes "extra")
    ∷ separate dir_field (codes "--json")
    ∷ []

-- The flag behind the command is ignored.
help_test :
    run_with_writers (codes "apply" ∷ codes "--help" ∷ []) ≡ handle_apply [] [] [] false false
unfolding run_with_writers eq_bytes after_prefix
help_test = refl

run_with_writers-first_command_example :
    run_with_writers (render line)
    ≡ first_command (parse_flags (render line)).1 (parse_flags (render line)).0
run_with_writers-first_command_example = run_with_writers-first_command (render line)
