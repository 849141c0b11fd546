-- ===== src/Cli/Flags/Rest.antt =====
-- What `ParseFlags` leaves as positional arguments.
use schemago.Base.{◌≡◌, refl, ap, List, [], ◌∷◌, All}
use schemago.Text.{Bytes}
use schemago.Cli.Flags.{
  Flags, no_flags, set_field, set_switch, Case, takes_next, has_value, switches, positional,
  classify, parse_from, parse_flags,
}

abbrev pub IsPositional : Bytes → Type 0
IsPositional arg = classify arg ≡ positional

-- The case of an argument, with its equation.
abbrev IsCase : Bytes → Case → Type 0
IsCase arg c = classify arg ≡ c

parse_from-IsPositional : (f : Flags) (args : List Bytes) → All IsPositional (parse_from f args).1
unfolding parse_from
parse_from-IsPositional f [] = tt
parse_from-IsPositional f (arg ∷ []) = go (classify arg) refl
  where
    go : (c : Case) → classify arg ≡ c → All IsPositional (parse_from f (arg ∷ [])).1
    go (takes_next field) e = rw (e, parse_from) tt
    go (has_value field v) e = rw (e, parse_from) tt
    go (switches s) e = rw (e, parse_from) tt
    go positional e = rw (e, parse_from) (e, tt)
parse_from-IsPositional f (arg ∷ next ∷ args) =
    go (λ g. parse_from-IsPositional g args) (λ g. parse_from-IsPositional g (next ∷ args))
      (classify arg) refl
  where
    go :
        ((g : Flags) → All IsPositional (parse_from g args).1)
        → ((g : Flags) → All IsPositional (parse_from g (next ∷ args)).1)
        → (c : Case) → classify arg ≡ c
        → All IsPositional (parse_from f (arg ∷ next ∷ args)).1
    go far near (takes_next field) e = rw (e, parse_from) (far (set_field field next f))
    go far near (has_value field v) e = rw (e, parse_from) (near (set_field field v f))
    go far near (switches s) e = rw (e, parse_from) (near (set_switch s f))
    go far near positional e = rw (e, parse_from) (e, near f)

parse_from-positional :
    (f : Flags) (args : List Bytes) → All IsPositional args → parse_from f args ≡ (f, args)
unfolding parse_from
parse_from-positional f [] h = refl
parse_from-positional f (arg ∷ []) h = rw (h.0, parse_from) refl
parse_from-positional f (arg ∷ next ∷ args) h =
    rw (h.0, parse_from) (ap (λ r. (r.0, arg ∷ r.1)) (parse_from-positional f (next ∷ args) h.1))

-- What is left is positional for a second call too.
pub parse_flags-rest : (args : List Bytes) → All IsPositional (parse_flags args).1
unfolding parse_flags
parse_flags-rest args = parse_from-IsPositional no_flags args

pub parse_flags-positional :
    (args : List Bytes) → All IsPositional args → parse_flags args ≡ (no_flags, args)
unfolding parse_flags
parse_flags-positional args h = parse_from-positional no_flags args h
