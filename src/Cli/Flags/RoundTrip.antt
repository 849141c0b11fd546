-- ===== src/Cli/Flags/RoundTrip.antt =====
-- Command lines that are built from flags and words in any order.
use schemago.Base.{◌≡◌, if◌then◌else◌, Bool, true, false, List, [], ◌∷◌, ◌++◌, ◌==◌}
use schemago.Text.{Bytes, codes}
use schemago.Cli.Flags.{
  Flags, Field, url_field, dir_field, table_field, Switch, sql_switch, lock_switch, json_switch,
  set_field, set_switch,
}

-- A flag with its value as the next argument or behind `=`, a flag with none, and another word.
pub data Argument : Type 0 where
  separate inline : Field → Bytes → Argument
  switch : Switch → Argument
  word : Bytes → Argument

abbrev flag_name : Field → Bytes
flag_name url_field = codes "--database-url"
flag_name dir_field = codes "--dir"
flag_name table_field = codes "--table"

abbrev switch_name : Switch → Bytes
switch_name sql_switch = codes "--sql"
switch_name lock_switch = codes "--no-lock"
switch_name json_switch = codes "--json"

-- The arguments that stand for an item.
abbrev pub render_argument : Argument → List Bytes
render_argument (separate field v) = flag_name field ∷ v ∷ []
render_argument (inline field v) = (flag_name field ++ b'=' ∷ v) ∷ []
render_argument (switch s) = switch_name s ∷ []
render_argument (word w) = w ∷ []

abbrev pub render : List Argument → List Bytes
render [] = []
render (item ∷ items) = render_argument item ++ render items

-- A word does not begin with a dash.
abbrev pub is_dashless : Bytes → Bool
is_dashless [] = true
is_dashless (c ∷ s) = if c == b'-' then false else true

abbrev pub IsArgument : Argument → Type 0
IsArgument (word w) = is_dashless w ≡ true
IsArgument _ = Unit

-- What the items set, a later one over an earlier one, and the words in order.
abbrev pub flags_of : Flags → List Argument → Flags
flags_of f [] = f
flags_of f (separate field v ∷ items) = flags_of (set_field field v f) items
flags_of f (inline field v ∷ items) = flags_of (set_field field v f) items
flags_of f (switch s ∷ items) = flags_of (set_switch s f) items
flags_of f (word w ∷ items) = flags_of f items

abbrev pub words_of : List Argument → List Bytes
words_of [] = []
words_of (word w ∷ items) = w ∷ words_of items
words_of (_ ∷ items) = words_of items

-- The names and the prefixes of flags begin with a dash.
abbrev is_dashed : Bytes → Bool
is_dashed [] = false
is_dashed (c ∷ s) = c == b'-'
