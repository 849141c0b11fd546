-- ===== src/Cli/Flags.antt =====
-- `ParseFlags` of internal/cli/cli.go.
pub mod Rest
pub mod RoundTrip
use schemago.Base.{ℕ, Bool, true, false, ◌||◌, Option, none, some, List, [], ◌∷◌, if◌then◌else◌}
use schemago.Text.{Bytes, codes, eq_bytes, after_prefix}

-- The results of `ParseFlags`, but for `rest`.
pub record Flags : Type 0 where
  pub db_url : Bytes
  pub dir : Bytes
  pub table : Bytes
  pub show_sql : Bool
  pub no_lock : Bool
  pub json_output : Bool

abbrev pub no_flags : Flags
no_flags = record {
  db_url = [];
  dir = [];
  table = [];
  show_sql = false;
  no_lock = false;
  json_output = false;
}

-- The flags that take a value, and those that do not.
pub data Field : Type 0 where
  url_field dir_field table_field : Field

pub data Switch : Type 0 where
  sql_switch lock_switch json_switch : Switch

abbrev pub set_field : Field → Bytes → Flags → Flags
set_field url_field v f = record f { db_url = v }
set_field dir_field v f = record f { dir = v }
set_field table_field v f = record f { table = v }

abbrev pub set_switch : Switch → Flags → Flags
set_switch sql_switch f = record f { show_sql = true }
set_switch lock_switch f = record f { no_lock = true }
set_switch json_switch f = record f { json_output = true }

-- The case of the switch that an argument falls in: a flag whose value is the next argument, one
-- with its value behind `=`, a flag with no value, or the default.
pub data Case : Type 0 where
  takes_next : Field → Case
  has_value : Field → Bytes → Case
  switches : Switch → Case
  positional : Case

-- `arg == a || arg == b || …`
unfoldable pub is_one_of : List Bytes → Bytes → Bool
unfolding eq_bytes
is_one_of [] arg = false
is_one_of (name ∷ names) arg = eq_bytes arg name || is_one_of names arg

-- The value of `strings.TrimPrefix` behind the first prefix that `strings.HasPrefix` finds.
unfoldable pub value_behind : List Bytes → Bytes → Option Bytes
unfolding after_prefix
value_behind [] arg = none
value_behind (p ∷ ps) arg = elim (after_prefix p arg) [
  | some v ↦ some v
  | none ↦ value_behind ps arg
]

-- The names of the flags with a value, and their prefixes.
abbrev pub names_of : Field → List Bytes
names_of url_field = codes "--database-url" ∷ codes "-database-url" ∷ []
names_of dir_field =
    codes "--dir" ∷ codes "-dir" ∷ codes "--migrations-dir" ∷ codes "-migrations-dir" ∷ []
names_of table_field = codes "--table" ∷ codes "-table" ∷ []

abbrev pub prefixes_of : Field → List Bytes
prefixes_of url_field = codes "--database-url=" ∷ codes "-database-url=" ∷ []
prefixes_of dir_field =
    codes "--dir=" ∷ codes "-dir=" ∷ codes "--migrations-dir=" ∷ codes "-migrations-dir=" ∷ []
prefixes_of table_field = codes "--table=" ∷ codes "-table=" ∷ []

abbrev pub field_case : Field → Bytes → Case → Case
field_case field arg otherwise =
    if is_one_of (names_of field) arg
    then takes_next field
    else elim (value_behind (prefixes_of field) arg) [
      | some v ↦ has_value field v
      | none ↦ otherwise
    ]

-- The names of the flags with no value.
abbrev pub sql_names : List Bytes
sql_names = codes "--sql" ∷ codes "-sql" ∷ codes "--show-sql" ∷ codes "--verbose" ∷ codes "-v" ∷ []

abbrev pub lock_names : List Bytes
lock_names = codes "--no-lock" ∷ codes "-no-lock" ∷ codes "--lock=false" ∷ []

abbrev pub json_names : List Bytes
json_names = codes "--json" ∷ codes "-json" ∷ codes "--output=json" ∷ []

abbrev pub switch_case : Bytes → Case
switch_case arg =
    if is_one_of sql_names arg
    then switches sql_switch
    else if is_one_of lock_names arg
    then switches lock_switch
    else if is_one_of json_names arg
    then switches json_switch
    else positional

unfoldable pub classify : Bytes → Case
unfolding is_one_of value_behind
classify arg =
    field_case url_field arg
      (field_case dir_field arg (field_case table_field arg (switch_case arg)))

-- The loop, from the flags that are set so far. A flag that is the last argument takes no value.
unfoldable pub parse_from : Flags → List Bytes → Flags × List Bytes
unfolding classify
parse_from f [] = (f, [])
parse_from f (arg ∷ []) = elim (classify arg) [
  | takes_next field ↦ (f, [])
  | has_value field v ↦ (set_field field v f, [])
  | switches s ↦ (set_switch s f, [])
  | positional ↦ (f, arg ∷ [])
]
parse_from f (arg ∷ next ∷ args) = elim (classify arg) [
  | takes_next field ↦ parse_from (set_field field next f) args
  | has_value field v ↦ parse_from (set_field field v f) (next ∷ args)
  | switches s ↦ parse_from (set_switch s f) (next ∷ args)
  | positional ↦ let (f', rest) = parse_from f (next ∷ args) in (f', arg ∷ rest)
]

-- `ParseFlags`
unfoldable pub parse_flags : List Bytes → Flags × List Bytes
unfolding parse_from
parse_flags args = parse_from no_flags args
