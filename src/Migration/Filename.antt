-- ===== src/Migration/Filename.antt =====
-- File names: `MigrationFile` and `ParseFilename` of internal/migration/convention.go.
pub mod Grammar
use schemago.Base.{
  ℕ, zero, suc, ◌+◌, ◌-◌, ◌*◌, Bool, true, false, not, ◌&&◌, ◌||◌, List, [], ◌∷◌, ◌++◌, ltb, leb,
  ◌==◌, if◌then◌else◌, Option, none, some, Result, ok, err, reverse, ◌>>=◌,
}
use schemago.Base.Int.{ℤ, pos}
use schemago.Text.{Bytes, codes, is_empty, eq_bytes}
use schemago.Text.Trim.{trim_space}

pub record MigrationFile : Type 0 where
  pub version : ℤ
  pub raw_version : Bytes
  pub description : Bytes
  pub filename : Bytes
  pub path : Bytes
  pub checksum : Bytes

-- The errors of `ParseFilename`, all of which wrap ErrInvalidFilename: no match, a version that
-- strconv refuses, and an empty description.
pub data FilenameError : Type 0 where
  bad_format bad_version empty_description : Bytes → FilenameError

-- `filepath.Base` on Unix: trailing slashes go, then all up to the last slash.
abbrev pub drop_slashes : Bytes → Bytes
drop_slashes [] = []
drop_slashes (c ∷ s) = if c == b'/' then drop_slashes s else c ∷ s

abbrev pub last_element : Bytes → Bytes → Bytes
last_element element [] = element
last_element element (c ∷ s) = last_element (if c == b'/' then [] else element ++ c ∷ []) s

unfoldable pub base_name : Bytes → Bytes
base_name [] = codes "."
base_name (c ∷ s) =
    let element = last_element [] (reverse (drop_slashes (reverse (c ∷ s)))) in
    if is_empty element then codes "/" else element

abbrev pub is_digit : ℕ → Bool
is_digit c = leb b'0' c && leb c b'9'

-- `[a-zA-Z0-9_-]`
abbrev pub is_word : ℕ → Bool
is_word c =
    (leb b'a' c && leb c b'z') || (leb b'A' c && leb c b'Z') || is_digit c || c == b'_' || c == b'-'

-- The longest prefix of bytes that pass the test, and the rest.
abbrev pub span : (ℕ → Bool) → Bytes → Bytes × Bytes
span p [] = ([], [])
span p (c ∷ s) = let (taken, rest) = span p s in if p c then (c ∷ taken, rest) else ([], c ∷ s)

-- filenameRegex, `^([0-9]+)_([a-zA-Z0-9_-]+)\.sql$`: the two groups. No byte of a group can stand
-- behind it, so the longest prefix is the only one that can match.
abbrev match_description : Bytes → Bytes → Option (Bytes × Bytes)
match_description raw s =
    let (description, rest) = span is_word s in
    if not (is_empty description) && eq_bytes rest (codes ".sql")
    then some (raw, description)
    else none

abbrev match_separator : Bytes → Bytes → Option (Bytes × Bytes)
match_separator raw [] = none
match_separator raw (c ∷ s) =
    if not (is_empty raw) && c == b'_' then match_description raw s else none

unfoldable pub match_filename : Bytes → Option (Bytes × Bytes)
unfolding eq_bytes
match_filename name = let (raw, rest) = span is_digit name in match_separator raw rest

-- The value of decimal digits.
abbrev pub decimal_from : ℕ → Bytes → ℕ
decimal_from n [] = n
decimal_from n (c ∷ s) = decimal_from (n * 10 + (c - b'0')) s

abbrev pub decimal : Bytes → ℕ
decimal = decimal_from 0

-- `math.MaxInt64 + 1`
abbrev pub int64_limit : ℕ
int64_limit = 9_223_372_036_854_775_808

-- `strconv.ParseInt(s, 10, 64)` of digits: the value, unless it is out of range.
unfoldable pub parse_int : Bytes → Option ℤ
parse_int s = if ltb (decimal s) int64_limit then some (pos (decimal s)) else none

-- What follows the match of the regular expression in `ParseFilename`.
abbrev parse_groups : Bytes → Bytes → Option (Bytes × Bytes) → Result FilenameError MigrationFile
parse_groups path name none = err (bad_format name)
parse_groups path name (some (raw, text)) = elim (parse_int raw) [
  | none ↦ err (bad_version raw)
  | some v ↦
      if is_empty (trim_space text)
      then err (empty_description name)
      else ok (record {
        version = v;
        raw_version = raw;
        description = text;
        filename = name;
        path = path;
        checksum = [];
      })
]

-- `ParseFilename`
unfoldable pub parse_filename : Bytes → Result FilenameError MigrationFile
unfolding base_name match_filename parse_int
parse_filename path = let name = base_name path in parse_groups path name (match_filename name)
