-- ===== src/Migration/Filename/Grammar.antt =====
-- `ParseFilename` against the naming convention of docs/migration_convention.md.
use schemago.Base.{
  ℕ, ◌<◌, ◌≡◌, refl, sym, Bool, true, false, [], ◌∷◌, ◌++◌, arith, all, all-reverse, inl, inr,
  Option-cases, Option, none, some, Result, ok, err, reverse, subst,
}
use schemago.Base.Int.{ℤ, pos}
use schemago.Text.{Bytes, codes, is_empty, eq_bytes_iff}
use schemago.Text.Trim.{trim_space, space_width, space_width_back}
use schemago.Text.Trimmed.{trim_space_id}
use schemago.Migration.Filename.{
  MigrationFile, FilenameError, bad_format, bad_version, empty_description, base_name, is_digit,
  is_word, span, parse_groups, match_filename, match_description, match_separator, decimal,
  int64_limit, parse_int, parse_filename,
}

-- `name` is `<raw>_<description>.sql`.
pub record IsFilename (raw description name : Bytes) : Type 0 where
  pub digits : all is_digit raw ≡ true
  pub raw_some : is_empty raw ≡ false
  pub words : all is_word description ≡ true
  pub description_some : is_empty description ≡ false
  pub shape : name ≡ raw ++ (b'_' ∷ (description ++ codes ".sql"))

span_fst : (p : ℕ → Bool) (s : Bytes) → all p (span p s).0 ≡ true
span_fst p [] = refl
span_fst p (c ∷ s) = ground (arith, span_fst p s)

span_split : (p : ℕ → Bool) (s : Bytes) → s ≡ (span p s).0 ++ (span p s).1
span_split p [] = refl
span_split p (c ∷ s) = ground (arith, span_split p s)

-- A prefix that passes the test, with a byte behind it that does not, is the longest.
span-append :
    (p : ℕ → Bool) (s : Bytes) (c : ℕ) (r : Bytes)
    → all p s ≡ true
    → p c ≡ false
    → span p (s ++ (c ∷ r)) ≡ (s, c ∷ r)
span-append p [] c r h n = ground arith
span-append p (x ∷ s) c r h n = ground (arith, span-append p s c r)

match_filename_complete :
    (raw d : Bytes) {name : Bytes} → IsFilename raw d name → match_filename name ≡ some (raw, d)
unfolding match_filename
match_filename_complete raw d f = rw f.shape (
    rw (span-append is_digit raw b'_' (d ++ codes ".sql") f.digits refl) (
      rw f.raw_some
        (rw (span-append is_word d b'.' (codes "sql") f.words refl) (rw f.description_some))))

match_description_sound :
    (raw s raw' d : Bytes)
    → match_description raw s ≡ some (raw', d)
    → (raw ≡ raw') × (is_empty d ≡ false) × (all is_word d ≡ true) × (s ≡ d ++ codes ".sql")
match_description_sound raw s raw' d h = ground (
  arith,
  span_fst is_word s,
  span_split is_word s,
  eq_bytes_iff (span is_word s).1 (codes ".sql"),
)

match_separator_sound :
    (raw s raw' d : Bytes)
    → all is_digit raw ≡ true
    → match_separator raw s ≡ some (raw', d)
    → IsFilename raw' d (raw ++ s)
match_separator_sound raw [] raw' d ds h = cc
match_separator_sound raw (c ∷ s) raw' d ds h = ground (arith, match_description_sound raw s raw' d)

match_filename_sound :
    (name raw d : Bytes) → match_filename name ≡ some (raw, d) → IsFilename raw d name
unfolding match_filename
match_filename_sound name raw d h = subst (IsFilename raw d) (sym (span_split is_digit name)) (
    match_separator_sound (span is_digit name).0 (span is_digit name).1 raw d
      (span_fst is_digit name) h)

-- A description holds no white space, so the check for an empty one never fires.
word-space_width : (c : ℕ) (s : Bytes) → is_word c ≡ true → space_width (c ∷ s) ≡ 0
unfolding space_width
word-space_width c [] h = ground arith
word-space_width c (d ∷ []) h = ground arith
word-space_width c (d ∷ e ∷ s) h = ground arith

word-lt : (c : ℕ) → is_word c ≡ true → (32 < c) × (c < 128)
word-lt c h = ground arith

word-space_width_back : (c : ℕ) (s : Bytes) → is_word c ≡ true → space_width_back (c ∷ s) ≡ 0
unfolding space_width_back
word-space_width_back c [] h = ground (arith, word-lt c h)
word-space_width_back c (d ∷ []) h = ground (arith, word-lt c h)
word-space_width_back c (d ∷ e ∷ s) h = ground (arith, word-lt c h)

words-space_width : (s : Bytes) → all is_word s ≡ true → space_width s ≡ 0
words-space_width [] h = unfold space_width in refl
words-space_width (c ∷ s) h = word-space_width c s (ground arith)

words-space_width_back : (s : Bytes) → all is_word s ≡ true → space_width_back s ≡ 0
words-space_width_back [] h = unfold space_width_back in refl
words-space_width_back (c ∷ s) h = word-space_width_back c s (ground arith)

words-trim_space : (s : Bytes) → all is_word s ≡ true → trim_space s ≡ s
words-trim_space s h =
    trim_space_id s
      (words-space_width s h, words-space_width_back (reverse s) (all-reverse is_word s h))

parse_int-some : (s : Bytes) → decimal s < int64_limit → parse_int s ≡ some (pos (decimal s))
unfolding parse_int
parse_int-some s lt = ground arith

parse_int-none : (s : Bytes) → parse_int s ≡ none → ¬ (decimal s < int64_limit)
unfolding parse_int
parse_int-none s h lt = ground arith

parse_int_value :
    (s : Bytes) (v : ℤ) → parse_int s ≡ some v → (v ≡ pos (decimal s)) × (decimal s < int64_limit)
unfolding parse_int
parse_int_value s v h = ground arith

-- The file that a name `<raw>_<d>.sql` stands for.
abbrev pub file_of : Bytes → Bytes → Bytes → MigrationFile
file_of path raw d = record {
  version = pos (decimal raw);
  raw_version = raw;
  description = d;
  filename = base_name path;
  path = path;
  checksum = [];
}

-- What each result says of the path.
abbrev pub Verdict : Bytes → Result FilenameError MigrationFile → Type 0
Verdict path (ok m) =
    IsFilename m.raw_version m.description (base_name path)
    × (decimal m.raw_version < int64_limit)
    × (m ≡ file_of path m.raw_version m.description)
Verdict path (err (bad_format name)) =
    (name ≡ base_name path) × ((raw d : Bytes) → ¬ IsFilename raw d (base_name path))
Verdict path (err (bad_version raw)) =
    (d : Bytes) × IsFilename raw d (base_name path) × ¬ (decimal raw < int64_limit)
Verdict path (err (empty_description name)) = ⊥

groups-Verdict :
    (path raw d : Bytes) (v : Option ℤ)
    → parse_int raw ≡ v
    → IsFilename raw d (base_name path)
    → Verdict path (parse_groups path (base_name path) (some (raw, d)))
groups-Verdict path raw d none e f = rw (e, parse_groups) (d, f, parse_int-none raw e)
groups-Verdict path raw d (some v) e f =
    let (p, lt) = parse_int_value raw v e in
    rw (e, parse_groups)
      (rw (words-trim_space d f.words) (rw f.description_some (f, lt, ground arith)))

-- `ParseFilename` accepts a path exactly if its base name has the form `<version>_<description>.sql`
-- and the version is below 2^63, and returns the parts of the name. It rejects any other name as
-- one of no such form, or else as one whose version is out of range; a description is never empty.
pub parse_filename-Verdict : (path : Bytes) → Verdict path (parse_filename path)
unfolding parse_filename
parse_filename-Verdict path = elim (Option-cases (match_filename (base_name path))) [
  | inl e ↦ rw e (refl, λ raw d f. cc (match_filename_complete raw d f))
  | inr ((raw, d), e) ↦
      rw e (groups-Verdict path raw d (parse_int raw) refl (match_filename_sound _ raw d e))
]
