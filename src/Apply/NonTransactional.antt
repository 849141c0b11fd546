-- ===== src/Apply/NonTransactional.antt =====
-- `IsNonTransactional` of internal/apply/apply.go: the search for nonTransactionalRegex.
use schemago.Base.{
  ℕ, Bool, false, not, ◌&&◌, ◌||◌, Option, none, some, List, [], ◌∷◌, leb, ◌==◌, if◌then◌else◌,
}
use schemago.Text.{Bytes, codes, lower_byte}

-- `\w` and `\s` of a regular expression.
abbrev pub is_word_byte : ℕ → Bool
is_word_byte c =
    (leb b'a' c && leb c b'z')
    || (leb b'A' c && leb c b'Z')
    || (leb b'0' c && leb c b'9')
    || c == b'_'

abbrev pub is_blank : ℕ → Bool
is_blank c = c == b'\t' || c == b'\n' || c == 12 || c == b'\r' || c == b' '

abbrev starts_word : Bytes → Bool
starts_word [] = false
starts_word (c ∷ s) = is_word_byte c

-- Behind the second byte of the long s, U+017F, which `(?i)` takes for an s.
abbrev after_long_s : Bytes → Option Bytes
after_long_s [] = none
after_long_s (d ∷ s) = if d == 0xBF then some s else none

-- What stands behind the word `w` of lower case letters, if `s` begins with it in any case.
unfoldable pub match_word : Bytes → Bytes → Option Bytes
match_word [] s = some s
match_word (l ∷ w) [] = none
match_word (l ∷ w) (c ∷ s) =
    elim (if lower_byte c == l
      then some s
      else if l == b's' && c == 0xC5
      then after_long_s s
      else none) [ none ↦ none | some rest ↦ match_word w rest ]

-- `\s+`: blanks are no letters, so all of them go.
unfoldable pub skip_blanks : Bytes → Bytes
skip_blanks [] = []
skip_blanks (c ∷ s) = if is_blank c then skip_blanks s else c ∷ s

abbrev match_blanks : Bytes → Option Bytes
match_blanks [] = none
match_blanks (c ∷ s) = if is_blank c then some (skip_blanks s) else none

-- Words with blanks between them, and a word boundary at the end.
unfoldable pub match_words : List Bytes → Bytes → Bool
unfolding match_word skip_blanks
match_words [] s = not (starts_word s)
match_words (w ∷ []) s = elim (match_word w s) [ none ↦ false | some rest ↦ not (starts_word rest) ]
match_words (w ∷ v ∷ ws) s = elim (match_word w s) [
  | none ↦ false
  | some rest ↦ elim (match_blanks rest) [ none ↦ false | some rest' ↦ match_words (v ∷ ws) rest' ]
]

abbrev phrases : List (List Bytes)
phrases =
    (codes "create" ∷ codes "index" ∷ codes "concurrently" ∷ [])
    ∷ (codes "drop" ∷ codes "index" ∷ codes "concurrently" ∷ [])
    ∷ (codes "vacuum" ∷ [])
    ∷ (codes "reindex" ∷ [])
    ∷ (codes "create" ∷ codes "database" ∷ [])
    ∷ (codes "drop" ∷ codes "database" ∷ [])
    ∷ []

unfoldable pub match_any : List (List Bytes) → Bytes → Bool
unfolding match_words
match_any [] s = false
match_any (ws ∷ rest) s = match_words ws s || match_any rest s

-- The search at each position; the flag says that a word byte stands before it. Every phrase
-- begins with a word byte, so `\b` asks that none stands there.
unfoldable pub search_from : Bool → Bytes → Bool
unfolding match_any
search_from after_word [] = false
search_from after_word (c ∷ s) =
    (not after_word && match_any phrases (c ∷ s)) || search_from (is_word_byte c) s

-- `IsNonTransactional`
unfoldable pub is_non_transactional : Bytes → Bool
unfolding search_from
is_non_transactional = search_from false
