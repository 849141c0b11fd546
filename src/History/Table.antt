-- ===== src/History/Table.antt =====
-- `ValidateTableName` of internal/history/history.go.
use schemago.Base.{
  ◌≡◌, refl, subst, inl, inr, Bool-cases, ℕ, Bool, false, ◌&&◌, ◌||◌, [], ◌∷◌, all, Result, ok, err,
  leb, ◌==◌, if◌then◌else◌,
}
use schemago.Text.{Bytes, codes}

-- ErrInvalidTableName
pub data TableError : Type 0 where
  invalid_table_name : Bytes → TableError

-- DefaultTableName
abbrev pub default_table_name : Bytes
default_table_name = codes "schemago_migrations"

abbrev pub is_name_start : ℕ → Bool
is_name_start c = (leb b'a' c && leb c b'z') || (leb b'A' c && leb c b'Z') || c == b'_'

abbrev pub is_name_byte : ℕ → Bool
is_name_byte c = is_name_start c || (leb b'0' c && leb c b'9')

-- tableNameRegex, `^[a-zA-Z_][a-zA-Z0-9_]*$`
abbrev pub is_table_name : Bytes → Bool
is_table_name [] = false
is_table_name (c ∷ s) = is_name_start c && all is_name_byte s

-- `ValidateTableName`
unfoldable pub validate_table_name : Bytes → Result TableError Bytes
validate_table_name [] = ok default_table_name
validate_table_name (c ∷ s) =
    if is_table_name (c ∷ s) then ok (c ∷ s) else err (invalid_table_name (c ∷ s))

-- The name of an accepted table is accepted as it is.
pub accepted_twice :
    (name : Bytes) {table : Bytes}
    → validate_table_name name ≡ ok table
    → validate_table_name table ≡ ok table
unfolding validate_table_name
accepted_twice [] h =
    let same : default_table_name ≡ _ = cc h in subst (λ t. validate_table_name t ≡ ok t) same refl
accepted_twice (c ∷ s) {table = t} h = elim (Bool-cases (is_table_name (c ∷ s))) [
  | inl e ↦
      let same : c ∷ s ≡ t = cc (rw e at h) in
      subst (λ t. validate_table_name t ≡ ok t) same (rw e refl)
  | inr e ↦ absurd (cc (rw e at h))
]
