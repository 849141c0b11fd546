-- ===== src/Migration/Statement.antt =====
-- `SplitStatements` of internal/migration/statement.go: a scan of the lines of a file, byte by byte.
-- The loop's variables are the record `Scan`; `i += 2` is a byte of the line that is skipped.
pub mod Shape
pub mod Pieces
pub mod RoundTrip
use schemago.Base.{
  ℕ, zero, suc, ◌+◌, Bool, true, false, not, ◌&&◌, ◌||◌, List, [], ◌∷◌, ◌++◌, ◌==◌, if◌then◌else◌,
}
use schemago.Text.{Bytes, codes, is_empty, has_prefix}
use schemago.Text.Lines.{split_lines}
use schemago.Text.Trim.{trim_space}

-- `Statement`; `sql` is the field SQL.
pub record Statement : Type 0 where
  pub index : ℕ
  pub line_number : ℕ
  pub sql : Bytes

-- The variables of `SplitStatements`, `current` for currentSQL.
pub record Scan : Type 0 where
  pub stmts : List Statement
  pub current : Bytes
  pub start_line : ℕ
  pub stmt_idx : ℕ
  pub in_single_quote : Bool
  pub in_double_quote : Bool
  pub in_multi_line_comment : Bool
  pub has_code : Bool

abbrev pub initial : Scan
initial = record {
  stmts = [];
  current = [];
  start_line = 1;
  stmt_idx = 1;
  in_single_quote = false;
  in_double_quote = false;
  in_multi_line_comment = false;
  has_code = false;
}

-- How one turn of the byte loop ends: with the next byte after `skip` more, or by `break`.
pub data Turn : Type 0 where
  next : ℕ → Scan → Turn
  stop : Scan → Turn

-- `isWhitespace`
abbrev pub is_whitespace : ℕ → Bool
is_whitespace c = c == b' ' || c == b'\t' || c == b'\n' || c == b'\r'

-- `i+1 < len(line) && line[i+1] == c`, on the bytes behind position i.
abbrev pub next_is : ℕ → Bytes → Bool
next_is c [] = false
next_is c (d ∷ rest) = d == c

abbrev pub write : Scan → Bytes → Scan
write s text = record s { current = s.current ++ text }

-- Appends the statement, unless it is empty.
abbrev pub push_statement : Bytes → Scan → Scan
push_statement text s = if is_empty text then s else record s {
  stmts = s.stmts ++ record { index = s.stmt_idx; line_number = s.start_line; sql = text } ∷ [];
  stmt_idx = s.stmt_idx + 1;
}

-- The case of a semicolon; `rest` is `line[i:]` after `i++`.
unfoldable pub end_statement : ℕ → Bytes → Scan → Scan
end_statement line_no rest s =
    let pushed = push_statement (trim_space (s.current ++ b';' ∷ [])) s in
    record pushed {
      current = [];
      has_code = false;
      start_line =
          if not (is_empty rest) && not (is_empty (trim_space rest))
          then line_no
          else pushed.start_line;
    }

-- One turn of the byte loop at the byte `ch`, with `rest` behind it.
unfoldable pub step : ℕ → ℕ → Bytes → Scan → Turn
step line_no ch rest s =
    if s.in_multi_line_comment
    then if ch == b'*' && next_is b'/' rest
      then next 1
          (record s { current = s.current ++ (b'*' ∷ b'/' ∷ []); in_multi_line_comment = false })
      else next 0 (write s (ch ∷ []))
    else if not s.in_single_quote && not s.in_double_quote && ch == b'-' && next_is b'-' rest
    then stop (write s (ch ∷ rest))
    else if not s.in_single_quote && not s.in_double_quote && ch == b'/' && next_is b'*' rest
    then next 1
        (record s { current = s.current ++ (b'/' ∷ b'*' ∷ []); in_multi_line_comment = true })
    else if ch == b'\'' && not s.in_double_quote
    then next 0 (record s {
      in_single_quote = not s.in_single_quote;
      current = s.current ++ ch ∷ [];
      has_code = true;
    })
    else if ch == b'"' && not s.in_single_quote
    then next 0 (record s {
      in_double_quote = not s.in_double_quote;
      current = s.current ++ ch ∷ [];
      has_code = true;
    })
    else if ch == b';'
        && not s.in_single_quote
        && not s.in_double_quote
        && not s.in_multi_line_comment
    then next 0 (end_statement line_no rest s)
    else next 0 (record s {
      current = s.current ++ ch ∷ [];
      has_code = s.has_code || not (is_whitespace ch);
    })

-- The byte loop over the rest of a line; the number counts bytes to skip.
unfoldable pub scan_line : ℕ → ℕ → Bytes → Scan → Scan
scan_line line_no skip [] s = s
scan_line line_no (suc skip) (ch ∷ rest) s = scan_line line_no skip rest s
scan_line line_no zero (ch ∷ rest) s = elim (step line_no ch rest s) [
  | next skip s' ↦ scan_line line_no skip rest s'
  | stop s' ↦ s'
]

-- A blank line, or one that is all comment, between two statements.
abbrev pub is_skipped : Bytes → Scan → Bool
is_skipped trimmed s =
    not s.has_code
    && not s.in_multi_line_comment
    && not s.in_single_quote
    && not s.in_double_quote
    && (is_empty trimmed || has_prefix trimmed (codes "--"))

-- `if !hasCode && trimmed != ""`
abbrev pub mark_start : ℕ → Bytes → Scan → Scan
mark_start line_no trimmed s =
    if not s.has_code && not (is_empty trimmed) then record s { start_line = line_no } else s

-- `if currentSQL.Len() > 0`
abbrev pub end_line : Scan → Scan
end_line s = if is_empty s.current then s else write s (b'\n' ∷ [])

-- One turn of the line loop.
unfoldable pub scan_whole_line : ℕ → Bytes → Scan → Scan
unfolding has_prefix
scan_whole_line line_no line s =
    if is_skipped (trim_space line) s
    then s
    else end_line (scan_line line_no 0 line (mark_start line_no (trim_space line) s))

unfoldable pub scan_lines : ℕ → List Bytes → Scan → Scan
unfolding scan_whole_line
scan_lines line_no [] s = s
scan_lines line_no (line ∷ lines) s =
    scan_lines (line_no + 1) lines (scan_whole_line line_no line s)

-- What is left after the last line is a statement of its own.
abbrev pub finish : Scan → List Statement
finish s = (push_statement (trim_space s.current) s).stmts

-- `SplitStatements`
unfoldable pub split_statements : Bytes → List Statement
unfolding scan_lines scan_line step end_statement split_lines
split_statements sql_content = finish (scan_lines 1 (split_lines sql_content) initial)

-- A predicate of the state that a turn leaves.
abbrev pub TurnHas {κ} : (Scan → Type κ) → Turn → Type κ
TurnHas P (next skip s) = P s
TurnHas P (stop s) = P s

module _ {κ} (line_no : ℕ) (P : Scan → Type κ)
    (keep : (ch : ℕ) (rest : Bytes) (s : Scan) → P s → TurnHas P (step line_no ch rest s)) where
  -- The invariant rule of the byte loop.
  pub scan_line_inv : (skip : ℕ) (line : Bytes) (s : Scan) → P s → P (scan_line line_no skip line s)
  unfolding scan_line
  scan_line_inv skip [] s p = p
  scan_line_inv (suc skip) (ch ∷ rest) s p = scan_line_inv skip rest s p
  scan_line_inv zero (ch ∷ rest) s p =
      go (λ k. scan_line_inv k rest) (step line_no ch rest s) (keep ch rest s p)
    where
      go :
          ((skip : ℕ) (s' : Scan) → P s' → P (scan_line line_no skip rest s'))
          → (t : Turn) → TurnHas P t
          → P (elim t [ next skip s' ↦ scan_line line_no skip rest s' | stop s' ↦ s' ])
      go ih (next skip s') h = ih skip s' h
      go ih (stop s') h = h
