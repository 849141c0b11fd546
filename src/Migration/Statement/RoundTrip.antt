-- ===== src/Migration/Statement/RoundTrip.antt =====
-- Files that hold one statement on each line, with quoted texts and comments that may hold any
-- separator.
use schemago.Base.{
  ℕ, ◌+◌, ◌≡◌, refl, ◌∙◌, Bool, true, false, not, List, [], ◌∷◌, ◌++◌, arith, All, all, all-append,
  ◌==◌, append-nil, append_assoc, map,
}
use schemago.Text.{Bytes, codes, is_empty, has_prefix}
use schemago.Text.Lines.{join_lines, lacks, split_lines-join_lines}
use schemago.Text.Trim.{trim_space}
use schemago.Text.Trimmed.{IsTrimmed, trim_space_id}
use schemago.Migration.Statement.{
  Statement, Scan, end_statement, step, scan_line, scan_lines, finish, split_statements,
  scan_whole_line,
}
use schemago.Migration.Statement.Pieces.{
  Piece, byte, single_quoted, double_quoted, block_comment, render_piece, render_pieces, is_piece,
  is_joined, opens_comment, outside, scan_line-pieces,
}

-- The line of a statement.
abbrev pub line_of : List Piece → Bytes
line_of ps = render_pieces ps ++ b';' ∷ []

-- Between two statements.
abbrev ready : List Statement → ℕ → ℕ → Scan
ready sts idx start = record {
  stmts = sts;
  current = [];
  start_line = start;
  stmt_idx = idx;
  in_single_quote = false;
  in_double_quote = false;
  in_multi_line_comment = false;
  has_code = false;
}

has_prefix-dash :
    (c : ℕ) (rest : Bytes)
    → opens_comment (byte c) rest ≡ false
    → has_prefix (c ∷ rest) (codes "--") ≡ false
unfolding has_prefix
has_prefix-dash c [] h = ground arith
has_prefix-dash c (d ∷ rest) h = ground arith

line_of-not_skipped :
    (ps : List Piece)
    → all is_piece ps ≡ true
    → is_joined ps (b';' ∷ []) ≡ true
    → (is_empty (line_of ps) ≡ false) × (has_prefix (line_of ps) (codes "--") ≡ false)
unfolding has_prefix
line_of-not_skipped [] h j = (refl, refl)
line_of-not_skipped (byte c ∷ ps) h j =
    (refl, has_prefix-dash c (render_pieces ps ++ b';' ∷ []) (ground arith))
line_of-not_skipped (_ ∷ ps) h j = (refl, refl)

scan_line-semicolon :
    (n : ℕ) (text : Bytes) (sts : List Statement) (idx : ℕ) (code : Bool)
    → IsTrimmed (text ++ b';' ∷ [])
    → is_empty (text ++ b';' ∷ []) ≡ false
    → scan_line n 0 (b';' ∷ []) (outside (ready sts idx n) text code)
      ≡ ready
          (sts ++ record { index = idx; line_number = n; sql = text ++ b';' ∷ [] } ∷ [])
          (idx + 1)
          n
unfolding scan_line step end_statement
scan_line-semicolon n text sts idx code t ne = rw (trim_space_id (text ++ b';' ∷ []) t) (rw ne)

scan_line-line_of :
    (n : ℕ) (ps : List Piece) (sts : List Statement) (idx : ℕ)
    → all is_piece ps ≡ true
    → is_joined ps (b';' ∷ []) ≡ true
    → IsTrimmed (line_of ps)
    → scan_line n 0 (line_of ps) (ready sts idx n)
      ≡ ready (sts ++ record { index = idx; line_number = n; sql = line_of ps } ∷ []) (idx + 1) n
scan_line-line_of n ps sts idx h j t =
    scan_line-pieces n (ready sts idx n) ps (b';' ∷ []) [] false h j
    ∙ scan_line-semicolon n (render_pieces ps) sts idx _ t (line_of-not_skipped ps h j).0

scan_whole_line-line_of :
    (n : ℕ) (ps : List Piece) (sts : List Statement) (idx start : ℕ)
    → all is_piece ps ≡ true
    → is_joined ps (b';' ∷ []) ≡ true
    → IsTrimmed (line_of ps)
    → scan_whole_line n (line_of ps) (ready sts idx start)
      ≡ ready (sts ++ record { index = idx; line_number = n; sql = line_of ps } ∷ []) (idx + 1) n
unfolding scan_whole_line
scan_whole_line-line_of n ps sts idx start h j t =
    let (ne, np) = line_of-not_skipped ps h j in
    rw (trim_space_id (line_of ps) t) (rw (ne, np) (rw (scan_line-line_of n ps sts idx h j t)))

-- The statements of a file, numbered from `k` and standing on lines from `n`.
abbrev pub statements_from : ℕ → ℕ → List (List Piece) → List Statement
statements_from k n [] = []
statements_from k n (ps ∷ pss) =
    record { index = k; line_number = n; sql = line_of ps } ∷ statements_from (k + 1) (n + 1) pss

abbrev pub IsLine : List Piece → Type 0
IsLine ps = (all is_piece ps ≡ true) × (is_joined ps (b';' ∷ []) ≡ true) × IsTrimmed (line_of ps)

scan_lines-line_of :
    (n idx start : ℕ) (pss : List (List Piece)) (sts : List Statement)
    → All IsLine pss
    → (scan_lines n (map line_of pss) (ready sts idx start)).stmts
        ≡ sts ++ statements_from idx n pss
      × ((scan_lines n (map line_of pss) (ready sts idx start)).current ≡ [])
unfolding scan_lines
scan_lines-line_of n idx start [] sts h = (rw append-nil, refl)
scan_lines-line_of n idx start (ps ∷ pss) sts h =
    rw (scan_whole_line-line_of n ps sts idx start h.0.0 h.0.1 h.0.2, scan_lines)
      (let (e, c) =
          scan_lines-line_of (n + 1) (idx + 1) n pss
            (sts ++ record { index = idx; line_number = n; sql = line_of ps } ∷ []) h.1 in
        (e ∙ rw append_assoc, c))

render_piece-lacks : (p : Piece) → is_piece p ≡ true → lacks b'\n' (render_piece p) ≡ true
render_piece-lacks (byte c) h = ground arith
render_piece-lacks (single_quoted t) h = all-append _ t _ (ground arith) refl
render_piece-lacks (double_quoted t) h = all-append _ t _ (ground arith) refl
render_piece-lacks (block_comment t) h = all-append _ t _ (ground arith) refl

render_pieces-lacks :
    (ps : List Piece) → all is_piece ps ≡ true → lacks b'\n' (render_pieces ps) ≡ true
render_pieces-lacks [] h = refl
render_pieces-lacks (p ∷ ps) h =
    all-append _ (render_piece p) _ (render_piece-lacks p (ground arith))
      (render_pieces-lacks ps (ground arith))

lines_of-lack :
    (pss : List (List Piece)) → All IsLine pss → all (lacks b'\n') (map line_of pss) ≡ true
lines_of-lack [] h = refl
lines_of-lack (ps ∷ pss) h = ground (
  arith,
  all-append (λ d. not (d == b'\n')) (render_pieces ps) (b';' ∷ []) (render_pieces-lacks ps h.0.0)
      refl,
  lines_of-lack pss h.1,
)

-- A file that holds one statement on each line is split into exactly these statements, each with
-- its text unchanged, its index and its line number counted from 1, whatever separators its quoted
-- texts and block comments hold. A statement ends in a semicolon and has no white space around it; it is made of
-- single bytes, of texts in single or double quotes, and of block comments, all without a line feed. The single bytes are
-- any but quotes and semicolons, so also one - or /, as long as two of them do not start a comment; there is no line
-- comment. A quoted text is without its quote, and a block comment ends where it first can.
pub split_statements-join_lines :
    (pss : List (List Piece))
    → All IsLine pss
    → split_statements (join_lines (map line_of pss)) ≡ statements_from 1 1 pss
unfolding split_statements trim_space
split_statements-join_lines [] h = refl
split_statements-join_lines (ps ∷ pss) h =
    rw (split_lines-join_lines (line_of ps) (map line_of pss) (lines_of-lack (ps ∷ pss) h))
      (let (e, c) = scan_lines-line_of 1 1 1 (ps ∷ pss) [] h in rw (c, finish) e)
