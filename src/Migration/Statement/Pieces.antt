-- ===== src/Migration/Statement/Pieces.antt =====
-- The byte loop of `SplitStatements` on quoted texts, comments and other bytes.
use schemago.Base.{
  ℕ, ◌≡◌, refl, ◌∙◌, Bool, true, false, not, ◌&&◌, ◌||◌, List, [], ◌∷◌, ◌++◌, arith, all, ◌==◌,
  append-nil, append_assoc,
}
use schemago.Text.{Bytes}
use schemago.Text.Lines.{lacks}
use schemago.Migration.Statement.{Scan, step, next_is, scan_line, is_whitespace}

-- A piece of a statement: a byte of its own, a quoted text, or a block comment.
pub data Piece : Type 0 where
  byte : ℕ → Piece
  single_quoted double_quoted block_comment : Bytes → Piece

abbrev pub render_piece : Piece → Bytes
render_piece (byte c) = c ∷ []
render_piece (single_quoted t) = b'\'' ∷ (t ++ b'\'' ∷ [])
render_piece (double_quoted t) = b'"' ∷ (t ++ b'"' ∷ [])
render_piece (block_comment t) = b'/' ∷ b'*' ∷ (t ++ b'*' ∷ b'/' ∷ [])

abbrev pub render_pieces : List Piece → Bytes
render_pieces [] = []
render_pieces (p ∷ ps) = render_piece p ++ render_pieces ps

abbrev pub is_plain : ℕ → Bool
is_plain c = not (c == b'\n') && not (c == b';') && not (c == b'\'') && not (c == b'"')

-- A star and a slash behind it stand in the text.
abbrev pub ends_comment : Bytes → Bool
ends_comment [] = false
ends_comment (c ∷ t) = c == b'*' && next_is b'/' t || ends_comment t

-- A quoted text lacks its own quote, a comment does not end before its end, and none holds a line feed.
abbrev pub is_piece : Piece → Bool
is_piece (byte c) = is_plain c
is_piece (single_quoted t) = lacks b'\'' t && lacks b'\n' t
is_piece (double_quoted t) = lacks b'"' t && lacks b'\n' t
is_piece (block_comment t) = not (ends_comment t) && lacks b'\n' t

-- The byte starts a comment together with the one behind it.
abbrev pub opens_comment : Piece → Bytes → Bool
opens_comment (byte c) rest = c == b'-' && next_is b'-' rest || c == b'/' && next_is b'*' rest
opens_comment _ rest = false

-- No byte of its own starts a comment.
abbrev pub is_joined : List Piece → Bytes → Bool
is_joined [] rest = true
is_joined (p ∷ ps) rest = not (opens_comment p (render_pieces ps ++ rest)) && is_joined ps rest

abbrev pub is_code : Piece → Bool
is_code (byte c) = not (is_whitespace c)
is_code (block_comment t) = false
is_code _ = true

-- The state outside quotes and comments, `s` with what has been read.
abbrev pub outside : Scan → Bytes → Bool → Scan
outside s text code = record s {
  current = text;
  has_code = code;
  in_single_quote = false;
  in_double_quote = false;
  in_multi_line_comment = false;
}

abbrev in_single : Scan → Bytes → Scan
in_single s text = record s {
  current = text;
  has_code = true;
  in_single_quote = true;
  in_double_quote = false;
  in_multi_line_comment = false;
}

abbrev in_double : Scan → Bytes → Scan
in_double s text = record s {
  current = text;
  has_code = true;
  in_single_quote = false;
  in_double_quote = true;
  in_multi_line_comment = false;
}

abbrev in_comment : Scan → Bytes → Bool → Scan
in_comment s text code = record s {
  current = text;
  has_code = code;
  in_single_quote = false;
  in_double_quote = false;
  in_multi_line_comment = true;
}

module _ (n : ℕ) (s : Scan) where
  scan_line-single :
      (t rest text : Bytes)
      → lacks b'\'' t ≡ true
      → scan_line n 0 (t ++ b'\'' ∷ rest) (in_single s text)
        ≡ scan_line n 0 rest (outside s (text ++ (t ++ b'\'' ∷ [])) true)
  unfolding scan_line step
  scan_line-single [] rest text h = refl
  scan_line-single (c ∷ t) rest text h = ground (
    arith,
    scan_line-single t rest (text ++ c ∷ []),
    append_assoc text (c ∷ []) (t ++ b'\'' ∷ []),
  )

  scan_line-double :
      (t rest text : Bytes)
      → lacks b'"' t ≡ true
      → scan_line n 0 (t ++ b'"' ∷ rest) (in_double s text)
        ≡ scan_line n 0 rest (outside s (text ++ (t ++ b'"' ∷ [])) true)
  unfolding scan_line step
  scan_line-double [] rest text h = refl
  scan_line-double (c ∷ t) rest text h =
      ground (
        arith,
        scan_line-double t rest (text ++ c ∷ []),
        append_assoc text (c ∷ []) (t ++ b'"' ∷ []),
      )

  scan_line-comment :
      (t rest text : Bytes) (code : Bool)
      → ends_comment t ≡ false
      → scan_line n 0 (t ++ b'*' ∷ b'/' ∷ rest) (in_comment s text code)
        ≡ scan_line n 0 rest (outside s (text ++ (t ++ b'*' ∷ b'/' ∷ [])) code)
  unfolding scan_line step
  scan_line-comment [] rest text code h = refl
  scan_line-comment (c ∷ []) rest text code h = ground (
    arith,
    scan_line-comment [] rest (text ++ c ∷ []) code,
    append_assoc text (c ∷ []) (b'*' ∷ b'/' ∷ []),
  )
  scan_line-comment (c ∷ d ∷ t) rest text code h = ground (
    arith,
    scan_line-comment (d ∷ t) rest (text ++ c ∷ []) code,
    append_assoc text (c ∷ []) (d ∷ t ++ b'*' ∷ b'/' ∷ []),
  )

scan_line-piece :
    (n : ℕ) (s : Scan) (p : Piece) (rest text : Bytes) (code : Bool)
    → is_piece p ≡ true
    → opens_comment p rest ≡ false
    → scan_line n 0 (render_piece p ++ rest) (outside s text code)
      ≡ scan_line n 0 rest (outside s (text ++ render_piece p) (code || is_code p))
unfolding scan_line step
scan_line-piece n s (byte c) rest text code h j = ground arith
scan_line-piece n s (single_quoted t) rest text code h j = ground (
  arith,
  scan_line-single n s t rest (text ++ b'\'' ∷ []),
  append_assoc t (b'\'' ∷ []) rest,
  append_assoc text (b'\'' ∷ []) (t ++ b'\'' ∷ []),
)
scan_line-piece n s (double_quoted t) rest text code h j = ground (
  arith,
  scan_line-double n s t rest (text ++ b'"' ∷ []),
  append_assoc t (b'"' ∷ []) rest,
  append_assoc text (b'"' ∷ []) (t ++ b'"' ∷ []),
)
scan_line-piece n s (block_comment t) rest text code h j = ground (
  arith,
  scan_line-comment n s t rest (text ++ b'/' ∷ b'*' ∷ []) code,
  append_assoc t (b'*' ∷ b'/' ∷ []) rest,
  append_assoc text (b'/' ∷ b'*' ∷ []) (t ++ b'*' ∷ b'/' ∷ []),
)

abbrev pub is_code_any : Bool → List Piece → Bool
is_code_any code [] = code
is_code_any code (p ∷ ps) = is_code_any (code || is_code p) ps

pub scan_line-pieces :
    (n : ℕ) (s : Scan) (ps : List Piece) (rest text : Bytes) (code : Bool)
    → all is_piece ps ≡ true
    → is_joined ps rest ≡ true
    → scan_line n 0 (render_pieces ps ++ rest) (outside s text code)
      ≡ scan_line n 0 rest (outside s (text ++ render_pieces ps) (is_code_any code ps))
scan_line-pieces n s [] rest text code h j = rw append-nil
scan_line-pieces n s (p ∷ ps) rest text code h j =
    rw (append_assoc (render_piece p) (render_pieces ps) rest) (
      scan_line-piece n s p (render_pieces ps ++ rest) text code (ground arith) (ground arith)
      ∙ scan_line-pieces n s ps rest (text ++ render_piece p) (code || is_code p) (ground arith)
          (ground arith)
      ∙ rw append_assoc)
