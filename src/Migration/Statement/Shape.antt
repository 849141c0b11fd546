-- ===== src/Migration/Statement/Shape.antt =====
-- The statements that `SplitStatements` returns, whatever the input.
use schemago.Base.{
  ℕ, ◌+◌, ◌≤◌, ◌≡◌, false, not, ◌&&◌, List, [], ◌∷◌, ◌++◌, arith, length, length-append, Sorted,
  Sorted-concat, All, All-append, All-map, inl, inr, Bool-cases,
}
use schemago.Text.{Bytes, is_empty}
use schemago.Text.Lines.{split_lines}
use schemago.Text.Trim.{trim_space}
use schemago.Text.Trimmed.{IsTrimmed, trim_space-IsTrimmed}
use schemago.Migration.Statement.{
  Statement, Scan, initial, push_statement, end_statement, step, scan_line, scan_lines, TurnHas,
  scan_line_inv, mark_start, end_line, is_skipped, split_statements, scan_whole_line,
}

-- The indexes count up from `k`.
abbrev pub Numbered : ℕ → List Statement → Type 0
Numbered k [] = Unit
Numbered k (st ∷ sts) = (st.index ≡ k) × Numbered (k + 1) sts

-- The line numbers lie in a file of `n` lines.
abbrev pub IsWithin : ℕ → Statement → Type 0
IsWithin n st = (1 ≤ st.line_number) × (st.line_number ≤ n)

abbrev pub IsBefore : Statement → Statement → Type 0
IsBefore a b = a.line_number ≤ b.line_number

-- A text that is ready for execution: white space at no end, and not empty.
abbrev pub IsText : Statement → Type 0
IsText st = IsTrimmed st.sql × (is_empty st.sql ≡ false)

-- What holds of the loop's variables on line `n`.
record IsGood (n : ℕ) (stmts : List Statement) (idx start : ℕ) : Type 0 where
  numbered : Numbered 1 stmts
  next_idx : idx ≡ length stmts + 1
  within : All (IsWithin start) stmts
  ascending : Sorted IsBefore stmts
  texts : All IsText stmts
  start_pos : 1 ≤ start
  start_le : start ≤ n

abbrev Good : ℕ → Scan → Type 0
Good n s = IsGood n s.stmts s.stmt_idx s.start_line

Numbered-concat :
    (k : ℕ) (sts : List Statement) (st : Statement)
    → Numbered k sts
    → st.index ≡ length sts + k
    → Numbered k (sts ++ st ∷ [])
Numbered-concat k [] st h e = (omega arith, tt)
Numbered-concat k (x ∷ sts) st h e = (h.0, Numbered-concat (k + 1) sts st h.1 (omega arith))

Good-start :
    {n idx start : ℕ} (start' m : ℕ) {stmts : List Statement}
    → IsGood n stmts idx start
    → start ≤ start'
    → start' ≤ m
    → IsGood m stmts idx start'
Good-start start' m {stmts} g p q = record {
  numbered = g.numbered;
  next_idx = g.next_idx;
  within = All-map (IsWithin _) (IsWithin start') stmts (λ st w. (w.0, omega arith)) g.within;
  ascending = g.ascending;
  texts = g.texts;
  start_pos = omega (arith, g.start_pos);
  start_le = q;
}

push_statement-Good :
    {n : ℕ} (text : Bytes) (s : Scan) → IsTrimmed text → Good n s → Good n (push_statement text s)
push_statement-Good text s t g = elim (Bool-cases (is_empty text)) [
  | inl e ↦ rw e g
  | inr e ↦ rw e (record {
    numbered = Numbered-concat 1 s.stmts _ g.numbered g.next_idx;
    next_idx = omega (arith, g.next_idx, length-append s.stmts);
    within = All-append (IsWithin s.start_line) s.stmts _ g.within ((g.start_pos, omega arith), tt);
    ascending =
        Sorted-concat IsBefore s.stmts _ g.ascending
          (All-map (IsWithin s.start_line) _ s.stmts (λ st w. w.1) g.within);
    texts = All-append IsText s.stmts _ g.texts ((t, e), tt);
    start_pos = g.start_pos;
    start_le = g.start_le;
  })
]

end_statement-Good : (n : ℕ) (rest : Bytes) (s : Scan) → Good n s → Good n (end_statement n rest s)
unfolding end_statement
end_statement-Good n rest s g =
    let text = trim_space (s.current ++ b';' ∷ []) in
    let pushed = push_statement-Good text s (trim_space-IsTrimmed _) g in
    elim (Bool-cases (not (is_empty rest) && not (is_empty (trim_space rest)))) [
      | inl e ↦ rw e (Good-start n n pushed pushed.start_le (omega arith))
      | inr e ↦ rw e pushed
    ]

step-Good : (n ch : ℕ) (rest : Bytes) (s : Scan) → Good n s → TurnHas (Good n) (step n ch rest s)
unfolding step
step-Good n ch rest s g = ground (arith, end_statement-Good n rest s g)

scan_line-Good : (n : ℕ) (line : Bytes) (s : Scan) → Good n s → Good n (scan_line n 0 line s)
scan_line-Good n = scan_line_inv n (Good n) (step-Good n) 0

mark_start-Good : (n : ℕ) (text : Bytes) (s : Scan) → Good n s → Good n (mark_start n text s)
mark_start-Good n text s g = elim (Bool-cases (not s.has_code && not (is_empty text))) [
  | inl e ↦ rw e (Good-start n n g g.start_le (omega arith))
  | inr e ↦ rw e g
]

end_line-Good : (n : ℕ) (s : Scan) → Good n s → Good n (end_line s)
end_line-Good n s g = elim (Bool-cases (is_empty s.current)) [ inl e ↦ rw e g | inr e ↦ rw e g ]

scan_whole_line-Good :
    (n : ℕ) (line : Bytes) (s : Scan) → Good n s → Good n (scan_whole_line n line s)
unfolding scan_whole_line
scan_whole_line-Good n line s g =
    let text = trim_space line in
    let marked = mark_start n text s in
    elim (Bool-cases (is_skipped text s)) [
      | inl e ↦ rw e g
      | inr e ↦ rw e (
          end_line-Good n (scan_line n 0 line marked)
            (scan_line-Good n line marked (mark_start-Good n text s g)))
    ]

scan_lines-Good :
    (n last : ℕ) (lines : List Bytes) (s : Scan)
    → n + length lines ≡ last + 1
    → s.start_line ≤ last
    → Good n s
    → Good last (scan_lines n lines s)
unfolding scan_lines
scan_lines-Good n last [] s e le g = Good-start s.start_line last g (omega arith) le
scan_lines-Good n last (line ∷ lines) s e le g =
    let s' = scan_whole_line n line s in
    let g' = scan_whole_line-Good n line s g in
    scan_lines-Good (n + 1) last lines s' (omega arith) (omega (arith, g'.start_le))
      (Good-start s'.start_line (n + 1) g' (omega arith) (omega (arith, g'.start_le)))

initial-Good : Good 1 initial
initial-Good = record {
  numbered = tt;
  next_idx = omega arith;
  within = tt;
  ascending = tt;
  texts = tt;
  start_pos = omega arith;
  start_le = omega arith;
}

length-split_lines_pos : (s : Bytes) → 1 ≤ length (split_lines s)
unfolding split_lines
length-split_lines_pos [] = omega arith
length-split_lines_pos (c ∷ s) = ground (arith, length-split_lines_pos s)

-- Whatever the content, the statements are numbered 1, 2, 3, …; the line numbers lie between 1 and
-- the number of lines and never go down; and each text is not empty and has no white space at
-- either end.
pub split_statements_shape :
    (sql : Bytes)
    → Numbered 1 (split_statements sql)
      × All (IsWithin (length (split_lines sql))) (split_statements sql)
      × Sorted IsBefore (split_statements sql)
      × All IsText (split_statements sql)
unfolding split_statements
split_statements_shape sql =
    let n = length (split_lines sql) in
    let s = scan_lines 1 (split_lines sql) initial in
    let g =
      scan_lines-Good 1 n (split_lines sql) initial (omega arith) (length-split_lines_pos sql)
        initial-Good in
    let f = push_statement-Good (trim_space s.current) s (trim_space-IsTrimmed _) g in
    (
      f.numbered,
      All-map (IsWithin _) (IsWithin n) _ (λ st w. (w.0, omega (arith, f.start_le))) f.within,
      f.ascending,
      f.texts,
    )
