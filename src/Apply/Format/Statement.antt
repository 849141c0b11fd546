-- ===== src/Apply/Format/Statement.antt =====
-- The statement that a report cites, and its length.
use schemago.Base.{
  ℕ, zero, suc, ◌≤◌, ◌≡◌, refl, true, [], ◌∷◌, ◌++◌, length, length-append, all-append, arith, ltb,
  Bool-cases, inl, inr, if◌then◌else◌,
}
use schemago.Text.{Bytes, codes}
use schemago.Text.Lines.{split_lines, lacks}
use schemago.Apply.Format.{first_of, take, short_statement}

length-take : (n : ℕ) (s : Bytes) → length (take n s) ≤ n
unfolding take
length-take zero s = omega arith
length-take (suc n) [] = omega arith
length-take (suc n) (c ∷ s) = omega (arith, length-take n s)

lacks-take : (n d : ℕ) (s : Bytes) → lacks d s ≡ true → lacks d (take n s) ≡ true
unfolding take
lacks-take zero d s h = refl
lacks-take (suc n) d [] h = refl
lacks-take (suc n) d (c ∷ s) h = ground (arith, lacks-take n d s)

lacks-first_of : (s : Bytes) → lacks b'\n' (first_of (split_lines s)) ≡ true
unfolding split_lines
lacks-first_of [] = refl
lacks-first_of (c ∷ s) = ground (arith, lacks-first_of s)

-- The cut of a line.
abbrev cut : Bytes → Bytes
cut l = if ltb 80 (length l) then take 77 l ++ codes "..." else l

cut_bounds :
    (l : Bytes)
    → lacks b'\n' l ≡ true
    → (length (cut l) ≤ 80) × (lacks b'\n' (cut l) ≡ true) × (length l ≤ 80 → cut l ≡ l)
cut_bounds l h = elim (Bool-cases (ltb 80 (length l))) [
  | inl e ↦ rw e (
    omega (arith, length-append (take 77 l) (codes "..."), length-take 77 l),
    all-append _ (take 77 l) (codes "...") (lacks-take 77 b'\n' l h) refl,
    λ le. absurd (ground arith),
  )
  | inr e ↦ rw e (ground arith, h, λ le. refl)
]

-- The text of a statement in a report is at most 80 bytes long and stays on one line, whatever the
-- statement; if the first line of the statement has at most 80 bytes, it is that line.
pub short_statement_bounds :
    (sql : Bytes)
    → (length (short_statement sql) ≤ 80)
      × (lacks b'\n' (short_statement sql) ≡ true)
      × (length (first_of (split_lines sql)) ≤ 80
          → short_statement sql ≡ first_of (split_lines sql))
unfolding short_statement
short_statement_bounds sql = cut_bounds (first_of (split_lines sql)) (lacks-first_of sql)
