-- ===== src/Text/Lines.antt =====
-- `strings.Split(s, "\n")` and `strings.Join(l, "\n")`.
use schemago.Text.{Bytes}
use schemago.Base.{
  ℕ, ◌≡◌, refl, Bool, true, List, [], ◌∷◌, ◌++◌, arith, ◌==◌, if◌then◌else◌, all, ap, not, ◌∙◌,
}

-- Puts a byte in front of the first piece.
abbrev onto_first : ℕ → List Bytes → List Bytes
onto_first c [] = (c ∷ []) ∷ []
onto_first c (l ∷ ls) = (c ∷ l) ∷ ls

unfoldable pub split_lines : Bytes → List Bytes
split_lines [] = [] ∷ []
split_lines (c ∷ s) = let ls = split_lines s in if c == b'\n' then [] ∷ ls else onto_first c ls

abbrev pub join_lines : List Bytes → Bytes
join_lines [] = []
join_lines (l ∷ []) = l
join_lines (l ∷ m ∷ ls) = l ++ (b'\n' ∷ join_lines (m ∷ ls))

-- No byte of the text is `c`.
abbrev pub lacks : ℕ → Bytes → Bool
lacks c = all (λ d. not (d == c))

pub split_lines-line :
    (l s : Bytes) → lacks b'\n' l ≡ true → split_lines (l ++ (b'\n' ∷ s)) ≡ l ∷ split_lines s
unfolding split_lines
split_lines-line [] s h = refl
split_lines-line (c ∷ l) s h = ground (arith, split_lines-line l s)

split_lines-last : (l : Bytes) → lacks b'\n' l ≡ true → split_lines l ≡ l ∷ []
unfolding split_lines
split_lines-last [] h = refl
split_lines-last (c ∷ l) h = ground (arith, split_lines-last l)

-- Splitting at the line feeds is the inverse of joining.
pub split_lines-join_lines :
    (l : Bytes) (ls : List Bytes)
    → all (lacks b'\n') (l ∷ ls) ≡ true
    → split_lines (join_lines (l ∷ ls)) ≡ l ∷ ls
split_lines-join_lines l [] h = split_lines-last l (ground arith)
split_lines-join_lines l (m ∷ ls) h =
    split_lines-line l (join_lines (m ∷ ls)) (ground arith)
    ∙ ap (◌∷◌ l) (split_lines-join_lines m ls (ground arith))
