-- ===== src/Text/Trimmed.antt =====
-- Texts with no white space at either end, and `strings.TrimSpace` on them.
use mathlib.Core.List.{reverse-append, reverse-reverse}
use schemago.Base.{
  ℕ, zero, suc, ◌≡◌, refl, sym, ◌∙◌, ap, [], ◌∷◌, ◌++◌, reverse, arith, inl, inr, ◌⊎◌, subst,
}
use schemago.Text.{Bytes}
use schemago.Text.Trim.{
  space_width, space_width_back, drop_spaces, trim_left, trim_right, trim_space,
}

-- No white space at the start, and none at the end.
abbrev pub IsTrimmed : Bytes → Type 0
IsTrimmed s = (space_width s ≡ 0) × (space_width_back (reverse s) ≡ 0)

ℕ-cases : (n : ℕ) → (n ≡ 0) ⊎ ((m : ℕ) × (n ≡ suc m))
ℕ-cases zero = inl refl
ℕ-cases (suc m) = inr (m, refl)

module _ (width : Bytes → ℕ) (width-nil : width [] ≡ 0) where
  drop_spaces-clean : (k : ℕ) (s : Bytes) → width (drop_spaces width k s) ≡ 0
  unfolding drop_spaces
  drop_spaces-clean zero [] = width-nil
  drop_spaces-clean (suc k) [] = width-nil
  drop_spaces-clean (suc k) (c ∷ s) = drop_spaces-clean k s
  drop_spaces-clean zero (c ∷ s) = elim (ℕ-cases (width (c ∷ s))) [
    | inl e ↦ rw (e, drop_spaces) e
    | inr (m, e) ↦ rw (e, drop_spaces) (drop_spaces-clean m s)
  ]

  drop_spaces_id : (s : Bytes) → width s ≡ 0 → drop_spaces width 0 s ≡ s
  unfolding drop_spaces
  drop_spaces_id [] h = refl
  drop_spaces_id (c ∷ s) h = rw (h, drop_spaces)

  -- What is dropped stands in front of what is left.
  drop_spaces_suffix :
      (k : ℕ) (s : Bytes) → (dropped : Bytes) × (s ≡ dropped ++ drop_spaces width k s)
  unfolding drop_spaces
  drop_spaces_suffix zero [] = ([], refl)
  drop_spaces_suffix (suc k) [] = ([], refl)
  drop_spaces_suffix (suc k) (c ∷ s) = let (d, e) = drop_spaces_suffix k s in (c ∷ d, ap (◌∷◌ c) e)
  drop_spaces_suffix zero (c ∷ s) = elim (ℕ-cases (width (c ∷ s))) [
    | inl e ↦ ([], rw (e, drop_spaces))
    | inr (m, e) ↦
        let (d, p) = drop_spaces_suffix m s in (c ∷ d, rw (e, drop_spaces) (ap (◌∷◌ c) p))
  ]

space_width-prefix : (s t : Bytes) → space_width (s ++ t) ≡ 0 → space_width s ≡ 0
unfolding space_width
space_width-prefix [] t h = refl
space_width-prefix (a ∷ []) [] h = h
space_width-prefix (a ∷ []) (b ∷ []) h = ground arith
space_width-prefix (a ∷ []) (b ∷ c ∷ t) h = ground arith
space_width-prefix (a ∷ b ∷ []) [] h = h
space_width-prefix (a ∷ b ∷ []) (c ∷ t) h = ground arith
space_width-prefix (a ∷ b ∷ c ∷ s) t h = h

trim_left-clean : (s : Bytes) → space_width (trim_left s) ≡ 0
unfolding trim_left
trim_left-clean = drop_spaces-clean space_width refl 0

trim_left_id : (s : Bytes) → space_width s ≡ 0 → trim_left s ≡ s
unfolding trim_left
trim_left_id = drop_spaces_id space_width refl

trim_right_prefix : (s : Bytes) → (dropped : Bytes) × (s ≡ trim_right s ++ dropped)
unfolding trim_right
trim_right_prefix s =
    let (d, e) = drop_spaces_suffix space_width_back refl 0 (reverse s) in
    (reverse d, sym (reverse-reverse s) ∙ ap reverse e ∙ reverse-append d _)

-- The start of a text with no white space there keeps that when the end is trimmed.
trim_right-clean : (s : Bytes) → space_width s ≡ 0 → space_width (trim_right s) ≡ 0
trim_right-clean s h =
    let (d, e) = trim_right_prefix s in
    space_width-prefix (trim_right s) d (subst (λ t. space_width t ≡ 0) e h)

trim_right-clean_back : (s : Bytes) → space_width_back (reverse (trim_right s)) ≡ 0
unfolding trim_right
trim_right-clean_back s = rw reverse-reverse (drop_spaces-clean space_width_back refl 0 (reverse s))

-- The result begins and ends with no white space.
pub trim_space-IsTrimmed : (s : Bytes) → IsTrimmed (trim_space s)
unfolding trim_space
trim_space-IsTrimmed s =
    (trim_right-clean (trim_left s) (trim_left-clean s), trim_right-clean_back (trim_left s))

trim_right_id : (s : Bytes) → space_width_back (reverse s) ≡ 0 → trim_right s ≡ s
unfolding trim_right
trim_right_id s h =
    ap reverse (drop_spaces_id space_width_back refl (reverse s) h) ∙ reverse-reverse s

-- A text with no white space at its ends is left alone.
pub trim_space_id : (s : Bytes) → IsTrimmed s → trim_space s ≡ s
unfolding trim_space
trim_space_id s h = rw (trim_left_id s h.0) (trim_right_id s h.1)
