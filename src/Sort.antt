-- ===== src/Sort.antt =====
-- `sort.Slice`: a list sorted by a `less` function. Items that neither precede the other may come
-- out in any order in Go; the users of this module show that their result does not depend on it.
pub mod Order
use mathlib.Core.List.{Permᴰ}
use mathlib.Core.List.Permᴰ
use schemago.Base.{
  ◌≡◌, refl, ap, ◌∙◌, Bool, true, false, List, [], ◌∷◌, arith, All, Sorted, inl, inr, Bool-cases,
  if◌then◌else◌,
}

module _ {ℓ} {A : Type ℓ} (less : A → A → Bool) where
  unfoldable pub insert_sorted : A → List A → List A
  insert_sorted x [] = x ∷ []
  insert_sorted x (y ∷ ys) =
      let rest = insert_sorted x ys in if less y x then y ∷ rest else x ∷ y ∷ ys

  unfoldable pub sort : List A → List A
  unfolding insert_sorted
  sort [] = []
  sort (x ∷ xs) = insert_sorted x (sort xs)

  insert_sorted-perm : (x : A) (ys : List A) → Permᴰ (insert_sorted x ys) (x ∷ ys)
  unfolding insert_sorted
  insert_sorted-perm x [] = Permᴰ.refl _
  insert_sorted-perm x (y ∷ ys) = elim (Bool-cases (less y x)) [
    | inl e ↦ rw e (Permᴰ.trans (Permᴰ.cons refl (insert_sorted-perm x ys)) (Permᴰ.swap refl refl))
    | inr e ↦ rw e (Permᴰ.refl _)
  ]

  pub sort-perm : (xs : List A) → Permᴰ (sort xs) xs
  unfolding sort
  sort-perm [] = Permᴰ.nil
  sort-perm (x ∷ xs) = Permᴰ.trans (insert_sorted-perm x (sort xs)) (Permᴰ.cons refl (sort-perm xs))

  module _ {κ} (P : A → Type κ) where
    pub All-insert_sorted : (x : A) (ys : List A) → P x → All P ys → All P (insert_sorted x ys)
    unfolding insert_sorted
    All-insert_sorted x [] p h = (p, tt)
    All-insert_sorted x (y ∷ ys) p h = elim (Bool-cases (less y x)) [
      | inl e ↦ rw e (h.0, All-insert_sorted x ys p h.1)
      | inr e ↦ rw e (p, h)
    ]

    pub All-sort : (xs : List A) → All P xs → All P (sort xs)
    unfolding sort
    All-sort [] h = tt
    All-sort (x ∷ xs) h = All-insert_sorted x (sort xs) h.0 (All-sort xs h.1)

  -- A relation that is kept in either direction, such as being different, is kept by sorting.
  module _ {κ} (R : A → A → Type κ) (flip : (x y : A) → R x y → R y x) where
    Sorted-insert_symmetric :
        (x : A) (ys : List A) → All (R x) ys → Sorted R ys → Sorted R (insert_sorted x ys)
    unfolding insert_sorted
    Sorted-insert_symmetric x [] h s = (tt, tt)
    Sorted-insert_symmetric x (y ∷ ys) h s = elim (Bool-cases (less y x)) [
      | inl e ↦
          rw e
            (All-insert_sorted (R y) x ys (flip x y h.0) s.0, Sorted-insert_symmetric x ys h.1 s.1)
      | inr e ↦ rw e (h, s)
    ]

    pub Sorted-sort_symmetric : (xs : List A) → Sorted R xs → Sorted R (sort xs)
    unfolding sort
    Sorted-sort_symmetric [] s = tt
    Sorted-sort_symmetric (x ∷ xs) s =
        Sorted-insert_symmetric x (sort xs) (All-sort (R x) xs s.0) (Sorted-sort_symmetric xs s.1)

  -- `Before x y` is the order of the result: `y` does not have to stand in front of `x`.
  abbrev pub Before : A → A → Type 0
  Before x y = less y x ≡ false
