-- ===== src/Sort/Order.antt =====
-- Sorting by a strict weak order: the result is in order, and it does not depend on the order of
-- the input where any two items can be told apart.
use mathlib.Core.List.{Permᴰ}
use schemago.Base.{
  ◌≡◌, refl, ap, ◌∙◌, subst, Bool, true, false, ◌||◌, List, [], ◌∷◌, arith, All, All-map, Sorted,
  inl, inr, Bool-cases,
}
use schemago.Sort.{insert_sorted, sort, All-insert_sorted, Before}

module _ {ℓ κ} {A : Type ℓ} (P : A → Type κ) where
  pub All-perm : {xs ys : List A} → Permᴰ xs ys → All P xs → All P ys
  All-perm Permᴰ.nil h = tt
  All-perm (Permᴰ.cons e p) h = (subst P e h.0, All-perm p h.1)
  All-perm (Permᴰ.swap e f) h = (subst P f h.1.0, (subst P e h.0, h.1.1))
  All-perm (Permᴰ.trans p q) h = All-perm q (All-perm p h)

module _ {ℓ κ} {A : Type ℓ} (R : A → A → Type κ) (flip : (x y : A) → R x y → R y x) where
  pub Sorted-perm : {xs ys : List A} → Permᴰ xs ys → Sorted R xs → Sorted R ys
  Sorted-perm Permᴰ.nil s = tt
  Sorted-perm (Permᴰ.cons {b} {l₁} e p) s =
      (All-perm (R b) p (subst (λ x. All (R x) l₁) e s.0), Sorted-perm p s.1)
  Sorted-perm (Permᴰ.swap {a} {b} {b'} {l} e f) s =
      let swapped = subst (λ x. R x b') f (subst (λ y. R b y) e (flip a b s.0.0)) in
      ((swapped, subst (λ x. All (R x) l) f s.1.0), (subst (λ x. All (R x) l) e s.0.1, s.1.1))
  Sorted-perm (Permᴰ.trans p q) s = Sorted-perm q (Sorted-perm p s)

module _ {ℓ} {A : Type ℓ} (less : A → A → Bool)
    (asymm : (x y : A) → less x y ≡ true → less y x ≡ false)
    (before_trans : (x y z : A) → less y x ≡ false → less z y ≡ false → less z x ≡ false) where
  Sorted-insert :
      (x : A) (ys : List A)
      → Sorted (Before less) ys
      → Sorted (Before less) (insert_sorted less x ys)
  unfolding insert_sorted
  Sorted-insert x [] s = (tt, tt)
  Sorted-insert x (y ∷ ys) s = elim (Bool-cases (less y x)) [
    | inl e ↦
        rw e (All-insert_sorted less (Before less y) x ys (asymm y x e) s.0, Sorted-insert x ys s.1)
    | inr e ↦ rw e ((e, All-map (Before less y) _ ys (λ z q. before_trans x y z e q) s.0), s)
  ]

  pub Sorted-sort : (xs : List A) → Sorted (Before less) (sort less xs)
  unfolding sort
  Sorted-sort [] = tt
  Sorted-sort (x ∷ xs) = Sorted-insert x (sort less xs) (Sorted-sort xs)

  abbrev pub Comparable : A → A → Type 0
  Comparable x y = (less x y || less y x) ≡ true

  insert_sorted_comm :
      (x y : A) (l : List A)
      → Comparable x y
      → insert_sorted less x (insert_sorted less y l)
        ≡ insert_sorted less y (insert_sorted less x l)
  unfolding insert_sorted
  insert_sorted_comm x y [] h = ground (arith, asymm x y, asymm y x)
  insert_sorted_comm x y (z ∷ l) h = ground (
    arith,
    asymm x y,
    asymm y x,
    before_trans y x z,
    before_trans x y z,
    insert_sorted_comm x y l h,
  )

  Comparable-flip : (x y : A) → Comparable x y → Comparable y x
  Comparable-flip x y h = ground arith

  -- Two lists of the same items are sorted alike, if of any two items one precedes the other.
  pub sort_perm :
      {xs ys : List A} → Permᴰ xs ys → Sorted Comparable xs → sort less xs ≡ sort less ys
  unfolding sort
  sort_perm Permᴰ.nil s = refl
  sort_perm (Permᴰ.cons {b} {l₁} e p) s =
      ap (λ x. insert_sorted less x (sort less l₁)) e ∙ ap (insert_sorted less b) (sort_perm p s.1)
  sort_perm (Permᴰ.swap {a} {b} {l} e f) s =
      rw (← e, ← f) (insert_sorted_comm a b (sort less l) s.0.0)
  sort_perm (Permᴰ.trans p q) s =
      sort_perm p s ∙ sort_perm q (Sorted-perm Comparable Comparable-flip p s)
