-- ===== src/Map/Keys.antt =====
-- The keys of a map: which ones it has, and that it has each once.
use schemago.Base.{
  ◌≡◌, refl, Bool, true, false, ◌||◌, none, some, List, [], ◌∷◌, arith, All, Sorted, inl, inr,
  Bool-cases,
}
use schemago.Base.Int.{ℤ, eq_ℤ, eq_ℤ_iff}
use schemago.Map.{Map, insert, index_from, index, keys, last_with}

-- `v` is one of the keys.
abbrev pub has_key {ℓ} : {A : Type ℓ} → (A → ℤ) → ℤ → List A → Bool
has_key key v [] = false
has_key key v (x ∷ xs) = eq_ℤ (key x) v || has_key key v xs

abbrev pub member : ℤ → List ℤ → Bool
member = has_key (λ v. v)

abbrev pub IsDistinct : ℤ → ℤ → Type 0
IsDistinct a b = eq_ℤ a b ≡ false

pub IsDistinct-flip : (a b : ℤ) → IsDistinct a b → IsDistinct b a
IsDistinct-flip a b h = ground arith

module _ {ℓ} {V : Type ℓ} where
  pub member-insert :
      (k j : ℤ) (v : V) (m : Map V)
      → member j (keys (insert k v m)) ≡ (eq_ℤ k j || member j (keys m))
  unfolding insert
  member-insert k j v [] = refl
  member-insert k j v ((i, w) ∷ m) =
      ground (arith, eq_ℤ_iff k j, eq_ℤ_iff i k, eq_ℤ_iff i j, member-insert k j v m)

  All-IsDistinct-insert :
      (i k : ℤ) (v : V) (m : Map V)
      → IsDistinct i k
      → All (IsDistinct i) (keys m)
      → All (IsDistinct i) (keys (insert k v m))
  unfolding insert
  All-IsDistinct-insert i k v [] d h = (d, tt)
  All-IsDistinct-insert i k v ((j, w) ∷ m) d h = elim (Bool-cases (eq_ℤ j k)) [
    | inl e ↦ rw e (d, h.1)
    | inr e ↦ rw e (h.0, All-IsDistinct-insert i k v m d h.1)
  ]

  pub insert-IsDistinct :
      (k : ℤ) (v : V) (m : Map V)
      → Sorted IsDistinct (keys m)
      → Sorted IsDistinct (keys (insert k v m))
  unfolding insert
  insert-IsDistinct k v [] s = (tt, tt)
  insert-IsDistinct k v ((j, w) ∷ m) s = elim (Bool-cases (eq_ℤ j k)) [
    | inl e ↦ rw e (let same : j ≡ k = (eq_ℤ_iff j k).0 e in rw (← same) s)
    | inr e ↦ rw e (All-IsDistinct-insert j k v m e s.0, insert-IsDistinct k v m s.1)
  ]

module _ {ℓ} {V : Type ℓ} (key : V → ℤ) where
  member-index_from :
      (j : ℤ) (xs : List V) (m : Map V)
      → member j (keys (index_from key m xs)) ≡ (has_key key j xs || member j (keys m))
  unfolding index_from
  member-index_from j [] m = refl
  member-index_from j (x ∷ xs) m =
      ground (arith, member-index_from j xs (insert (key x) x m), member-insert (key x) j x m)

  pub member-index : (j : ℤ) (xs : List V) → member j (keys (index key xs)) ≡ has_key key j xs
  member-index j xs = ground (arith, member-index_from j xs [])

module _ {ℓ} {A : Type ℓ} (key : A → ℤ) where
  pub last_with-none : (v : ℤ) (xs : List A) → last_with key v xs ≡ none → has_key key v xs ≡ false
  unfolding last_with
  last_with-none v [] h = refl
  last_with-none v (x ∷ xs) h = ground (arith, last_with-none v xs)

  pub last_with-some :
      (v : ℤ) (xs : List A) (x : A) → last_with key v xs ≡ some x → has_key key v xs ≡ true
  unfolding last_with
  last_with-some v [] y h = cc
  last_with-some v (x ∷ xs) y h = ground (arith, last_with-some v xs y)
