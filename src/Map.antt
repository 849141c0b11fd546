-- ===== src/Map.antt =====
-- Go maps with int64 keys. No function of the program depends on the order of iteration.
pub mod Keys
pub mod Last
pub mod Inserted
use schemago.Base.{
  ◌≡◌, refl, ◌∙◌, Bool, true, false, Option, none, some, List, [], ◌∷◌, arith, if◌then◌else◌, map,
}
use schemago.Base.Int.{ℤ, eq_ℤ, eq_ℤ_iff}

abbrev pub Map {ℓ} : Type ℓ → Type ℓ
Map V = List (ℤ × V)

module _ {ℓ} {V : Type ℓ} where
  -- `v, ok := m[k]`
  unfoldable pub lookup : ℤ → Map V → Option V
  lookup k [] = none
  lookup k ((j, v) ∷ m) = if eq_ℤ j k then some v else lookup k m

  -- `m[k] = v`
  unfoldable pub insert : ℤ → V → Map V → Map V
  insert k v [] = (k, v) ∷ []
  insert k v ((j, w) ∷ m) = if eq_ℤ j k then (k, v) ∷ m else (j, w) ∷ insert k v m

  abbrev pub keys : Map V → List ℤ
  keys [] = []
  keys ((j, v) ∷ m) = j ∷ keys m

  pub lookup-insert :
      (k j : ℤ) (v : V) (m : Map V)
      → lookup j (insert k v m) ≡ (if eq_ℤ k j then some v else lookup j m)
  unfolding lookup insert
  lookup-insert k j v [] = refl
  lookup-insert k j v ((i, w) ∷ m) =
      ground (arith, eq_ℤ_iff k j, eq_ℤ_iff i k, eq_ℤ_iff i j, lookup-insert k j v m)

-- `for _, x := range xs { m[key(x)] = x }`
module _ {ℓ} {V : Type ℓ} (key : V → ℤ) where
  unfoldable pub index_from : Map V → List V → Map V
  unfolding insert
  index_from m [] = m
  index_from m (x ∷ xs) = index_from (insert (key x) x m) xs

  abbrev pub index : List V → Map V
  index = index_from []

  -- The last item with the key.
  unfoldable pub last_with : ℤ → List V → Option V
  last_with k [] = none
  last_with k (x ∷ xs) = elim (last_with k xs) [
    | none ↦ if eq_ℤ (key x) k then some x else none
    | some y ↦ some y
  ]

  abbrev or_else : Option V → Option V → Option V
  or_else none b = b
  or_else (some a) b = some a

  lookup-index_from :
      (k : ℤ) (xs : List V) (m : Map V)
      → lookup k (index_from m xs) ≡ or_else (last_with k xs) (lookup k m)
  unfolding index_from last_with
  lookup-index_from k [] m = refl
  lookup-index_from k (x ∷ xs) m =
      ground (arith, lookup-index_from k xs (insert (key x) x m), lookup-insert (key x) k x m)

  or_else-none : (a : Option V) → or_else a none ≡ a
  or_else-none none = refl
  or_else-none (some a) = refl

  -- A map built from a list holds the last item of each key.
  pub lookup-index : (k : ℤ) (xs : List V) → lookup k (index xs) ≡ last_with k xs
  lookup-index k xs = lookup-index_from k xs [] ∙ unfold lookup in or_else-none (last_with k xs)
