-- ===== src/Map/Last.antt =====
-- The last item of a list with a given key.
use schemago.Base.{
  ◌≡◌, subst, true, some, List, [], ◌∷◌, arith, All, All-map, Option-cases, inl, inr,
}
use schemago.Base.Int.{ℤ, eq_ℤ_iff, eq_ℤ_refl}
use schemago.Map.{last_with}
use schemago.Map.Keys.{has_key}

module _ {ℓ κ} {A : Type ℓ} (key : A → ℤ) (P : A → Type κ) where
  pub last_with-All : (v : ℤ) (xs : List A) {x : A} → last_with key v xs ≡ some x → All P xs → P x
  unfolding last_with
  last_with-All v [] e h = absurd (cc e)
  last_with-All v (x ∷ xs) {x = z} e h = elim (Option-cases (last_with key v xs)) [
    | inl n ↦ let same : x ≡ z = ground (arith, e, n) in subst P same h.0
    | inr (y, n) ↦
        let same : y ≡ z = ground (arith, e, n) in subst P same (last_with-All v xs n h.1)
  ]

pub last_with_key {ℓ} :
    {A : Type ℓ} (key : A → ℤ) (v : ℤ) (xs : List A) {x : A}
    → last_with key v xs ≡ some x
    → key x ≡ v
unfolding last_with
last_with_key key v [] e = absurd (cc e)
last_with_key key v (x ∷ xs) {x = z} e = elim (Option-cases (last_with key v xs)) [
  | inl n ↦ ground (arith, e, n, eq_ℤ_iff (key x) v)
  | inr (y, n) ↦ ground (arith, e, n, last_with_key key v xs n)
]

pub has_key_self {ℓ} :
    {A : Type ℓ} (key : A → ℤ) (xs : List A) → All (λ x. has_key key (key x) xs ≡ true) xs
has_key_self key [] = tt
has_key_self key (x ∷ xs) = (
  ground (arith, eq_ℤ_refl (key x)),
  All-map (λ y. has_key key (key y) xs ≡ true) _ xs (λ y h. ground (arith, h))
      (has_key_self key xs),
)
