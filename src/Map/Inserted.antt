-- ===== src/Map/Inserted.antt =====
-- An item that has been inserted somewhere in a list of items with keys.
use schemago.Base.{
  ◌≡◌, refl, ◌||◌, false, none, some, List, [], ◌∷◌, arith, All, Option-cases, inl, inr, map,
}
use schemago.Base.Int.{ℤ, eq_ℤ, eq_ℤ_iff}
use schemago.Map.{last_with}
use schemago.Map.Keys.{has_key}

pub data Inserted {ℓ} {A : Type ℓ} (x : A) : List A → List A → Type ℓ where
  here : {xs : List A} → Inserted x xs (x ∷ xs)
  there : {y : A} {xs ys : List A} → Inserted x xs ys → Inserted x (y ∷ xs) (y ∷ ys)

pub map-Inserted {ℓ κ} :
    {A : Type ℓ} {B : Type κ} (f : A → B) {x : A} {xs ys : List A}
    → Inserted x xs ys
    → Inserted (f x) (map f xs) (map f ys)
map-Inserted f here = here
map-Inserted f (there i) = there (map-Inserted f i)

pub All-Inserted {ℓ κ} :
    {A : Type ℓ} (P : A → Type κ) {x : A} {xs ys : List A}
    → Inserted x xs ys
    → P x
    → All P xs
    → All P ys
All-Inserted P here p h = (p, h)
All-Inserted P (there i) p h = (h.0, All-Inserted P i p h.1)

module _ {ℓ} {A : Type ℓ} (key : A → ℤ) (v : ℤ) where
  pub has_key-Inserted :
      {x : A} {xs ys : List A}
      → Inserted x xs ys
      → has_key key v ys ≡ (eq_ℤ (key x) v || has_key key v xs)
  has_key-Inserted here = refl
  has_key-Inserted (there i) = ground (arith, has_key-Inserted i)

  no_last_with : (xs : List A) → has_key key v xs ≡ false → last_with key v xs ≡ none
  unfolding last_with
  no_last_with [] h = refl
  no_last_with (x ∷ xs) h = ground (arith, no_last_with xs)

  -- The last item of another key stays what it was.
  pub last_with-Inserted_other :
      {x : A} {xs ys : List A}
      → Inserted x xs ys
      → eq_ℤ (key x) v ≡ false
      → last_with key v ys ≡ last_with key v xs
  unfolding last_with
  last_with-Inserted_other {xs = xs} here h = elim (Option-cases (last_with key v xs)) [
    | inl e ↦ rw (e, h) refl
    | inr (y, e) ↦ rw e refl
  ]
  last_with-Inserted_other (there i) h = rw (last_with-Inserted_other i h) refl

  -- An item of a new key is the last of its key.
  pub last_with-Inserted_new :
      {x : A} {xs ys : List A}
      → Inserted x xs ys
      → key x ≡ v
      → has_key key v xs ≡ false
      → last_with key v ys ≡ some x
  unfolding last_with
  last_with-Inserted_new {x = x} {xs = xs} here h n =
      let same : eq_ℤ (key x) v ≡ _ = (eq_ℤ_iff (key x) v).1 h in rw (no_last_with xs n, same) refl
  last_with-Inserted_new {xs = y ∷ xs} (there i) h n =
      let absent : has_key key v xs ≡ false = ground arith in
      rw (last_with-Inserted_new i h absent) refl
