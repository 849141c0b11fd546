-- ===== src/Text.antt =====
-- Go strings as lists of bytes, and the functions of the packages strings and bytes that the
-- program calls. A text literal stands for its bytes, so literals here are ASCII.
pub mod Trim
pub mod Trimmed
pub mod Lines
use Prim.Native.Char.{code}
use Prim.Native.String.{String}
use schemago.Base.{
  ℕ, zero, suc, ◌≡◌, refl, ◌↔◌, Bool, true, false, ◌&&◌, ◌||◌, List, [], ◌∷◌, ◌++◌, Option, none,
  some, arith, ltb, leb, ◌==◌, if◌then◌else◌, ◌-◌, ◌+◌, ap,
}

abbrev pub Bytes : Type 0
Bytes = List ℕ

abbrev pub codes : String → Bytes
codes String.[] = []
codes (String.◌∷◌ c s) = code c ∷ codes s

-- `s == t`
unfoldable pub eq_bytes : Bytes → Bytes → Bool
eq_bytes [] [] = true
eq_bytes (x ∷ xs) (y ∷ ys) = x == y && eq_bytes xs ys
eq_bytes _ _ = false

-- `s < t`
unfoldable pub lt_bytes : Bytes → Bytes → Bool
lt_bytes [] [] = false
lt_bytes [] (y ∷ ys) = true
lt_bytes (x ∷ xs) [] = false
lt_bytes (x ∷ xs) (y ∷ ys) =
    let rest = lt_bytes xs ys in if ltb x y then true else if x == y then rest else false

-- `s == ""`
abbrev pub is_empty : Bytes → Bool
is_empty [] = true
is_empty (c ∷ cs) = false

-- What stands behind the prefix `p`, if `s` begins with it.
unfoldable pub after_prefix : Bytes → Bytes → Option Bytes
after_prefix [] s = some s
after_prefix (x ∷ p) [] = none
after_prefix (x ∷ p) (c ∷ s) = let rest = after_prefix p s in if x == c then rest else none

-- `strings.HasPrefix(s, p)`
unfoldable pub has_prefix : Bytes → Bytes → Bool
has_prefix s [] = true
has_prefix [] (x ∷ p) = false
has_prefix (c ∷ s) (x ∷ p) = x == c && has_prefix s p

-- `strings.Contains(s, t)`
unfoldable pub contains : Bytes → Bytes → Bool
unfolding has_prefix
contains [] t = has_prefix [] t
contains (c ∷ s) t = has_prefix (c ∷ s) t || contains s t

-- The lower case of an ASCII letter.
abbrev pub lower_byte : ℕ → ℕ
lower_byte c = if leb b'A' c && leb c b'Z' then c + 32 else c

-- U+0130 and U+212A, whose lower cases are the ASCII letters i and k.
abbrev is_dotted_i : ℕ → ℕ → Bool
is_dotted_i c d = c == 0xC4 && d == 0xB0

abbrev is_kelvin : ℕ → ℕ → ℕ → Bool
is_kelvin c d e = c == 0xE2 && d == 0x84 && e == 0xAA

-- `strings.ToLower`, as far as ASCII letters come out of it. Every other rune stays as it is here;
-- the program only looks for ASCII words in the result.
unfoldable pub to_lower : Bytes → Bytes
to_lower [] = []
to_lower (c ∷ []) = lower_byte c ∷ []
to_lower (c ∷ d ∷ []) = elim (is_dotted_i c d) [
  | true ↦ b'i' ∷ []
  | false ↦ lower_byte c ∷ to_lower (d ∷ [])
]
to_lower (c ∷ d ∷ e ∷ s) = elim (is_dotted_i c d) [
  | true ↦ b'i' ∷ to_lower (e ∷ s)
  | false ↦ elim (is_kelvin c d e) [
    | true ↦ b'k' ∷ to_lower s
    | false ↦ lower_byte c ∷ to_lower (d ∷ e ∷ s)
  ]
]

pub eq_bytes_iff : (s t : Bytes) → (eq_bytes s t ≡ true) ↔ (s ≡ t)
unfolding eq_bytes
eq_bytes_iff (x ∷ s) (y ∷ t) = ground (arith, eq_bytes_iff s t)
eq_bytes_iff _ _ = ground arith

pub lt_bytes_irrefl : (s : Bytes) → lt_bytes s s ≡ false
unfolding lt_bytes
lt_bytes_irrefl [] = refl
lt_bytes_irrefl (x ∷ s) = ground (arith, lt_bytes_irrefl s)

pub lt_bytes_trans :
    (s t u : Bytes) → lt_bytes s t ≡ true → lt_bytes t u ≡ true → lt_bytes s u ≡ true
unfolding lt_bytes
lt_bytes_trans [] [] u p q = cc
lt_bytes_trans [] (y ∷ t) [] p q = cc
lt_bytes_trans [] (y ∷ t) (z ∷ u) p q = refl
lt_bytes_trans (x ∷ s) [] u p q = cc
lt_bytes_trans (x ∷ s) (y ∷ t) [] p q = cc
lt_bytes_trans (x ∷ s) (y ∷ t) (z ∷ u) p q = ground (arith, lt_bytes_trans s t u)

pub lt_bytes_total : (s t : Bytes) → lt_bytes s t ≡ false → lt_bytes t s ≡ false → s ≡ t
unfolding lt_bytes
lt_bytes_total [] [] p q = refl
lt_bytes_total [] (y ∷ t) p q = cc
lt_bytes_total (x ∷ s) [] p q = cc
lt_bytes_total (x ∷ s) (y ∷ t) p q = ground (arith, lt_bytes_total s t)

pub lt_bytes_asymm : (s t : Bytes) → lt_bytes s t ≡ true → lt_bytes t s ≡ false
lt_bytes_asymm s t p = ground (arith, lt_bytes_trans s t s, lt_bytes_irrefl s)

-- The order of texts that are not in front of one another.
pub lt_bytes_before_trans :
    (s t u : Bytes) → lt_bytes t s ≡ false → lt_bytes u t ≡ false → lt_bytes u s ≡ false
lt_bytes_before_trans s t u p q = ground (arith, lt_bytes_trans u s t, lt_bytes_total s t)
