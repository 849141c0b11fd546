-- ===== src/Migration/Order/Sorted.antt =====
-- What `ValidateAndSort` returns, against the order and the equality of versions.
use mathlib.Core.List.{Permᴰ}
use schemago.Base.{
  ◌≡◌, refl, sym, ap, ◌∙◌, true, false, none, List, [], ◌∷◌, Result, ok, err, arith, All, All-map,
  Sorted, inl, inr, Option-cases,
}
use schemago.Base.Int.{eq_ℤ, LtZ, ltb_ℤ_total}
use schemago.Text.{Bytes, lt_bytes_asymm, lt_bytes_before_trans}
use schemago.Sort.{sort, sort-perm, Before, Sorted-sort_symmetric}
use schemago.Sort.Order.{Sorted-sort, sort_perm, Sorted-perm, Comparable}
use schemago.Map.{Map, lookup, insert, lookup-insert}
use schemago.Migration.Filename.{MigrationFile}
use schemago.Migration.Order.{OrderError, less, check_versions, validate_and_sort}

less_asymm : (a b : MigrationFile) → less a b ≡ true → less b a ≡ false
unfolding less
less_asymm a b h = ground (arith, lt_bytes_asymm a.filename b.filename)

less_before_trans : (a b c : MigrationFile) → less b a ≡ false → less c b ≡ false → less c a ≡ false
unfolding less
less_before_trans a b c p q = ground (arith, lt_bytes_before_trans a.filename b.filename c.filename)

-- Two files of different versions, and the order by version.
abbrev pub IsOther : MigrationFile → MigrationFile → Type 0
IsOther a b = eq_ℤ a.version b.version ≡ false

abbrev pub IsOlder : MigrationFile → MigrationFile → Type 0
IsOlder a b = LtZ a.version b.version

IsOther-flip : (a b : MigrationFile) → IsOther a b → IsOther b a
IsOther-flip a b h = ground arith

IsOther-of_IsOlder : (a b : MigrationFile) → IsOlder a b → IsOther a b
IsOther-of_IsOlder a b h = ground arith

pub Sorted-IsOther : (files : List MigrationFile) → Sorted IsOlder files → Sorted IsOther files
Sorted-IsOther [] s = tt
Sorted-IsOther (f ∷ files) s =
    (All-map (IsOlder f) (IsOther f) files (IsOther-of_IsOlder f) s.0, Sorted-IsOther files s.1)

-- No version of `files` is in the map.
abbrev IsFresh : Map Bytes → MigrationFile → Type 0
IsFresh seen f = lookup f.version seen ≡ none

IsFresh-insert :
    (seen : Map Bytes) (f : MigrationFile) (files : List MigrationFile)
    → All (IsOther f) files
    → All (IsFresh seen) files
    → All (IsFresh (insert f.version f.filename seen)) files
IsFresh-insert seen f [] o h = tt
IsFresh-insert seen f (g ∷ files) o h = (
  rw (lookup-insert f.version g.version f.filename seen) (rw o.0 h.0),
  IsFresh-insert seen f files o.1 h.1,
)

check_versions_complete :
    (seen : Map Bytes) (files : List MigrationFile)
    → Sorted IsOther files
    → All (IsFresh seen) files
    → check_versions seen files ≡ none
unfolding check_versions
check_versions_complete seen [] s h = refl
check_versions_complete seen (f ∷ files) s h =
    rw (h.0, check_versions)
      (check_versions_complete (insert f.version f.filename seen) files s.1
        (IsFresh-insert seen f files s.0 h.1))

IsFresh-uninsert :
    (seen : Map Bytes) (f : MigrationFile) (files : List MigrationFile)
    → All (IsFresh (insert f.version f.filename seen)) files
    → All (IsFresh seen) files × All (IsOther f) files
IsFresh-uninsert seen f [] h = (tt, tt)
IsFresh-uninsert seen f (g ∷ files) h =
    let rest = IsFresh-uninsert seen f files h.1 in
    let here : IsFresh seen g × IsOther f g =
      ground (arith, h.0, lookup-insert f.version g.version f.filename seen) in
    ((here.0, rest.0), (here.1, rest.1))

check_versions_sound :
    (seen : Map Bytes) (files : List MigrationFile)
    → check_versions seen files ≡ none
    → Sorted IsOther files × All (IsFresh seen) files
unfolding check_versions
check_versions_sound seen [] h = (tt, tt)
check_versions_sound seen (f ∷ files) h = elim (Option-cases (lookup f.version seen)) [
  | inl e ↦
      let (s, fresh) =
        check_versions_sound (insert f.version f.filename seen) files
          (rw (e, check_versions) at h) in
      let (old, other) = IsFresh-uninsert seen f files fresh in ((other, s), (e, old))
  | inr (prev, e) ↦ absurd (cc (rw (e, check_versions) at h))
]

IsOlder-of_Before : (a b : MigrationFile) → Before less a b → IsOther a b → IsOlder a b
unfolding less
IsOlder-of_Before a b h o = ground (arith, ltb_ℤ_total b.version a.version)

All-IsOlder :
    (a : MigrationFile) (files : List MigrationFile)
    → All (Before less a) files
    → All (IsOther a) files
    → All (IsOlder a) files
All-IsOlder a [] h o = tt
All-IsOlder a (b ∷ files) h o = (IsOlder-of_Before a b h.0 o.0, All-IsOlder a files h.1 o.1)

Sorted-IsOlder :
    (files : List MigrationFile)
    → Sorted (Before less) files
    → Sorted IsOther files
    → Sorted IsOlder files
Sorted-IsOlder [] s o = tt
Sorted-IsOlder (a ∷ files) s o = (All-IsOlder a files s.0 o.0, Sorted-IsOlder files s.1 o.1)

sort-IsOlder :
    (files : List MigrationFile)
    → Sorted IsOther (sort less files)
    → Sorted IsOlder (sort less files)
sort-IsOlder files =
    Sorted-IsOlder (sort less files) (Sorted-sort less less_asymm less_before_trans files)

All-IsFresh_nil : (files : List MigrationFile) → All (IsFresh []) files
All-IsFresh_nil [] = tt
All-IsFresh_nil (f ∷ files) = (unfold lookup in refl, All-IsFresh_nil files)

-- What each result says of the files.
abbrev pub Verdict : List MigrationFile → Result OrderError (List MigrationFile) → Type 0
Verdict files (ok out) = Permᴰ out files × Sorted IsOlder out
Verdict files (err e) = ¬ Sorted IsOther files

-- `ValidateAndSort` accepts files exactly if no two have one version, and then returns the same
-- files in strictly ascending order of their versions.
pub validate_and_sort-Verdict :
    (files : List MigrationFile) → Verdict files (validate_and_sort files)
unfolding validate_and_sort
validate_and_sort-Verdict [] = (Permᴰ.nil, tt)
validate_and_sort-Verdict (f ∷ files) =
    let sorted = sort less (f ∷ files) in
    elim (Option-cases (check_versions [] sorted)) [
      | inl e ↦
          rw (e, validate_and_sort)
            (
              sort-perm less (f ∷ files),
              sort-IsOlder (f ∷ files) (check_versions_sound [] sorted e).0,
            )
      | inr (x, e) ↦
          rw (e, validate_and_sort)
            (λ o. cc (
              e,
              check_versions_complete [] sorted
                  (Sorted-sort_symmetric less IsOther IsOther-flip (f ∷ files) o)
                  (All-IsFresh_nil sorted),
            ))
    ]

validate_and_sort-distinct :
    (files : List MigrationFile)
    → Sorted IsOther files
    → validate_and_sort files ≡ ok (sort less files)
unfolding validate_and_sort
validate_and_sort-distinct [] o = refl
validate_and_sort-distinct (f ∷ files) o =
    let sorted = sort less (f ∷ files) in
    let others = Sorted-sort_symmetric less IsOther IsOther-flip (f ∷ files) o in
    rw (check_versions_complete [] sorted others (All-IsFresh_nil sorted), validate_and_sort)

Comparable-of_IsOther :
    (a b : MigrationFile) → IsOther a b → Comparable less less_asymm less_before_trans a b
unfolding less
Comparable-of_IsOther a b o = ground (arith, ltb_ℤ_total a.version b.version)

All-Comparable :
    (a : MigrationFile) (files : List MigrationFile)
    → All (IsOther a) files
    → All (Comparable less less_asymm less_before_trans a) files
All-Comparable a files = All-map (IsOther a) _ files (Comparable-of_IsOther a)

Sorted-Comparable :
    (files : List MigrationFile)
    → Sorted IsOther files
    → Sorted (Comparable less less_asymm less_before_trans) files
Sorted-Comparable [] o = tt
Sorted-Comparable (a ∷ files) o = (All-Comparable a files o.0, Sorted-Comparable files o.1)

-- Files of different versions are accepted, and give one result in whatever order they come.
pub validate_and_sort_perm :
    {fs gs : List MigrationFile}
    → Permᴰ fs gs
    → Sorted IsOther fs
    → (out : List MigrationFile) × (validate_and_sort fs ≡ ok out) × (validate_and_sort gs ≡ ok out)
validate_and_sort_perm {fs} {gs} p o = (
  sort less fs,
  validate_and_sort-distinct fs o,
  validate_and_sort-distinct gs (Sorted-perm IsOther IsOther-flip p o)
      ∙ ap ok (sym (sort_perm less less_asymm less_before_trans p (Sorted-Comparable fs o))),
)
