-- ===== src/Status/Items.antt =====
-- The items of a report, against the files and the records.
use schemago.Base.{
  ◌≡◌, refl, sym, ap, subst, ◌∙◌, Bool, true, false, ◌||◌, Option, none, some, List, [], ◌∷◌, ◌++◌,
  arith, All, All-append, Sorted, if◌then◌else◌, append-nil, append_assoc,
}
use schemago.Base.Int.{ℤ, eq_ℤ, eq_ℤ_refl, ltb_ℤ, LtZ, ltb_ℤ_asymm, ltb_ℤ_total}
use schemago.Sort.{sort, insert_sorted, Before, Sorted-sort_symmetric}
use schemago.Sort.Order.{Sorted-sort}
use schemago.Map.{Map, lookup, insert, keys, index, last_with, lookup-index}
use schemago.Map.Keys.{
  has_key, member, IsDistinct, IsDistinct-flip, member-insert, insert-IsDistinct, member-index,
  last_with-none,
}
use schemago.Migration.Filename.{MigrationFile}
use schemago.History.{AppliedMigration}
use schemago.History.Pending.{is_mismatch}
use schemago.History.Pending.Exact.{file_version, record_version}
use schemago.Status.{
  state_applied, state_pending, state_drifted, state_missing, Item, Report, add_item, add_items,
  mark_keys, sorted_versions, build_report, empty_report,
}

-- What an item says of the file and the record of its version.
abbrev pub Fits : Option MigrationFile → Option AppliedMigration → Item → Type 0
Fits (some disc) (some app) item =
    (item.state ≡ (if is_mismatch app.checksum disc.checksum then state_drifted else state_applied))
    × (item.name ≡ disc.filename)
    × (item.applied_at ≡ some app.applied_at)
    × (item.db_checksum ≡ app.checksum)
    × (item.file_checksum ≡ disc.checksum)
Fits (some disc) none item =
    (item.state ≡ state_pending)
    × (item.name ≡ disc.filename)
    × (item.applied_at ≡ none)
    × (item.file_checksum ≡ disc.checksum)
Fits none (some app) item =
    (item.state ≡ state_missing)
    × (item.name ≡ app.name)
    × (item.applied_at ≡ some app.applied_at)
    × (item.db_checksum ≡ app.checksum)
Fits none none item = ⊥

-- The item is right for the last file and the last record of its version.
abbrev pub Describes : List MigrationFile → List AppliedMigration → Item → Type 0
Describes discovered applied item =
    Fits (last_with file_version item.version discovered)
      (last_with record_version item.version applied) item

abbrev pub item_versions : List Item → List ℤ
item_versions [] = []
item_versions (item ∷ items) = item.version ∷ item_versions items

item_versions-append :
    (xs ys : List Item) → item_versions (xs ++ ys) ≡ item_versions xs ++ item_versions ys
item_versions-append [] ys = refl
item_versions-append (x ∷ xs) ys = ap (◌∷◌ x.version) (item_versions-append xs ys)

add_item_versions :
    (v : ℤ) (disc : Option MigrationFile) (app : Option AppliedMigration) (r : Report)
    → item_versions (add_item v disc app r).items ≡ item_versions r.items ++ v ∷ []
unfolding add_item
add_item_versions v (some disc) (some app) r = item_versions-append r.items _
add_item_versions v (some disc) none r = item_versions-append r.items _
add_item_versions v none (some app) r = item_versions-append r.items _
add_item_versions v none none r = item_versions-append r.items _

add_items_versions :
    (dm : Map MigrationFile) (am : Map AppliedMigration) (vs : List ℤ) (r : Report)
    → item_versions (add_items dm am vs r).items ≡ item_versions r.items ++ vs
unfolding add_items
add_items_versions dm am [] r = sym (append-nil _)
add_items_versions dm am (v ∷ vs) r =
    add_items_versions dm am vs (add_item v (lookup v dm) (lookup v am) r)
    ∙ rw (add_item_versions v (lookup v dm) (lookup v am) r)
        (append_assoc (item_versions r.items) (v ∷ []) vs)

module _ (discovered : List MigrationFile) (applied : List AppliedMigration) where
  -- The version has a file or a record.
  abbrev pub IsKnown : ℤ → Type 0
  IsKnown v = (has_key file_version v discovered || has_key record_version v applied) ≡ true

  add_item-Describes :
      (v : ℤ) (disc : Option MigrationFile) (app : Option AppliedMigration) (r : Report)
      → last_with file_version v discovered ≡ disc
      → last_with record_version v applied ≡ app
      → IsKnown v
      → All (Describes discovered applied) r.items
      → All (Describes discovered applied) (add_item v disc app r).items
  unfolding add_item
  add_item-Describes v (some disc) (some app) r p q k h =
      All-append _ r.items _ h (rw (p, q, Fits) (refl, refl, refl, refl, refl), tt)
  add_item-Describes v (some disc) none r p q k h =
      All-append _ r.items _ h (rw (p, q, Fits) (refl, refl, refl, refl), tt)
  add_item-Describes v none (some app) r p q k h =
      All-append _ r.items _ h (rw (p, q, Fits) (refl, refl, refl, refl), tt)
  add_item-Describes v none none r p q k h = absurd (
      ground (
        arith,
        last_with-none file_version v discovered p,
        last_with-none record_version v applied q,
      ))

  add_items-Describes :
      (vs : List ℤ) (r : Report)
      → All IsKnown vs
      → All (Describes discovered applied) r.items
      → All
          (Describes discovered applied)
          (add_items (index file_version discovered) (index record_version applied) vs r).items
  unfolding add_items
  add_items-Describes [] r k h = h
  add_items-Describes (v ∷ vs) r k h = add_items-Describes vs _ k.1 (
      add_item-Describes v _ _ r (sym (lookup-index file_version v discovered))
        (sym (lookup-index record_version v applied)) k.0 h)

-- The keys that are marked, each once.
member-mark_keys :
    (j : ℤ) (vs : List ℤ) (m : Map (Unit {0}))
    → member j (keys (mark_keys vs m)) ≡ (member j vs || member j (keys m))
unfolding mark_keys
member-mark_keys j [] m = refl
member-mark_keys j (v ∷ vs) m =
    ground (arith, member-mark_keys j vs (insert v tt m), member-insert v j tt m)

mark_keys-IsDistinct :
    (vs : List ℤ) (m : Map (Unit {0}))
    → Sorted IsDistinct (keys m)
    → Sorted IsDistinct (keys (mark_keys vs m))
unfolding mark_keys
mark_keys-IsDistinct [] m s = s
mark_keys-IsDistinct (v ∷ vs) m s =
    mark_keys-IsDistinct vs (insert v tt m) (insert-IsDistinct v tt m s)

member-insert_sorted :
    (j x : ℤ) (ys : List ℤ) → member j (insert_sorted ltb_ℤ x ys) ≡ (eq_ℤ x j || member j ys)
unfolding insert_sorted
member-insert_sorted j x [] = refl
member-insert_sorted j x (y ∷ ys) = ground (arith, member-insert_sorted j x ys)

member-sort : (j : ℤ) (xs : List ℤ) → member j (sort ltb_ℤ xs) ≡ member j xs
unfolding sort
member-sort j [] = refl
member-sort j (x ∷ xs) =
    member-insert_sorted j x (sort ltb_ℤ xs) ∙ ap (λ b. eq_ℤ x j || b) (member-sort j xs)

before_trans : (a b c : ℤ) → ltb_ℤ b a ≡ false → ltb_ℤ c b ≡ false → ltb_ℤ c a ≡ false
before_trans a b c p q = ground arith

ascending_of :
    (v : ℤ) (vs : List ℤ) → All (Before ltb_ℤ v) vs → All (IsDistinct v) vs → All (LtZ v) vs
ascending_of v [] b d = tt
ascending_of v (w ∷ vs) b d = (ground (arith, b.0, d.0, ltb_ℤ_total w v), ascending_of v vs b.1 d.1)

Sorted-ascending : (vs : List ℤ) → Sorted (Before ltb_ℤ) vs → Sorted IsDistinct vs → Sorted LtZ vs
Sorted-ascending [] b d = tt
Sorted-ascending (v ∷ vs) b d = (ascending_of v vs b.0 d.0, Sorted-ascending vs b.1 d.1)

sorted_versions-ascending :
    (dm : Map MigrationFile) (am : Map AppliedMigration) → Sorted LtZ (sorted_versions dm am)
unfolding sorted_versions
sorted_versions-ascending dm am =
    let vs = keys (mark_keys (keys am) (mark_keys (keys dm) [])) in
    Sorted-ascending (sort ltb_ℤ vs) (Sorted-sort ltb_ℤ ltb_ℤ_asymm before_trans vs) (
      Sorted-sort_symmetric ltb_ℤ IsDistinct IsDistinct-flip vs
        (mark_keys-IsDistinct (keys am) _ (mark_keys-IsDistinct (keys dm) [] tt)))

member-sorted_versions :
    (j : ℤ) (discovered : List MigrationFile) (applied : List AppliedMigration)
    → member j (sorted_versions (index file_version discovered) (index record_version applied))
      ≡ (has_key file_version j discovered || has_key record_version j applied)
unfolding sorted_versions
member-sorted_versions j discovered applied =
    let dm = index file_version discovered in
    let am = index record_version applied in
    ground (
      arith,
      member-sort j (keys (mark_keys (keys am) (mark_keys (keys dm) []))),
      member-mark_keys j (keys am) (mark_keys (keys dm) []),
      member-mark_keys j (keys dm) [],
      member-index file_version j discovered,
      member-index record_version j applied,
    )

-- A test that every key of a list passes.
All-of_member :
    (p : ℤ → Bool) (vs : List ℤ)
    → ((j : ℤ) → member j vs ≡ true → p j ≡ true)
    → All (λ j. p j ≡ true) vs
All-of_member p [] h = tt
All-of_member p (v ∷ vs) h =
    (h v (ground (arith, eq_ℤ_refl v)), All-of_member p vs (λ j m. h j (ground arith)))

-- A report has one item for each version of a file or a record, in strictly ascending order. An
-- item is pending with a file only, missing with a record only, and with both drifted or applied
-- as the known checksums differ or not; its fields are those of the last file and record.
pub build_report-Describes :
    (discovered : List MigrationFile) (applied : List AppliedMigration)
    → Sorted LtZ (item_versions (build_report discovered applied).items)
      × ((j : ℤ)
          → member j (item_versions (build_report discovered applied).items)
            ≡ (has_key file_version j discovered || has_key record_version j applied))
      × All (Describes discovered applied) (build_report discovered applied).items
unfolding build_report
build_report-Describes discovered applied =
    let dm = index file_version discovered in
    let am = index record_version applied in
    let vs = sorted_versions dm am in
    let same = add_items_versions dm am vs empty_report in
    let known = All-of_member _ vs (λ j m. sym (member-sorted_versions j discovered applied) ∙ m) in
    (
      subst (Sorted LtZ) (sym same) (sorted_versions-ascending dm am),
      λ j. ap (member j) same ∙ member-sorted_versions j discovered applied,
      add_items-Describes discovered applied vs empty_report known tt,
    )
