-- ===== src/Status/Counts.antt =====
-- The counters of a report against its items, and the exit code.
use schemago.Base.{
  ℕ, ◌+◌, ◌≡◌, refl, ◌↔◌, Bool, true, false, Option, none, some, List, [], ◌∷◌, ◌++◌, arith, All,
  All-map, ◌⊎◌, sym, ◌∙◌, if◌then◌else◌, Bool-cases, inl, inr,
}
use schemago.Base.Int.{ℤ}
use schemago.Map.{Map, lookup, index}
use schemago.History.Pending.Exact.{file_version, record_version}
use schemago.Migration.Filename.{MigrationFile}
use schemago.History.{AppliedMigration}
use schemago.History.Pending.{is_mismatch}
use schemago.Status.Items.{Describes, build_report-Describes}
use schemago.Status.{
  StatusState, state_applied, state_pending, state_drifted, state_missing, Item, Report, exit_code,
  add_item, add_items, build_report, empty_report, sorted_versions,
}

abbrev is_state : StatusState → StatusState → Bool
is_state state_applied state_applied = true
is_state state_pending state_pending = true
is_state state_drifted state_drifted = true
is_state state_missing state_missing = true
is_state _ _ = false

-- How many items are in the state.
abbrev pub count_state : StatusState → List Item → ℕ
count_state st [] = 0
count_state st (item ∷ items) = (if is_state st item.state then 1 else 0) + count_state st items

count_state-append :
    (st : StatusState) (xs ys : List Item)
    → count_state st (xs ++ ys) ≡ count_state st xs + count_state st ys
count_state-append st [] ys = omega arith
count_state-append st (x ∷ xs) ys = omega (arith, count_state-append st xs ys)

-- The counters are those of the items; an applied migration may be drifted or missing.
pub record IsCounted (r : Report) : Type 0 where
  pub pending : r.pending_count ≡ count_state state_pending r.items
  pub drifted : r.drifted_count ≡ count_state state_drifted r.items
  pub missing : r.missing_count ≡ count_state state_missing r.items
  pub applied :
      r.applied_count
      ≡ count_state state_applied r.items
        + count_state state_drifted r.items
        + count_state state_missing r.items

add_item-IsCounted :
    (v : ℤ) (disc : Option MigrationFile) (app : Option AppliedMigration) (r : Report)
    → IsCounted r
    → IsCounted (add_item v disc app r)
unfolding add_item
add_item-IsCounted v (some disc) (some app) r c =
    elim (Bool-cases (is_mismatch app.checksum disc.checksum)) [
      | inl e ↦ rw e (omega (arith, c, count_state-append))
      | inr e ↦ rw e (omega (arith, c, count_state-append))
    ]
add_item-IsCounted v (some disc) none r c = omega (arith, c, count_state-append)
add_item-IsCounted v none (some app) r c = omega (arith, c, count_state-append)
add_item-IsCounted v none none r c = omega (arith, c, count_state-append)

add_items-IsCounted :
    (dm : Map MigrationFile) (am : Map AppliedMigration) (vs : List ℤ) (r : Report)
    → IsCounted r
    → IsCounted (add_items dm am vs r)
unfolding add_items
add_items-IsCounted dm am [] r c = c
add_items-IsCounted dm am (v ∷ vs) r c =
    add_items-IsCounted dm am vs _ (add_item-IsCounted v (lookup v dm) (lookup v am) r c)

-- The counters of a report are the numbers of its items in each state, and the drifted and the
-- missing ones count as applied too.
pub build_report-IsCounted :
    (discovered : List MigrationFile) (applied : List AppliedMigration)
    → IsCounted (build_report discovered applied)
unfolding build_report
build_report-IsCounted discovered applied =
    let dm = index file_version discovered in
    let am = index record_version applied in
    add_items-IsCounted dm am (sorted_versions dm am) empty_report (omega arith)

-- One of the four states of the source.
abbrev IsNamed : Item → Type 0
IsNamed item =
    (item.state ≡ state_applied)
    ⊎ ((item.state ≡ state_pending) ⊎ ((item.state ≡ state_drifted) ⊎ (item.state ≡ state_missing)))

abbrev pub IsClean : Item → Type 0
IsClean item = item.state ≡ state_applied

Describes-IsNamed :
    (discovered : List MigrationFile) (applied : List AppliedMigration) (item : Item)
    → Describes discovered applied item
    → IsNamed item
Describes-IsNamed discovered applied item h = ground arith

IsClean-of_counts :
    (items : List Item)
    → All IsNamed items
    → count_state state_pending items ≡ 0
    → count_state state_drifted items ≡ 0
    → count_state state_missing items ≡ 0
    → All IsClean items
IsClean-of_counts [] n p d m = tt
IsClean-of_counts (item ∷ items) n p d m =
    (ground (arith, n.0), IsClean-of_counts items n.1 (omega arith) (omega arith) (omega arith))

counts_of_clean :
    (items : List Item)
    → All IsClean items
    → (count_state state_pending items ≡ 0)
      × (count_state state_drifted items ≡ 0)
      × (count_state state_missing items ≡ 0)
counts_of_clean [] h = (refl, refl, refl)
counts_of_clean (item ∷ items) h = ground (arith, h.0, counts_of_clean items h.1)

exit_code_counts :
    (r : Report)
    → (exit_code r ≡ 0) ↔ ((r.pending_count ≡ 0) × (r.drifted_count ≡ 0) × (r.missing_count ≡ 0))
unfolding exit_code
exit_code_counts r = ground arith

-- The exit code of a report is 0 exactly if every version is applied, neither drifted nor missing.
pub exit_code-build_report :
    (discovered : List MigrationFile) (applied : List AppliedMigration)
    → (exit_code (build_report discovered applied) ≡ 0)
      ↔ All IsClean (build_report discovered applied).items
exit_code-build_report discovered applied =
    let r = build_report discovered applied in
    let c = build_report-IsCounted discovered applied in
    let described = (build_report-Describes discovered applied).2 in
    let named =
      All-map (Describes discovered applied) IsNamed r.items (Describes-IsNamed discovered applied)
        described in
    (
      λ e.
          let (p, d, m) = (exit_code_counts r).0 e in
          IsClean-of_counts r.items named (sym c.pending ∙ p) (sym c.drifted ∙ d)
            (sym c.missing ∙ m),
      λ h.
          let (p, d, m) = counts_of_clean r.items h in
          (exit_code_counts r).1 (c.pending ∙ p, c.drifted ∙ d, c.missing ∙ m),
    )
