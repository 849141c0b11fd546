-- ===== src/Tests/Tables.antt =====
-- A database that holds the rows of a history table, with the laws of transactions and of the table.
use schemago.Base.{
  ◌≡◌, refl, ap, ◌∙◌, subst, ℕ, ◌+◌, Bool, true, false, none, List, [], ◌∷◌, map, Result, ok, err,
  if◌then◌else◌, Bool-cases, inl, inr, arith,
}
use schemago.Base.Int.{ℤ}
use schemago.Text.{Bytes, codes}
use schemago.Map.Keys.{has_key}
use schemago.Map.Inserted.{Inserted, here}
use schemago.Files.{Files}
use schemago.History.Reads.{HistoryTable, row_version}
use schemago.Database.{Runtime, SqlError, SqlArg, int, text, Row, other_value}
use schemago.Database.Transactions.{Transactions}
use schemago.Apply.Laws.{KeepsTable}

pub record Store : Type 0 where
  pub clock : ℕ
  pub committed : List Row
  pub working : List Row
  pub in_tx : Bool

-- The insertion of a row, with its version as the primary key; anything else is about other tables.
abbrev pub change : List SqlArg → List Row → Result SqlError (List Row)
change (int v ∷ text n ∷ text t ∷ text c ∷ []) rows =
    if has_key row_version v rows
    then err (codes "duplicate key value violates unique constraint")
    else ok (record { version = v; name = n; applied_at = other_value; checksum = c } ∷ rows)
change _ rows = ok rows

abbrev pub seen : Store → List Row
seen w = if w.in_tx then w.working else w.committed

abbrev pub put : List Row → Store → Store
put rows w = if w.in_tx then record w { working = rows } else record w { committed = rows }

abbrev pub settled : Result SqlError (List Row) → Store → Result SqlError (Unit {0}) × Store
settled (ok rows) w = (ok tt, put rows w)
settled (err e) w = (err e, w)

abbrev pub store : Runtime
store = record {
  World = Store;
  now = λ w. (w.clock, record w { clock = w.clock + 2_000_000 });
  begin_tx = λ w. (ok tt, record w { working = w.committed; in_tx = true });
  exec = λ q args w. settled (change args (seen w)) w;
  commit = λ w. (ok tt, record w { committed = seen w; in_tx = false });
  rollback = λ w. (ok tt, record w { in_tx = false });
  query = λ q w. ok (record { rows = map ok (seen w); final_error = none });
  format_time = λ t. codes "2026-01-01T00:00:00Z";
  parse_time = λ layout s. none;
}

pub settled_committed :
    (r : Result SqlError (List Row)) (w : Store)
    → w.in_tx ≡ true
    → (settled r w).1.committed ≡ w.committed
settled_committed (ok rows) w t = ground arith
settled_committed (err e) w t = refl

pub settled_in_tx :
    (r : Result SqlError (List Row)) (w : Store) (b : Bool)
    → w.in_tx ≡ b
    → (settled r w).1.in_tx ≡ b
settled_in_tx (ok rows) w b t = ground arith
settled_in_tx (err e) w b t = t

settled_working :
    (r : Result SqlError (List Row)) (w : Store)
    → w.in_tx ≡ true
    → (settled r w).0 ≡ ok tt
    → r ≡ ok (settled r w).1.working
settled_working (ok rows) w t h = rw t refl
settled_working (err e) w t h = absurd (cc h)

pub change_working :
    (args : List SqlArg) (w : Store)
    → w.in_tx ≡ true
    → (settled (change args (seen w)) w).0 ≡ ok tt
    → change args w.working ≡ ok (settled (change args (seen w)) w).1.working
change_working args w t h =
    let same : w.working ≡ seen w = rw t refl in
    ap (change args) same ∙ settled_working (change args (seen w)) w t h

pub never_fails {ℓ κ} :
    {A : Type ℓ} {B : Type κ} {b : B} (e : SqlError)
    → (let r : Result SqlError B = ok b in r ≡ err e)
    → A
never_fails e h = absurd (cc h)

abbrev pub store_transactions : Transactions store
store_transactions = record {
  Contents = List Row;
  committed = λ w. w.committed;
  working = λ w. w.working;
  in_tx = λ w. w.in_tx;
  ends_tx = λ q. false;
  Runs = λ q args c d. change args c ≡ ok d;
  now_committed = λ w. refl;
  now_in_tx = λ w. refl;
  now_working = λ w. refl;
  begin_committed = λ w. refl;
  begin_in_tx = λ w e. refl;
  begin_working = λ w e. refl;
  exec_committed = λ q args w t e. settled_committed (change args (seen w)) w t;
  exec_in_tx = λ q args w t e. settled_in_tx (change args (seen w)) w true t;
  exec_working = λ q args w t e. change_working args w t;
  commit_committed = λ w t e. rw t refl;
  commit_failed = λ w e h. never_fails e h;
  rollback_committed = λ w. refl;
}

pub map_ok_injective :
    (xs ys : List Row)
    → (let zs : List (Result SqlError Row) = map ok ys in zs ≡ map ok xs)
    → xs ≡ ys
map_ok_injective [] [] h = refl
map_ok_injective (x ∷ xs) [] h = absurd (cc h)
map_ok_injective [] (y ∷ ys) h = absurd (cc h)
map_ok_injective (x ∷ xs) (y ∷ ys) h = cc (h, map_ok_injective xs ys (cc h))

pub keeps : (fs : Files) → KeepsTable store store_transactions fs
keeps fs = record { insert_kept = λ name table e. refl; create_kept = λ name table e. refl }

pub change-Inserted :
    (version : ℤ) (name applied_at checksum : Bytes) (c d : List Row)
    → change (int version ∷ text name ∷ text applied_at ∷ text checksum ∷ []) c ≡ ok d
    → (row : Row) × (row.version ≡ version)
      × (row.checksum ≡ checksum)
      × (has_key row_version version c ≡ false)
      × Inserted row c d
change-Inserted version name applied_at checksum c d h =
    elim (Bool-cases (has_key row_version version c)) [
      | inl e ↦ absurd (cc (rw e at h))
      | inr e ↦
          let row : Row = record {
            version = version;
            name = name;
            applied_at = other_value;
            checksum = checksum;
          } in
          let same : row ∷ c ≡ d = cc (rw e at h) in
          (row, refl, refl, e, subst (Inserted row c) same here)
    ]

pub seen_committed :
    (all : List Row) (w : Store)
    → w.in_tx ≡ false
    → (store.query [] w ≡ ok (record { rows = map ok all; final_error = none }))
    → all ≡ w.committed
seen_committed all w idle h = map_ok_injective all w.committed (cc (rw idle at h))

-- Every table exists.
pub always : {A : Type 0} → true ≡ false → A
always h = absurd (cc h)

abbrev pub history_table : HistoryTable store store_transactions
history_table = record {
  rows = λ table c. c;
  selected = λ table w all idle h. seen_committed all w idle h;
  exists = λ table c. true;
  missing = λ table c h. always h;
  unreadable = λ table w e idle there h. never_fails e h;
  inserted = λ table version name at checksum c d h. change-Inserted version name at checksum c d h;
  created = λ table w idle. rw idle refl;
  created_in_tx = λ table w idle. settled_in_tx (ok (seen w)) w false idle;
  commit_in_tx = λ w h. refl;
}
