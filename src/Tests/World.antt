-- ===== src/Tests/World.antt =====
-- A small database that runs every statement but those that begin with BAD, with transactions, and
-- a disk of three files.
use Prim.Native.String.{String}
use schemago.Base.{
  ◌≡◌, refl, ℕ, ◌+◌, Bool, true, false, none, List, [], ◌∷◌, ◌++◌, Result, ok, err, arith,
  if◌then◌else◌,
}
use schemago.Base.Int.{pos}
use schemago.Text.{Bytes, codes, eq_bytes, has_prefix}
use schemago.Files.{Files, DirEntry, not_exist}
use schemago.Migration.Filename.{MigrationFile}
use schemago.Database.{Runtime, SqlError}
use schemago.Database.Transactions.{Transactions}

pub record Sim : Type 0 where
  pub clock : ℕ
  pub committed : List Bytes
  pub working : List Bytes
  pub in_tx : Bool

abbrev ends : Bytes → Bool
ends q = eq_bytes q (codes "COMMIT;")

abbrev answer : Bytes → Result SqlError (Unit {0})
answer q = if has_prefix q (codes "BAD") then err (codes "syntax error") else ok tt

-- Makes the working contents the committed ones.
abbrev publish : Sim → Sim
publish w = record w { committed = w.working; in_tx = false }

abbrev write_to : Bytes → Sim → Sim
write_to q w =
    if ends q
    then publish w
    else if w.in_tx
    then record w { working = w.working ++ q ∷ [] }
    else record w { committed = w.committed ++ q ∷ [] }

abbrev run : Bytes → Sim → Result SqlError (Unit {0}) × Sim
run q w =
    if has_prefix q (codes "BAD") then (err (codes "syntax error"), w) else (ok tt, write_to q w)

abbrev close : Sim → Result SqlError (Unit {0}) × Sim
close w = if w.in_tx then (ok tt, publish w) else (err (codes "no transaction"), w)

abbrev pub sim : Runtime
sim = record {
  World = Sim;
  now = λ w. (w.clock, record w { clock = w.clock + 2_000_000 });
  begin_tx = λ w. (ok tt, record w { working = w.committed; in_tx = true });
  exec = λ q args w. run q w;
  commit = close;
  rollback = λ w. (ok tt, record w { working = w.committed; in_tx = false });
  query = λ q w. ok (record { rows = []; final_error = none });
  format_time = λ t. codes "2026-01-01T00:00:00Z";
  parse_time = λ layout s. none;
}

pub run_committed :
    (q : Bytes) (w : Sim) → w.in_tx ≡ true → ends q ≡ false → (run q w).1.committed ≡ w.committed
run_committed q w t e = ground arith

pub run_in_tx : (q : Bytes) (w : Sim) → w.in_tx ≡ true → ends q ≡ false → (run q w).1.in_tx ≡ true
run_in_tx q w t e = ground arith

pub run_working :
    (q : Bytes) (w : Sim)
    → w.in_tx ≡ true
    → ends q ≡ false
    → (run q w).0 ≡ ok tt
    → (run q w).1.working ≡ w.working ++ q ∷ []
run_working q w t e h = ground arith

pub close_committed :
    (w : Sim) → w.in_tx ≡ true → (close w).0 ≡ ok tt → (close w).1.committed ≡ w.working
close_committed w t e = ground arith

pub close_failed :
    (w : Sim) (e : SqlError) → (close w).0 ≡ err e → (close w).1.committed ≡ w.committed
close_failed w e h = ground arith

abbrev pub sim_transactions : Transactions sim
sim_transactions = record {
  Contents = List Bytes;
  committed = λ w. w.committed;
  working = λ w. w.working;
  in_tx = λ w. w.in_tx;
  ends_tx = ends;
  Runs = λ q args c d. d ≡ c ++ q ∷ [];
  now_committed = λ w. refl;
  now_in_tx = λ w. refl;
  now_working = λ w. refl;
  begin_committed = λ w. refl;
  begin_in_tx = λ w e. refl;
  begin_working = λ w e. refl;
  exec_committed = λ q args w. run_committed q w;
  exec_in_tx = λ q args w. run_in_tx q w;
  exec_working = λ q args w. run_working q w;
  commit_committed = close_committed;
  commit_failed = close_failed;
  rollback_committed = λ w. refl;
}

abbrev pub entry : String → Bool → DirEntry
entry name is_dir = record { name = codes name; is_dir = is_dir }

-- A file with two statements, one whose second statement fails, and any other is missing.
abbrev pub disk : Files
disk = record {
  read_file = λ path.
      if eq_bytes path (codes "m/1_a.sql")
      then ok (codes "CREATE TABLE a (id INT);\nINSERT INTO a VALUES (1);\n")
      else if eq_bytes path (codes "m/2_b.sql")
      then ok (codes "DROP TABLE a;\nBAD;\n")
      else err not_exist;
  read_dir = λ path.
      if eq_bytes path (codes "m")
      then ok (
          entry "2_b.sql" false
          ∷ entry "old" true
          ∷ entry ".keep" false
          ∷ entry "1_a.sql" false
          ∷ [])
      else err not_exist;
  sum256 = λ text. 16 ∷ 171 ∷ [];
  join = λ dir name. dir ++ b'/' ∷ name;
}

abbrev pub file_a : MigrationFile
file_a = record {
  version = pos 1;
  raw_version = codes "1";
  description = codes "a";
  filename = codes "1_a.sql";
  path = codes "m/1_a.sql";
  checksum = codes "10ab";
}

abbrev pub file_b : MigrationFile
file_b = record {
  version = pos 2;
  raw_version = codes "2";
  description = codes "b";
  filename = codes "2_b.sql";
  path = codes "m/2_b.sql";
  checksum = codes "10ab";
}

abbrev pub start : Sim
start = record { clock = 5; committed = codes "OLD" ∷ []; working = []; in_tx = false }
