-- ===== src/Status/Discovered.antt =====
-- The exit code of `status` for the files that `Discover` finds.
use schemago.Base.{◌≡◌, refl, ◌↔◌, false, List, [], ◌∷◌, ok, arith, All-map, Result-cases, inl, inr}
use schemago.Text.{Bytes, is_empty}
use schemago.Files.{Files}
use schemago.Migration.Checksum.{compute_file_checksum, compute_checksum, encode_to_string}
use schemago.Migration.Filename.{MigrationFile}
use schemago.Migration.Order.Sorted.{Sorted-IsOther}
use schemago.Migration.Discovery.{discover}
use schemago.Migration.Discovery.Loaded.{IsLoaded, discover-Verdict}
use schemago.History.{AppliedMigration}
use schemago.History.Pending.{compute_pending}
use schemago.Status.{exit_code, build_report}
use schemago.Status.Agreement.{HasChecksum, exit_code-compute_pending}

module _ (fs : Files) (hashes : (t : Bytes) → is_empty (fs.sum256 t) ≡ false) where
  encode_to_string_some : (s : Bytes) → is_empty s ≡ false → is_empty (encode_to_string s) ≡ false
  unfolding encode_to_string
  encode_to_string_some [] h = h
  encode_to_string_some (c ∷ s) h = refl

  compute_file_checksum_some :
      (path c : Bytes) → compute_file_checksum fs path ≡ ok c → is_empty c ≡ false
  unfolding compute_file_checksum compute_checksum
  compute_file_checksum_some path c h = elim (Result-cases (fs.read_file path)) [
    | inl (t, e) ↦ ground (arith, h, e, encode_to_string_some (fs.sum256 t) (hashes t))
    | inr (x, e) ↦ absurd (ground (arith, h, e))
  ]

  HasChecksum-of_IsLoaded : (file : MigrationFile) → IsLoaded fs file → HasChecksum file
  HasChecksum-of_IsLoaded file l = compute_file_checksum_some file.path file.checksum l.1

  -- For the files that `Discover` returns, with a hash function that gives some bytes, `status` exits
  -- with 0 exactly if `ComputePending` finds no error and nothing to apply.
  pub exit_code-discover :
      (dir : Bytes) (applied : List AppliedMigration) {files : List MigrationFile}
      → discover fs dir ≡ ok files
      → (exit_code (build_report files applied) ≡ 0) ↔ (compute_pending fs files applied ≡ ok [])
  exit_code-discover dir applied {files} h =
      let (ps, l, p, s, all) = rw h at (discover-Verdict fs dir) in
      exit_code-compute_pending fs files applied (Sorted-IsOther files s)
        (All-map (IsLoaded fs) HasChecksum files HasChecksum-of_IsLoaded all)
