-- ===== src/Migration/Checksum.antt =====
-- `ComputeChecksum` and `ComputeFileChecksum` of internal/migration/convention.go.
use schemago.Base.{ℕ, ◌+◌, ◌-◌, ◌%◌, ◌/◌, [], ◌∷◌, ltb, if◌then◌else◌, Result, ok, ◌>>=◌}
use schemago.Text.{Bytes}
use schemago.Files.{Files, OsError}

abbrev hex_digit : ℕ → ℕ
hex_digit d = if ltb d 10 then b'0' + d else b'a' + (d - 10)

-- `hex.EncodeToString`
unfoldable pub encode_to_string : Bytes → Bytes
encode_to_string [] = []
encode_to_string (c ∷ s) = hex_digit (c / 16) ∷ hex_digit (c % 16) ∷ encode_to_string s

-- `ComputeChecksum`
unfoldable pub compute_checksum : Files → Bytes → Bytes
unfolding encode_to_string
compute_checksum fs text = encode_to_string (fs.sum256 text)

-- `ComputeFileChecksum`
unfoldable pub compute_file_checksum : Files → Bytes → Result OsError Bytes
unfolding compute_checksum
compute_file_checksum fs path = do text ← fs.read_file path; ok (compute_checksum fs text)
