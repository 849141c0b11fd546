-- ===== src/Lock/Key.antt =====
-- `GenerateLockID`: the 64-bit FNV-1a hash of the table name, as an int64.
use Prim.Native.Nat.{◌^◌, bit_xor}
use schemago.Base.{ℕ, ◌*◌, ◌%◌, ◌-◌, [], ◌∷◌, ◌++◌, ltb, if◌then◌else◌}
use schemago.Base.Int.{ℤ, pos, negsuc}
use schemago.Text.{Bytes, codes}

-- `h.Write` of hash/fnv on a hash value.
unfoldable pub write_from : ℕ → Bytes → ℕ
write_from h [] = h
write_from h (c ∷ s) = write_from (bit_xor h c * 1_099_511_628_211 % 2 ^ 64) s

-- `fnv.New64a`, `Write` and `Sum64`.
abbrev pub sum64a : Bytes → ℕ
sum64a = write_from 14_695_981_039_346_656_037

-- `int64(u)`
abbrev pub to_int64 : ℕ → ℤ
to_int64 u =
    if ltb u 9_223_372_036_854_775_808 then pos u else negsuc (18_446_744_073_709_551_615 - u)

-- `GenerateLockID`
unfoldable pub generate_lock_id : Bytes → ℤ
unfolding write_from
generate_lock_id table_name = to_int64 (sum64a (codes "schemago:" ++ table_name))
