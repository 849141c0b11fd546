-- ===== src/Output/Decimal.antt =====
-- `%d` of a number that is not negative.
use schemago.Base.{ℕ, zero, suc, ◌+◌, ◌/◌, ◌%◌, ◌<◌, ◌≡◌, [], ◌∷◌, ltb, if◌then◌else◌, arith}
use schemago.Text.{Bytes}
use schemago.Migration.Filename.{decimal, decimal_from}

-- The digits in front of `out`; the fuel bounds their number.
unfoldable pub digits : ℕ → ℕ → Bytes → Bytes
digits zero n out = out
digits (suc fuel) n out =
    let rest = digits fuel (n / 10) ((b'0' + n % 10) ∷ out) in
    if ltb n 10 then (b'0' + n) ∷ out else rest

unfoldable pub format_nat : ℕ → Bytes
unfolding digits
format_nat n = digits (suc n) n []

decimal-digits :
    (fuel n : ℕ) (out : Bytes) → n < fuel → decimal (digits fuel n out) ≡ decimal_from n out
unfolding digits
decimal-digits zero n out h = absurd (omega arith)
decimal-digits (suc fuel) n out h =
    ground (arith, decimal-digits fuel (n / 10) ((b'0' + n % 10) ∷ out))

-- The fuel is enough: the digits of a number read as that number.
pub decimal-format_nat : (n : ℕ) → decimal (format_nat n) ≡ n
unfolding format_nat
decimal-format_nat n = decimal-digits (suc n) n [] (omega arith)
