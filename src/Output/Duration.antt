-- ===== src/Output/Duration.antt =====
-- `time.Duration`: rounding to milliseconds, and the text of the result.
use schemago.Base.{ℕ, ◌+◌, ◌/◌, ◌%◌, [], ◌∷◌, ◌++◌, ltb, ◌==◌, if◌then◌else◌}
use schemago.Text.{Bytes, codes}
use schemago.History.{Time}
use schemago.Output.Decimal.{format_nat}

-- `d.Round(time.Millisecond)`, as a number of milliseconds: half a millisecond is rounded up.
abbrev pub round_ms : Time → ℕ
round_ms d = (d + 500_000) / 1_000_000

-- The last three digits of seconds, with no zeros at the end.
abbrev fraction : ℕ → Bytes
fraction ms =
    if ms == 0
    then []
    else if ms % 100 == 0
    then b'.' ∷ (b'0' + ms / 100) ∷ []
    else if ms % 10 == 0
    then b'.' ∷ (b'0' + ms / 100) ∷ (b'0' + ms / 10 % 10) ∷ []
    else b'.' ∷ (b'0' + ms / 100) ∷ (b'0' + ms / 10 % 10) ∷ (b'0' + ms % 10) ∷ []

abbrev minutes_text : ℕ → Bytes
minutes_text m =
    if m == 0
    then []
    else ((if m / 60 == 0 then [] else format_nat (m / 60) ++ b'h' ∷ [])
        ++ (format_nat (m % 60) ++ b'm' ∷ []))

-- `String` of a whole number of milliseconds, at least one.
unfoldable pub duration_string : ℕ → Bytes
unfolding format_nat
duration_string ms =
    if ltb ms 1000
    then format_nat ms ++ codes "ms"
    else minutes_text (ms / 60_000)
      ++ (format_nat (ms / 1000 % 60) ++ (fraction (ms % 1000) ++ b's' ∷ []))

-- `durStr` of the reports.
unfoldable pub duration_text : Time → Bytes
unfolding duration_string
duration_text d = if ltb d 1_000_000 then codes "<1ms" else duration_string (round_ms d)
