-- ===== src/Tests/Printing.antt =====
-- Printing to a writer of forty bytes, and what is printed.
use schemago.Base.{
  ◌≡◌, ◌≤◌, refl, true, false, none, some, [], ◌∷◌, ◌++◌, length, leb, if◌then◌else◌, Bool,
}
use schemago.Text.{Bytes, codes, eq_bytes}
use schemago.Text.Trim.{trim_space}
use schemago.Text.Lines.{split_lines, lacks}
use schemago.Output.{Script, Writer, print, text_of, error_of}
use schemago.Output.Decimal.{format_nat}
use schemago.Output.Duration.{duration_text}
use schemago.Plan.{
  read_failed, build_plan, format_plan, entries_script, header_text, entry_text, PlanError,
}
use schemago.Files.{not_exist}
use schemago.Migration.Filename.{MigrationFile}
use schemago.Plan.Errors.{first_unreadable, format_plan-first_unreadable}
use schemago.Plan.Lines.{header_line, numbered_lines, format_plan-lines}
use schemago.Apply.Format.{first_of, short_statement}
use schemago.Apply.Format.Statement.{short_statement_bounds}
use schemago.Tests.World.{disk, file_a, file_b}

abbrev room : Bytes → Bytes → Bool
room text w = leb (length (w ++ text)) 40

abbrev small : Writer
small = record {
  State = Bytes;
  write_to = λ text w. if room text w then (none, w ++ text) else (some (codes "no space"), w);
}

abbrev preview : Bool → Script PlanError
preview show_sql = format_plan disk show_sql (some (build_plan (file_a ∷ file_b ∷ [])))

-- The writer is full after the heading.
print_test : (print small (preview false) []).1 ≡ codes "Found 2 pending migrations to apply:\n\n"
unfolding print format_plan entries_script header_text entry_text format_nat
print_test = refl

preview_test :
    text_of (preview false)
    ≡ codes "Found 2 pending migrations to apply:\n\n1. 1_a.sql\n2. 2_b.sql\n"
unfolding format_plan
preview_test = refl

sql_test :
    text_of (preview true)
    ≡ codes
        "Found 2 pending migrations to apply:\n\n1. 1_a.sql\n   CREATE TABLE a (id INT);\n   INSERT INTO a VALUES (1);\n\n2. 2_b.sql\n   DROP TABLE a;\n   BAD;\n"
unfolding format_plan eq_bytes trim_space
sql_test = refl

format_plan-lines_example :
    let s = preview false in
    (error_of s ≡ none)
    × (split_lines (text_of s) ≡ header_line 2 ∷ [] ∷ numbered_lines 1 (file_a ∷ file_b ∷ []))
format_plan-lines_example = format_plan-lines disk file_a (file_b ∷ []) (refl, (refl, tt))

short_statement_bounds_example :
    (length (short_statement (codes "SELECT 1\nFROM t")) ≤ 80)
    × (lacks b'\n' (short_statement (codes "SELECT 1\nFROM t")) ≡ true)
    × (length (first_of (split_lines (codes "SELECT 1\nFROM t"))) ≤ 80
        → short_statement (codes "SELECT 1\nFROM t")
          ≡ first_of (split_lines (codes "SELECT 1\nFROM t")))
short_statement_bounds_example = short_statement_bounds (codes "SELECT 1\nFROM t")

-- 1.5 s, 61 s, 3 ms (rounded) and less than a millisecond.
duration_test :
    duration_text 1_500_000_000 ++ (b' ' ∷ duration_text 61_000_000_000) ≡ codes "1.5s 1m1s"
unfolding duration_text
duration_test = refl

short_duration_test : duration_text 2_500_000 ++ (b' ' ∷ duration_text 999_999) ≡ codes "3ms <1ms"
unfolding duration_text
short_duration_test = refl

-- A file that is gone since, behind one that can be read.
abbrev gone : MigrationFile
gone = record file_b { path = codes "m/3_c.sql" }

gone_test :
    first_unreadable disk (file_a ∷ gone ∷ []) ≡ some (read_failed (codes "m/3_c.sql") not_exist)
unfolding eq_bytes
gone_test = refl

format_plan-first_unreadable_example :
    error_of (format_plan disk true (some (build_plan (file_a ∷ gone ∷ []))))
    ≡ first_unreadable disk (file_a ∷ gone ∷ [])
format_plan-first_unreadable_example = format_plan-first_unreadable disk (file_a ∷ gone ∷ [])
