-- ===== src/Tests/Texts.antt =====
-- The splitting of files into statements, and the parsing of file names.
use schemago.Base.{◌≡◌, refl, List, [], ◌∷◌, map, ok, err, All, Sorted, length}
use schemago.Base.Int.{pos}
use schemago.Text.{Bytes, codes, eq_bytes}
use schemago.Text.Lines.{split_lines, join_lines}
use schemago.Text.Trim.{trim_space, space_width, space_width_back}
use schemago.Migration.Filename.{bad_format, parse_filename}
use schemago.Migration.Filename.Grammar.{Verdict, parse_filename-Verdict}
use schemago.Migration.Statement.{split_statements}
use schemago.Migration.Statement.Shape.{
  Numbered, IsWithin, IsBefore, IsText, split_statements_shape,
}
use schemago.Migration.Statement.Pieces.{Piece, byte, single_quoted, double_quoted, block_comment}
use schemago.Migration.Statement.RoundTrip.{IsLine, line_of, split_statements-join_lines}

abbrev bytes : Bytes → List Piece
bytes [] = []
bytes (c ∷ s) = byte c ∷ bytes s

-- I 'it; -- x'/*; ' **/; and D -1/2 "a;b";
abbrev insert_line : List Piece
insert_line =
    byte b'I' ∷ byte b' ' ∷ single_quoted (codes "it; -- x") ∷ block_comment (codes "; ' *") ∷ []

abbrev drop_line : List Piece
drop_line =
    byte b'D'
    ∷ byte b' '
    ∷ byte b'-'
    ∷ byte b'1'
    ∷ byte b'/'
    ∷ byte b'2'
    ∷ byte b' '
    ∷ double_quoted (codes "a;b")
    ∷ []

insert_line-IsLine : IsLine insert_line
unfolding space_width space_width_back
insert_line-IsLine = (refl, refl, (refl, refl))

drop_line-IsLine : IsLine drop_line
unfolding space_width space_width_back
drop_line-IsLine = (refl, refl, (refl, refl))

split_statements-join_lines_example :
    split_statements (join_lines (map line_of (insert_line ∷ drop_line ∷ [])))
    ≡ record { index = 1; line_number = 1; sql = codes "I 'it; -- x'/*; ' **/;" }
      ∷ record { index = 2; line_number = 2; sql = codes "D -1/2 \"a;b\";" }
      ∷ []
split_statements-join_lines_example =
    split_statements-join_lines (insert_line ∷ drop_line ∷ [])
      (insert_line-IsLine, (drop_line-IsLine, tt))

abbrev file_text : Bytes
file_text =
    codes "-- Migration 001\nCREATE TABLE a (\n    id INT\n);\n\n-- Second\nSELECT ';' /* ; */; x"

split_statements_test :
    split_statements file_text
    ≡ record { index = 1; line_number = 2; sql = codes "CREATE TABLE a (\n    id INT\n);" }
      ∷ record { index = 2; line_number = 7; sql = codes "SELECT ';' /* ; */;" }
      ∷ record { index = 3; line_number = 7; sql = codes "x" }
      ∷ []
unfolding split_statements trim_space
split_statements_test = refl

-- A comment behind the last statement is a statement too.
comment_test :
    split_statements (codes "SELECT 1; -- done")
    ≡ record { index = 1; line_number = 1; sql = codes "SELECT 1;" }
      ∷ record { index = 2; line_number = 1; sql = codes "-- done" }
      ∷ []
unfolding split_statements trim_space
comment_test = refl

split_statements_shape_example :
    Numbered 1 (split_statements file_text)
    × All (IsWithin (length (split_lines file_text))) (split_statements file_text)
    × Sorted IsBefore (split_statements file_text)
    × All IsText (split_statements file_text)
split_statements_shape_example = split_statements_shape file_text

parse_filename_test :
    parse_filename (codes "m/007_add-x.sql")
    ≡ ok (record {
      version = pos 7;
      raw_version = codes "007";
      description = codes "add-x";
      filename = codes "007_add-x.sql";
      path = codes "m/007_add-x.sql";
      checksum = [];
    })
unfolding parse_filename eq_bytes trim_space
parse_filename_test = refl

-- A file of version 0 is accepted.
zero_test :
    parse_filename (codes "0000_a.sql")
    ≡ ok (record {
      version = pos 0;
      raw_version = codes "0000";
      description = codes "a";
      filename = codes "0000_a.sql";
      path = codes "0000_a.sql";
      checksum = [];
    })
unfolding parse_filename eq_bytes trim_space
zero_test = refl

parse_filename_rejects : parse_filename (codes "m/7.sql") ≡ err (bad_format (codes "7.sql"))
unfolding parse_filename eq_bytes trim_space
parse_filename_rejects = refl

parse_filename-Verdict_example :
    Verdict (codes "m/007_add-x.sql") (parse_filename (codes "m/007_add-x.sql"))
parse_filename-Verdict_example = parse_filename-Verdict (codes "m/007_add-x.sql")
