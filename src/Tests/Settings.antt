-- ===== src/Tests/Settings.antt =====
-- A configuration from a flag, an environment variable and a default.
use schemago.Base.{◌≡◌, refl, [], ok, err, if◌then◌else◌}
use schemago.Base.Int.{pos, negsuc}
use schemago.Text.{Bytes, codes, eq_bytes}
use schemago.Text.Trim.{trim_space}
use schemago.Config.{missing_database_url, new_with_opts}
use schemago.Config.Precedence
use schemago.Config.Precedence.{new_with_opts-Verdict}

abbrev environment : Bytes → Bytes
environment name = if eq_bytes name (codes "MIGRATIONS_DIR") then codes " db/sql " else []

new_with_opts_test :
    new_with_opts environment (codes "file:x ") [] [] (negsuc 0)
    ≡ ok (record {
      database_url = codes "file:x";
      timeout = pos 5_000_000_000;
      migrations_dir = codes "db/sql";
      table_name = codes "schemago_migrations";
    })
unfolding new_with_opts trim_space eq_bytes
new_with_opts_test = refl

missing_test : new_with_opts environment (codes " ") [] [] (pos 1) ≡ err missing_database_url
unfolding new_with_opts trim_space eq_bytes
missing_test = refl

new_with_opts-Verdict_example :
    Precedence.Verdict environment
      (codes "file:x ")
      []
      []
      (new_with_opts environment (codes "file:x ") [] [] (negsuc 0))
new_with_opts-Verdict_example = new_with_opts-Verdict environment (codes "file:x ") [] [] (negsuc 0)
