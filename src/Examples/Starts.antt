-- ===== src/Examples/Starts.antt =====
-- The theorems on the migrations at two files, of which the second fails at first, and on the start.
use claude_gate.Prelude.{
  ℕ, String, ◌≡◌, refl, true, false, ◌==◌, Option, none, some, List, [], ◌∷◌, if◌then◌else◌, ℤ, pos,
  All,
}
use claude_gate.Prelude.Result.{Result, ok, engine}
use claude_gate.Store.Rows.{Db}
use claude_gate.Token.Manager.{Manager}
use claude_gate.Proxy.Pipeline.{Pipeline}
use claude_gate.Config.{System, Config, Warning, invalid_failures, default_ttl, default_failures}
use claude_gate.Startup.{StartIo}
use claude_gate.Examples.{calm, sample, Item}
use claude_gate.Examples.Pipelines.{parse_url, first_pipeline}
use claude_gate.Examples.Tokens.{token_1, token_2}
use claude_gate.Store.Migrate.{
  eq_int, lt_int, has_version, ends_with, before_underscore, DirEntry, Toolbox, AppliedRow, Schema,
  scanned, MigrateIo, IsUntroubled, scan_rows, migrations_of, insert_version, apply_migration,
  apply_all, ordered, migrate, versions,
}
use claude_gate.Store.Migrate.Stamped.{at_times, migrate_resumed}
use claude_gate.Store.Migrate.Order.{IsSorting, Added, due_after, migrate_ascending}
use claude_gate.Examples.Sorting.{insert, sort, sort-Sorted, sort-Perm}

abbrev file : String → DirEntry
file name = record { name = name; is_dir = false }

abbrev digits : String → Option ℤ
digits text = if text == "1" then some (pos 1) else (if text == "2" then some (pos 2) else none)

-- The tables of a test database are the texts that ran, the latest first.
abbrev toolbox : Toolbox (List String)
toolbox = record {
  atoi = digits;
  sort_slice = sort;
  entries = file "2_b.sql" ∷ file "1_a.sql" ∷ file "x_c.sql" ∷ file "README" ∷ [];
  read_file = λ name. name;
  run_sql = λ text tables. (ok tt, text ∷ tables);
}

toolbox-IsSorting : IsSorting toolbox
toolbox-IsSorting = record { permutes = sort-Perm; sorts = sort-Sorted }

abbrev smooth : MigrateIo
smooth = record {
  create = none;
  query = none;
  read_dir = none;
  row = λ n. scanned;
  read = λ name. none;
  begin = λ name. none;
  exec = λ name. none;
  record_version = λ name. none;
  stamp = λ name. "early";
  commit = λ name. none;
}

smooth-IsUntroubled : IsUntroubled smooth
smooth-IsUntroubled = record {
  creates = refl;
  queries = refl;
  reads_dir = refl;
  rows = λ n. refl;
  reads = λ name. refl;
  begins = λ name. refl;
  execs = λ name. refl;
  records = λ name. refl;
  commits = λ name. refl;
}

-- The second migration's commit fails.
abbrev cut_short : MigrateIo
cut_short = record smooth {
  commit = λ name. if name == "2_b.sql" then some (engine "disk full") else none;
}

abbrev row : ℕ → String → AppliedRow
row v now = record { version = pos v; applied_at = now }

abbrev blank : Schema (List String)
blank = record { migrations = none; tables = [] }

abbrev full : Schema (List String)
full = record {
  migrations = some (row 2 "early" ∷ row 1 "early" ∷ []);
  tables = "2_b.sql" ∷ "1_a.sql" ∷ [];
}

blank_migrates : migrate toolbox smooth blank ≡ (ok tt, full)
unfolding migrate ordered migrations_of ends_with before_underscore sort insert lt_int scan_rows
    apply_all apply_migration insert_version has_version eq_int
blank_migrates = refl

-- The database after the start that was cut short and a later one.
abbrev again : Result (Unit {0}) × Schema (List String)
again = migrate toolbox (at_times (λ name. "late") smooth) (migrate toolbox cut_short blank).1

migrate_resumed_example :
    (again.0 ≡ ok tt)
    × (versions again.1 ≡ pos 2 ∷ pos 1 ∷ [])
    × (again.1.tables ≡ "2_b.sql" ∷ "1_a.sql" ∷ [])
migrate_resumed_example =
    migrate_resumed toolbox smooth smooth-IsUntroubled cut_short (λ name. "late") blank full
      blank_migrates

migrate_ascending_example :
    Added (migrations_of toolbox toolbox.entries) [] (versions (migrate toolbox cut_short blank).1)
    × All
        (λ m. has_version m.version (versions (migrate toolbox cut_short blank).1) ≡ true)
        (due_after (migrate toolbox cut_short blank).0 (migrations_of toolbox toolbox.entries))
migrate_ascending_example = migrate_ascending toolbox cut_short blank toolbox-IsSorting

abbrev system : System
system = record {
  getenv = λ key.
      if key == "CLAUDE_GATE_ADMIN_SECRET"
      then "secret"
      else (if key == "CLAUDE_GATE_MAX_FAILURES" then "many" else "");
  parse_duration = λ text. none;
  atoi = digits;
  url_scheme = λ text. some "https";
  dir_of = λ path. ".";
  is_missing = λ path. false;
}

abbrev db_toolbox : Toolbox Db
db_toolbox = record {
  atoi = digits;
  sort_slice = sort;
  entries = file "1_a.sql" ∷ [];
  read_file = λ name. name;
  run_sql = λ text db. (ok tt, db);
}

abbrev start_io : StartIo
start_io = record {
  open_write = none;
  open_read = none;
  migrate = smooth;
  refresh = calm 1;
  parse_url = parse_url;
  templates_parse = true;
}

abbrev config : Config
config = record {
  addr = ":8080";
  db_path = "./claude-gate.db";
  admin_secret = "secret";
  upstream_url = "https://api.anthropic.com";
  sticky_ttl = default_ttl;
  max_failures = default_failures;
  log_level = "info";
}

abbrev old_schema : Schema Db
old_schema = record { migrations = none; tables = sample }

abbrev new_schema : Schema Db
new_schema = record { migrations = some (row 1 "early" ∷ []); tables = sample }

unfoldable pooled_manager : Manager (List Item)
unfolding token_1 token_2
pooled_manager = record {
  pool = record { tokens = token_1 ∷ token_2 ∷ []; counter = 0; max_failures = default_failures };
  sticky = record { store = sample; cache = [] };
  sticky_ttl = default_ttl;
  max_failures = default_failures;
  refresh_at = none;
}

abbrev served_pipeline : Pipeline (List Item)
served_pipeline = record first_pipeline {
  handler = record first_pipeline.handler { manager = pooled_manager };
}

-- The warning on the variable that does not parse.
abbrev warnings : List Warning
warnings = invalid_failures "many" default_failures ∷ []
