-- ===== src/Store/Migrate.antt =====
-- migrate of internal/store/store.go. The tables other than schema_migrations are a parameter `T`, with
-- what the text of a migration does to them; so are strconv.Atoi, sort.Slice and the embedded files.
pub mod Permuted
pub mod Resume
pub mod Stamped
pub mod Order
use Prim.Native.Char.{code}
use Prim.Native.String
use claude_gate.Prelude.{
  ◌≡◌, ℕ, suc, String, Bool, true, false, not, ◌&&◌, ◌||◌, ◌==◌, eqb, ltb, Option, none, some, List,
  [], ◌∷◌, map, if◌then◌else◌, ℤ, pos, negsuc,
}
use claude_gate.Prelude.Result.{Error, Result, ok, err, unique, wrap, wrapped, attempt}
use claude_gate.Prelude.Exec.{Exec, pure, raise, lift, modify, wrapping, ◌>>=◌, ◌>>◌}
use claude_gate.Store.Statements.{committed_by}

-- == and < of int.
unfoldable pub eq_int : ℤ → ℤ → Bool
eq_int (pos a) (pos b) = eqb a b
eq_int (pos a) (negsuc b) = false
eq_int (negsuc a) (pos b) = false
eq_int (negsuc a) (negsuc b) = eqb a b

unfoldable pub lt_int : ℤ → ℤ → Bool
lt_int (pos a) (pos b) = ltb a b
lt_int (pos a) (negsuc b) = false
lt_int (negsuc a) (pos b) = true
lt_int (negsuc a) (negsuc b) = ltb b a

-- The map `applied`, and the primary key of schema_migrations.
unfoldable pub has_version : ℤ → List ℤ → Bool
has_version v [] = false
has_version v (w ∷ ws) = eq_int w v || has_version v ws

-- strings.HasSuffix.
unfoldable pub ends_with : String → String → Bool
ends_with String.[] p = p == String.[]
ends_with (String.◌∷◌ c s) p = (String.◌∷◌ c s == p) || ends_with s p

abbrev prefixed : Prim.Native.Char.Char → Option String → Option String
prefixed c none = none
prefixed c (some s) = some (String.◌∷◌ c s)

-- The first part of strings.SplitN(s, "_", 2), if there are two.
unfoldable pub before_underscore : String → Option String
before_underscore String.[] = none
before_underscore (String.◌∷◌ c s) =
    let rest = before_underscore s in if eqb (code c) 95 then some "" else prefixed c rest

pub record DirEntry : Type 0 where
  pub name : String
  pub is_dir : Bool

pub record Migration : Type 0 where
  pub version : ℤ
  pub name : String

pub record Toolbox (T : Type 0) : Type 0 where
  -- strconv.Atoi, `none` for an error
  pub atoi : String → Option ℤ
  pub sort_slice : (Migration → Migration → Bool) → List Migration → List Migration
  -- the embedded directory, and the text of a file
  pub entries : List DirEntry
  pub read_file : String → String
  -- tx.Exec of a text: what it wrote before an error is there until the rollback
  pub run_sql : String → Exec T (Unit {0})

-- A row of schema_migrations.
pub record AppliedRow : Type 0 where
  pub version : ℤ
  pub applied_at : String

-- schema_migrations, `none` before it is there, and the other tables.
pub record Schema (T : Type 0) : Type 0 where
  pub migrations : Option (List AppliedRow)
  pub tables : T

-- How a row is read: Scan succeeds or fails, or Next is false with an error, which nothing looks at.
pub data RowRead : Type 0 where
  scanned cut_off : RowRead
  scan_failed : Error → RowRead

-- The errors that the engine and the file system give, how the n-th row is read, and the text of
-- datetime('now') when a file's version is recorded, the default of applied_at.
pub record MigrateIo : Type 0 where
  pub create : Option Error
  pub query : Option Error
  pub read_dir : Option Error
  pub row : ℕ → RowRead
  pub read : String → Option Error
  pub begin : String → Option Error
  pub exec : String → Option Error
  pub record_version : String → Option Error
  pub stamp : String → String
  pub commit : String → Option Error

pub record IsUntroubled (io : MigrateIo) : Type 0 where
  pub creates : io.create ≡ none
  pub queries : io.query ≡ none
  pub reads_dir : io.read_dir ≡ none
  pub rows : (n : ℕ) → io.row n ≡ scanned
  pub reads : (file : String) → io.read file ≡ none
  pub begins : (file : String) → io.begin file ≡ none
  pub execs : (file : String) → io.exec file ≡ none
  pub records : (file : String) → io.record_version file ≡ none
  pub commits : (file : String) → io.commit file ≡ none

abbrev pub rows_of : Option (List AppliedRow) → List AppliedRow
rows_of none = []
rows_of (some rows) = rows

-- SELECT version FROM schema_migrations.
abbrev pub versions : {T : Type 0} → Schema T → List ℤ
versions s = map (λ row. row.version) (rows_of s.migrations)

abbrev pub scan_step : RowRead → ℤ → Result (List ℤ) → Result (List ℤ)
scan_step scanned v (ok vs) = ok (v ∷ vs)
scan_step scanned v (err x) = err x
scan_step cut_off v rest = ok []
scan_step (scan_failed x) v rest = err (wrap "scan migration version" x)

-- The loop over the rows of schema_migrations.
unfoldable pub scan_rows : MigrateIo → ℕ → List ℤ → Result (List ℤ)
scan_rows io n [] = ok []
scan_rows io n (v ∷ vs) = let rest = scan_rows io (suc n) vs in scan_step (io.row n) v rest

abbrev numbered : String → Option ℤ → Option Migration
numbered name none = none
numbered name (some v) = some (record { version = v; name = name })

abbrev parsed : {T : Type 0} → Toolbox T → String → Option String → Option Migration
parsed g name none = none
parsed g name (some digits) = numbered name (g.atoi digits)

abbrev kept : Option Migration → List Migration → List Migration
kept none ms = ms
kept (some m) ms = m ∷ ms

module _ {T : Type 0} (g : Toolbox T) where
  -- The loop over the entries of the directory, which skips what is no migration.
  unfoldable pub migrations_of : List DirEntry → List Migration
  unfolding before_underscore
  migrations_of [] = []
  migrations_of (f ∷ fs) =
      let rest = migrations_of fs in
      if f.is_dir || not (ends_with f.name ".sql")
      then rest
      else kept (parsed g f.name (before_underscore f.name)) rest

  -- INSERT INTO schema_migrations.
  unfoldable pub insert_version : ℤ → String → Exec (Schema T) (Unit {0})
  insert_version v now s =
      if has_version v (versions s) then (err (unique "schema_migrations.version"), s) else (
        ok tt,
        record s {
          migrations = some (record { version = v; applied_at = now } ∷ rows_of s.migrations);
        },
      )

  abbrev on_tables : Exec T (Unit {0}) → Exec (Schema T) (Unit {0})
  on_tables run s = let (r, tables) = run s.tables in (r, record s { tables = tables })

  -- The body of the loop for a migration that is not applied.
  unfoldable pub apply_migration : MigrateIo → Migration → Exec (Schema T) (Unit {0})
  unfolding insert_version
  apply_migration io m = do
    wrapping (String.◌++◌ "read migration " m.name) (lift (attempt (io.read m.name)))
    wrapping (String.◌++◌ "begin tx for migration " m.name) (lift (attempt (io.begin m.name)))
    λ s.
        let (r, after) =
          (do
            wrapping (String.◌++◌ "exec migration " m.name)
                (do lift (attempt (io.exec m.name)); on_tables (g.run_sql (g.read_file m.name)))
            wrapping (String.◌++◌ "record migration " m.name) (do
              lift (attempt (io.record_version m.name))
              insert_version m.version (io.stamp m.name)))
            s in
        let commit =
          wrapped (String.◌++◌ "commit migration " m.name) (attempt (io.commit m.name)) in
        committed_by commit s (r, after)

  unfoldable pub apply_all : MigrateIo → List ℤ → List Migration → Exec (Schema T) (Unit {0})
  unfolding apply_migration
  apply_all io applied [] = pure tt
  apply_all io applied (m ∷ ms) =
      let rest = apply_all io applied ms in
      if has_version m.version applied then rest else (do apply_migration io m; rest)

  -- The migrations in the order in which they are tried.
  unfoldable pub ordered : List Migration
  unfolding migrations_of
  ordered = g.sort_slice (λ a b. lt_int a.version b.version) (migrations_of g.entries)

  abbrev create_table : Schema T → Schema T
  create_table s = record s { migrations = some (rows_of s.migrations) }

  unfoldable pub migrate : MigrateIo → Exec (Schema T) (Unit {0})
  unfolding ordered apply_all scan_rows
  migrate io = do
    wrapping "create migrations table" (do lift (attempt io.create); modify create_table)
    wrapping "query migrations" (lift (attempt io.query))
    applied ← λ s. (scan_rows io 0 (versions s), s)
    wrapping "read migrations dir" (lift (attempt io.read_dir))
    apply_all io applied ordered

  -- How New ends: sql.Open fails for the writing or the reading connections, which then are none or
  -- are closed, or migrate ends, and both are closed if it failed.
  unfoldable pub new_store : Option Error → Option Error → MigrateIo → Exec (Schema T) (Unit {0})
  unfolding migrate
  new_store open_write open_read io = do
    wrapping "open write db" (lift (attempt open_write))
    wrapping "open read db" (lift (attempt open_read))
    wrapping "migrate" (migrate io)
