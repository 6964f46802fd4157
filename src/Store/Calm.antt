-- ===== src/Store/Calm.antt =====
-- What the operations of real_token.go on one row do while the engine does not fail.
use claude_gate.Prelude.{
  ℕ, ◌+◌, String, ◌≡◌, Bool, true, false, Option, none, some, arith, if◌then◌else◌,
}
use claude_gate.Prelude.Result.{ok, err, no_rows}
use claude_gate.Store.Table.{first, update, at, count-some}
use claude_gate.Store.Rows.{Db, RealRow, scan_real_token}
use claude_gate.Store.Engine.{Engine, Io, IsCalm, statement, rows_affected}
use claude_gate.Store.RealTokens.{
  increment_real_token_failure, get_real_token, set_real_token_active,
}

-- The row after IncrementRealTokenFailure.
abbrev pub counted : Engine → ℕ → RealRow → RealRow
counted e now r = record r {
  failure_count = r.failure_count + 1;
  last_failure_at = some (e.datetime now);
  updated_at = e.datetime now;
}

-- The row after SetRealTokenActive.
abbrev pub switched : Engine → ℕ → Bool → RealRow → RealRow
switched e now active r = record r {
  is_active = if active then 1 else 0;
  failure_count = if active then 0 else r.failure_count;
  updated_at = e.datetime now;
}

-- The row with the identifier, and the database with that row rewritten.
abbrev pub find_real : String → Db → Option RealRow
find_real id db = first (at (λ x. x.id) id) db.real_tokens

abbrev pub rewrite_real : String → (RealRow → RealRow) → Db → Db
rewrite_real id f db = record db { real_tokens = update (at (λ x. x.id) id) f db.real_tokens }

module _ (e : Engine) (io : Io) (c : IsCalm io) (id : String) (db : Db) where
  pub increment_lem :
      increment_real_token_failure e io id db ≡ (ok tt, rewrite_real id (counted e io.now) db)
  unfolding increment_real_token_failure
  increment_lem = ground (arith, c.live, c.quiet (statement 0))

  pub get_some :
      (r : RealRow)
      → find_real id db ≡ some r
      → get_real_token io id db ≡ (ok (scan_real_token r), db)
  unfolding get_real_token
  get_some r h = ground (arith, c.live, c.quiet (statement 0))

  pub get_none : find_real id db ≡ none → get_real_token io id db ≡ (err no_rows, db)
  unfolding get_real_token
  get_none h = ground (arith, c.live, c.quiet (statement 0))

  pub set_active_some :
      (active : Bool) (r : RealRow)
      → find_real id db ≡ some r
      → set_real_token_active e io id active db
        ≡ (ok tt, rewrite_real id (switched e io.now active) db)
  unfolding set_real_token_active
  set_active_some true r h = ground (
    arith,
    c.live,
    c.quiet (statement 0),
    c.quiet rows_affected,
    count-some (at (λ x. x.id) id) db.real_tokens r,
  )
  set_active_some false r h = ground (
    arith,
    c.live,
    c.quiet (statement 0),
    c.quiet rows_affected,
    count-some (at (λ x. x.id) id) db.real_tokens r,
  )
