-- ===== src/Store/Statements.antt =====
-- The shapes that the operations of internal/store share: an UPDATE or DELETE that must affect a
-- row, a transaction (withTx of store.go), and boolToInt.
use claude_gate.Prelude.{ℕ, String, Bool, true, false, eqb, if◌then◌else◌}
use claude_gate.Prelude.Result.{Result, ok, err, no_rows, attempt}
use claude_gate.Prelude.Exec.{Exec, pure, raise, lift, wrapping, ◌>>=◌, ◌>>◌}
use claude_gate.Store.Rows.{Db}
use claude_gate.Store.Engine.{Io, begin_tx, commit_tx, rows_affected, statement, call}

-- ExecContext, RowsAffected, and sql.ErrNoRows if no row was affected.
unfoldable pub affecting : Io → String → String → Exec Db ℕ → Exec Db (Unit {0})
affecting io text rows_text exec = do
  n ← wrapping text (do lift (call io (statement 0)); exec)
  wrapping rows_text (lift (attempt (io.fault rows_affected)))
  if eqb n 0 then raise no_rows else pure tt

-- A transaction that failed leaves the database as it was.
-- `commit` is how Commit ends.
abbrev pub committed_by {ℓ κ} :
    {A : Type ℓ} {S : Type κ} → Result (Unit {0}) → S → Result A × S → Result A × S
committed_by commit before (err e, db) = (err e, before)
committed_by (ok _) before (ok a, db) = (ok a, db)
committed_by (err e) before (ok a, db) = (err e, before)

-- What follows BeginTx: the statements, and Rollback or Commit.
unfoldable pub in_tx {ℓ} : {A : Type ℓ} → Io → Exec Db A → Exec Db A
in_tx io fn db = committed_by (call io commit_tx) db (fn db)

unfoldable pub with_tx {ℓ} : {A : Type ℓ} → Io → Exec Db A → Exec Db A
unfolding in_tx
with_tx io fn = do lift (call io begin_tx); in_tx io fn

unfoldable pub bool_to_int : Bool → ℕ
bool_to_int true = 1
bool_to_int false = 0
