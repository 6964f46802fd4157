-- ===== src/Store/Cascade.antt =====
-- cascadeDelete of internal/store/store.go, and the two deletions that run it in a transaction.
use Prim.Native.String
use claude_gate.Prelude.{ℕ, String, Bool, ◌||◌, ◌&&◌, eqb, ltb, if◌then◌else◌}
use claude_gate.Prelude.Result.{ok, err, foreign_key, no_rows, attempt}
use claude_gate.Prelude.Exec.{Exec, pure, raise, lift, wrapping, modify, ◌>>=◌, ◌>>◌}
use claude_gate.Store.Table.{exists, delete, count, at}
use claude_gate.Store.Rows.{Db, StickyRow, UsageLog}
use claude_gate.Store.Engine.{Io, statement, rows_affected, call}
use claude_gate.Store.Statements.{with_tx}

-- The column that refers to the deleted table, and the table: real_token_id and real_tokens, or
-- gate_token_id and gate_tokens.
pub data TokenKind : Type 0 where
  real gate : TokenKind

abbrev pub sticky_column : TokenKind → StickyRow → String
sticky_column real s = s.real_token_id
sticky_column gate s = s.gate_token_id

abbrev pub log_column : TokenKind → UsageLog → String
log_column real l = l.real_token_id
log_column gate l = l.gate_token_id

abbrev pub token_count : TokenKind → String → Db → ℕ
token_count real id db = count (at (λ x. x.id) id) db.real_tokens
token_count gate id db = count (at (λ x. x.id) id) db.gate_tokens

abbrev pub without_token : TokenKind → String → Db → Db
without_token real id db = record db { real_tokens = delete (at (λ x. x.id) id) db.real_tokens }
without_token gate id db = record db { gate_tokens = delete (at (λ x. x.id) id) db.gate_tokens }

-- "delete " + table + what failed.
abbrev pub delete_text : TokenKind → String → String
delete_text real text = String.◌++◌ "delete real_tokens" text
delete_text gate text = String.◌++◌ "delete gate_tokens" text

-- Some row still refers to the token.
abbrev pub is_referenced : TokenKind → String → Db → Bool
is_referenced kind id db =
    exists (at (sticky_column kind) id) db.sticky_sessions
    || exists (at (log_column kind) id) db.usage_logs

-- DELETE FROM table WHERE id = ?, which SQLite refuses while a row refers to the deleted one.
unfoldable pub delete_token_row : TokenKind → String → Exec Db ℕ
delete_token_row kind id db =
    if is_referenced kind id db && ltb 0 (token_count kind id db)
    then (err foreign_key, db)
    else (ok (token_count kind id db), without_token kind id db)

unfoldable pub cascade_delete : Io → TokenKind → String → Exec Db (Unit {0})
unfolding delete_token_row
cascade_delete io kind id = do
  wrapping (delete_text kind ": delete sticky sessions") (lift (call io (statement 0)))
  modify
      (λ db. record db { sticky_sessions = delete (at (sticky_column kind) id) db.sticky_sessions })
  wrapping (delete_text kind ": delete usage logs") (lift (call io (statement 1)))
  modify (λ db. record db { usage_logs = delete (at (log_column kind) id) db.usage_logs })
  n ← wrapping (delete_text kind "") (do lift (call io (statement 2)); delete_token_row kind id)
  wrapping (delete_text kind ": rows affected") (lift (attempt (io.fault rows_affected)))
  if eqb n 0 then raise no_rows else pure tt

unfoldable pub delete_real_token : Io → String → Exec Db (Unit {0})
unfolding with_tx cascade_delete
delete_real_token io id = with_tx io (cascade_delete io real id)

unfoldable pub delete_gate_token : Io → String → Exec Db (Unit {0})
unfolding with_tx cascade_delete
delete_gate_token io id = with_tx io (cascade_delete io gate id)
