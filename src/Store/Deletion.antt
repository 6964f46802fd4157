-- ===== src/Store/Deletion.antt =====
-- DeleteRealToken and DeleteGateToken of internal/store: the database after a deletion.
use claude_gate.Prelude.{String, ◌≡◌, arith, eqb, if◌then◌else◌}
use claude_gate.Prelude.Result.{Error, Result, ok, err, no_rows}
use claude_gate.Store.Table.{delete, at, delete_none}
use claude_gate.Store.Rows.{Db}
use claude_gate.Store.Engine.{Io, IsCalm, begin_tx, commit_tx, rows_affected, statement}
use claude_gate.Store.Statements.{in_tx, with_tx}
use claude_gate.Store.Cascade.{
  TokenKind, real, gate, sticky_column, log_column, token_count, without_token, delete_token_row,
  cascade_delete, delete_real_token, delete_gate_token,
}

-- The token of the kind, its sticky sessions and its usage logs are gone, and all else stays.
unfoldable pub purged : TokenKind → String → Db → Db
purged kind id db = without_token kind id (record db {
  sticky_sessions = delete (at (sticky_column kind) id) db.sticky_sessions;
  usage_logs = delete (at (log_column kind) id) db.usage_logs;
})

cascade_delete_lem :
    (io : Io) (kind : TokenKind) (id : String) (db : Db)
    → IsCalm io
    → cascade_delete io kind id db ≡ (
        if eqb (token_count kind id db) 0
        then (err no_rows, purged kind id db)
        else (ok tt, purged kind id db))
unfolding cascade_delete delete_token_row purged
cascade_delete_lem io real id db c = ground (
  arith,
  c.live,
  c.quiet (statement 0),
  c.quiet (statement 1),
  c.quiet (statement 2),
  c.quiet rows_affected,
  delete_none (at (sticky_column real) id) db.sticky_sessions,
  delete_none (at (log_column real) id) db.usage_logs,
)
cascade_delete_lem io gate id db c = ground (
  arith,
  c.live,
  c.quiet (statement 0),
  c.quiet (statement 1),
  c.quiet (statement 2),
  c.quiet rows_affected,
  delete_none (at (sticky_column gate) id) db.sticky_sessions,
  delete_none (at (log_column gate) id) db.usage_logs,
)

-- Without an engine error, the deletion of a token that is there takes the token, its sticky
-- sessions and its usage logs out of the database and nothing else, and succeeds: no foreign key
-- stops it. If no row has the identifier, the result is sql.ErrNoRows and nothing changes. Both hold
-- of real tokens and of gate tokens.
pub delete_token_exact :
    (io : Io) (id : String) (db : Db)
    → IsCalm io
    → (delete_real_token io id db ≡ (
        if eqb (token_count real id db) 0 then (err no_rows, db) else (ok tt, purged real id db)))
      × (delete_gate_token io id db ≡ (
          if eqb (token_count gate id db) 0 then (err no_rows, db) else (ok tt, purged gate id db)))
unfolding delete_real_token delete_gate_token with_tx in_tx
delete_token_exact io id db c = (
  ground (arith, c.live, c.quiet begin_tx, c.quiet commit_tx, cascade_delete_lem io real id db c),
  ground (arith, c.live, c.quiet begin_tx, c.quiet commit_tx, cascade_delete_lem io gate id db c),
)

with_tx-err :
    (io : Io) (fn : Db → Result (Unit {0}) × Db) (db : Db) (e : Error)
    → (with_tx io fn db).0 ≡ err e
    → (with_tx io fn db).1 ≡ db
unfolding with_tx in_tx
with_tx-err io fn db e h = ground arith

-- A deletion that ends with an error, be it of the engine, of the context, of a foreign key or a
-- missing row, leaves the database as it was: real tokens and gate tokens alike.
pub delete_token_atomic :
    (io : Io) (id : String) (db : Db) (e : Error)
    → ((delete_real_token io id db).0 ≡ err e → (delete_real_token io id db).1 ≡ db)
      × ((delete_gate_token io id db).0 ≡ err e → (delete_gate_token io id db).1 ≡ db)
unfolding delete_real_token delete_gate_token
delete_token_atomic io id db e = (
  with_tx-err io (cascade_delete io real id) db e,
  with_tx-err io (cascade_delete io gate id) db e,
)
