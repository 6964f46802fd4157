-- ===== src/Store/Sticky.antt =====
-- internal/store/sticky.go.
use claude_gate.Prelude.{
  ℕ, String, Bool, not, Option, none, some, ◌∷◌, ◌&&◌, text_lt, if◌then◌else◌,
}
use claude_gate.Prelude.Result.{ok, err, foreign_key, engine, attempt}
use claude_gate.Prelude.Exec.{Exec, pure, raise, lift, gets, wrapping, modify, ◌>>=◌, ◌>>◌}
use claude_gate.Store.Table.{exists, first, update, delete, count, at}
use claude_gate.Store.Rows.{Db, StickyRow, StickySession}
use claude_gate.Store.Engine.{Engine, Io, statement, rows_affected, call}

-- `expires_at > datetime('now')`.
unfoldable pub is_live : Engine → ℕ → StickyRow → Bool
is_live e now s = text_lt (e.datetime now) s.expires_at

abbrev scan_sticky : Engine → StickyRow → Option ℕ → Exec Db (Option StickySession)
scan_sticky e s none = raise (engine "scan expires_at")
scan_sticky e s (some t) = pure (
    some
      (record { gate_token_id = s.gate_token_id; real_token_id = s.real_token_id; expires_at = t }))

abbrev one_sticky : Engine → Option StickyRow → Exec Db (Option StickySession)
one_sticky e none = pure none
one_sticky e (some s) = scan_sticky e s (e.read_time s.expires_at)

unfoldable pub get_sticky_session : Engine → Io → String → Exec Db (Option StickySession)
unfolding is_live
get_sticky_session e io gate_token_id = wrapping "get sticky session" (do
  lift (call io (statement 0))
  r ← gets (λ db.
      first (λ s. at (λ x. x.gate_token_id) gate_token_id s && is_live e io.now s)
        db.sticky_sessions)
  one_sticky e r)

-- A row refers to a gate token and to a real token that are there (REFERENCES).
abbrev pub has_parents : Db → String → String → Bool
has_parents db gate real =
    exists (at (λ x. x.id) gate) db.gate_tokens && exists (at (λ x. x.id) real) db.real_tokens

-- INSERT … ON CONFLICT(gate_token_id) DO UPDATE.
unfoldable pub upsert_sticky : StickyRow → Exec Db (Unit {0})
upsert_sticky row db =
    if not (has_parents db row.gate_token_id row.real_token_id)
    then (err foreign_key, db)
    else if exists (at (λ x. x.gate_token_id) row.gate_token_id) db.sticky_sessions
    then (
      ok tt,
      record db {
        sticky_sessions =
            update (at (λ x. x.gate_token_id) row.gate_token_id)
              (λ s. record s { real_token_id = row.real_token_id; expires_at = row.expires_at })
              db.sticky_sessions;
      },
    )
    else (ok tt, record db { sticky_sessions = row ∷ db.sticky_sessions })

unfoldable pub upsert_sticky_session : Engine → Io → String → String → ℕ → Exec Db (Unit {0})
unfolding upsert_sticky
upsert_sticky_session e io gate_token_id real_token_id expires_at =
    wrapping "upsert sticky session" (do
      lift (call io (statement 0))
      upsert_sticky (record {
        gate_token_id = gate_token_id;
        real_token_id = real_token_id;
        expires_at = e.bind_time expires_at;
      }))

-- The rows deleted are those with `expires_at <= datetime('now')`.
unfoldable pub delete_expired_sticky_sessions : Engine → Io → Exec Db ℕ
unfolding is_live
delete_expired_sticky_sessions e io = do
  wrapping "delete expired sticky sessions" (lift (call io (statement 0)))
  n ← gets (λ db. count (λ s. not (is_live e io.now s)) db.sticky_sessions)
  modify (λ db. record db {
    sticky_sessions = delete (λ s. not (is_live e io.now s)) db.sticky_sessions;
  })
  lift (attempt (io.fault rows_affected))
  pure n

unfoldable pub delete_sticky_session : Io → String → Exec Db (Unit {0})
delete_sticky_session io gate_token_id = do
  lift (call io (statement 0))
  modify (λ db. record db {
    sticky_sessions = delete (at (λ x. x.gate_token_id) gate_token_id) db.sticky_sessions;
  })
