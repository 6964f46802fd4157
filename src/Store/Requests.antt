-- ===== src/Store/Requests.antt =====
-- Every operation of internal/store that changes the database, as a request with the conditions
-- under which it runs, and histories of requests.
use claude_gate.Prelude.{ℕ, String, Bool, List, [], ◌∷◌}
use claude_gate.Store.Rows.{Db, UsageLog}
use claude_gate.Store.Engine.{Engine, Io}
use claude_gate.Store.RealTokens.{
  create_real_token, update_real_token, set_real_token_active, increment_real_token_failure,
  update_real_token_usage,
}
use claude_gate.Store.GateTokens.{
  create_gate_token, update_gate_token, set_gate_token_active, update_gate_token_usage,
}
use claude_gate.Store.Sticky.{
  upsert_sticky_session, delete_expired_sticky_sessions, delete_sticky_session,
}
use claude_gate.Store.Usage.{insert_usage_log, insert_usage_logs}
use claude_gate.Store.Cascade.{delete_real_token, delete_gate_token}
use claude_gate.Store.WellFormed.{IsWellFormed}
use claude_gate.Store.Integrity.Tokens.{
  create_real_token-Keeps, update_real_token-Keeps, set_real_token_active-Keeps,
  increment_real_token_failure-Keeps, update_real_token_usage-Keeps, create_gate_token-Keeps,
  update_gate_token-Keeps, set_gate_token_active-Keeps, update_gate_token_usage-Keeps,
}
use claude_gate.Store.Integrity.Sessions.{
  upsert_sticky_session-Keeps, delete_expired_sticky_sessions-Keeps, delete_sticky_session-Keeps,
  insert_usage_log-Keeps, insert_usage_logs-Keeps,
}
use claude_gate.Store.Integrity.Cascade.{delete_real_token-Keeps, delete_gate_token-Keeps}

pub data Request : Type 0 where
  creates_real : String → String → String → String → Request
  renames_real : String → String → Request
  switches_real : String → Bool → Request
  deletes_real : String → Request
  counts_failure : String → Request
  adds_real_usage : String → ℕ → ℕ → Request
  creates_gate : String → String → String → String → Request
  renames_gate : String → String → Request
  switches_gate : String → Bool → Request
  deletes_gate : String → Request
  adds_gate_usage : String → ℕ → ℕ → Request
  binds_sticky : String → String → ℕ → Request
  purges_sticky : Request
  unbinds_sticky : String → Request
  logs_usage : UsageLog → Request
  logs_batch : List UsageLog → Request

-- The database after a request, whatever it returned.
unfoldable pub serve : Engine → Io → Request → Db → Db
serve e io (creates_real id name access refresh) db =
    (create_real_token e io id name access refresh db).1
serve e io (renames_real id name) db = (update_real_token e io id name db).1
serve e io (switches_real id active) db = (set_real_token_active e io id active db).1
serve e io (deletes_real id) db = (delete_real_token io id db).1
serve e io (counts_failure id) db = (increment_real_token_failure e io id db).1
serve e io (adds_real_usage id input output) db =
    (update_real_token_usage e io id input output db).1
serve e io (creates_gate id generated name custom) db =
    (create_gate_token e io id generated name custom db).1
serve e io (renames_gate id name) db = (update_gate_token e io id name db).1
serve e io (switches_gate id active) db = (set_gate_token_active e io id active db).1
serve e io (deletes_gate id) db = (delete_gate_token io id db).1
serve e io (adds_gate_usage id input output) db =
    (update_gate_token_usage e io id input output db).1
serve e io (binds_sticky gate real expires_at) db =
    (upsert_sticky_session e io gate real expires_at db).1
serve e io purges_sticky db = (delete_expired_sticky_sessions e io db).1
serve e io (unbinds_sticky gate) db = (delete_sticky_session io gate db).1
serve e io (logs_usage log) db = (insert_usage_log e io log db).1
serve e io (logs_batch logs) db = (insert_usage_logs e io logs db).1

unfoldable pub serve_all : Engine → List (Io × Request) → Db → Db
unfolding serve
serve_all e [] db = db
serve_all e ((io, r) ∷ rs) db = serve_all e rs (serve e io r db)

pub serve-IsWellFormed :
    (e : Engine) (io : Io) (r : Request) (db : Db)
    → IsWellFormed db
    → IsWellFormed (serve e io r db)
unfolding serve
serve-IsWellFormed e io (creates_real id name access refresh) =
    (create_real_token-Keeps e io id name access refresh).after
serve-IsWellFormed e io (renames_real id name) = (update_real_token-Keeps e io id name).after
serve-IsWellFormed e io (switches_real id active) =
    (set_real_token_active-Keeps e io id active).after
serve-IsWellFormed e io (deletes_real id) = (delete_real_token-Keeps io id).after
serve-IsWellFormed e io (counts_failure id) = (increment_real_token_failure-Keeps e io id).after
serve-IsWellFormed e io (adds_real_usage id input output) =
    (update_real_token_usage-Keeps e io id input output).after
serve-IsWellFormed e io (creates_gate id generated name custom) =
    (create_gate_token-Keeps e io id generated name custom).after
serve-IsWellFormed e io (renames_gate id name) = (update_gate_token-Keeps e io id name).after
serve-IsWellFormed e io (switches_gate id active) =
    (set_gate_token_active-Keeps e io id active).after
serve-IsWellFormed e io (deletes_gate id) = (delete_gate_token-Keeps io id).after
serve-IsWellFormed e io (adds_gate_usage id input output) =
    (update_gate_token_usage-Keeps e io id input output).after
serve-IsWellFormed e io (binds_sticky gate real expires_at) =
    (upsert_sticky_session-Keeps e io gate real expires_at).after
serve-IsWellFormed e io purges_sticky = (delete_expired_sticky_sessions-Keeps e io).after
serve-IsWellFormed e io (unbinds_sticky gate) = (delete_sticky_session-Keeps e io gate).after
serve-IsWellFormed e io (logs_usage log) = (insert_usage_log-Keeps e io log).after
serve-IsWellFormed e io (logs_batch logs) = (insert_usage_logs-Keeps e io logs).after

-- From a database whose keys are unique and whose sticky sessions and usage logs refer to tokens
-- that are there, any sequence of operations of the store, each under any clock, any engine errors
-- and a context that is done or not, leads to such a database.
pub serve_all-IsWellFormed :
    (e : Engine) (rs : List (Io × Request)) (db : Db)
    → IsWellFormed db
    → IsWellFormed (serve_all e rs db)
unfolding serve_all
serve_all-IsWellFormed e [] db w = w
serve_all-IsWellFormed e ((io, r) ∷ rs) db w =
    serve_all-IsWellFormed e rs (serve e io r db) (serve-IsWellFormed e io r db w)
