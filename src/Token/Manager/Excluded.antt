-- ===== src/Token/Manager/Excluded.antt =====
-- RecordFailure, the refresh timer and ResolveToken of internal/token/manager.go together.
use claude_gate.Prelude.{◌+◌, ◌≤◌, String, ◌≡◌, ◌≢◌, true, some, le_ℤ}
use claude_gate.Prelude.Result.{ok}
use claude_gate.Store.Rows.{RealRow, RealToken}
use claude_gate.Store.Engine.{Engine, Io, IsCalm, IsSql}
use claude_gate.Store.Calm.{find_real}
use claude_gate.Token.Cache.{CacheApi}
use claude_gate.Token.Sticky.{StickyManager}
use claude_gate.Token.Manager.{
  Manager, resolve_token, fire_refresh, record_failure, pool_refresh_debounce,
}
use claude_gate.Token.Manager.Retired.{failed_not_pooled}
use claude_gate.Token.Manager.Absent.{resolve_token-absent}

module _ {C : Type 0} (e : Engine) (k : CacheApi C) (inc get off io : Io) (m : Manager C)
    (id : String) where
  -- A failure that brings a token to the limit takes it out of service: when the timer that
  -- RecordFailure set has fired, 100ms later or after that, no gate token is resolved to the token
  -- of that identifier, not even one that is bound to it. Whatever the sticky manager's cache and
  -- database are by then, and whatever the database answers to the calls of ResolveToken; only the
  -- four database calls of the failure and the refresh must not fail.
  pub failed_not_resolved :
      (r : RealRow) (look bind : Io) (gate : String) (s : StickyManager C) (t : RealToken)
      → IsSql e
      → IsCalm inc
      → IsCalm get
      → IsCalm off
      → IsCalm io
      → find_real id m.sticky.store ≡ some r
      → le_ℤ m.max_failures (r.failure_count + 1) ≡ true
      → off.now + pool_refresh_debounce ≤ io.now
      → (resolve_token e k look bind gate
          (record (fire_refresh e io (record_failure e inc get off id m).1) { sticky = s })).0
        ≡ ok t
      → t.id ≢ id
  failed_not_resolved r look bind gate s t sql ci cg co c here full due resolved =
      let after = fire_refresh e io (record_failure e inc get off id m).1 in
      let gone = failed_not_pooled e inc get off io m id r sql ci cg co c here full due in
      resolve_token-absent e k look bind gate (record after { sticky = s }) id t gone resolved
