-- ===== src/Token/Manager/Retired.antt =====
-- RecordFailure and the refresh timer of internal/token/manager.go together: the pool afterwards.
use claude_gate.Prelude.{◌+◌, ◌≤◌, String, ◌≡◌, refl, true, false, none, some, arith, le_ℤ, ap}
use claude_gate.Store.Table.{exists, update, at}
use claude_gate.Store.Rows.{RealRow}
use claude_gate.Store.Engine.{Engine, Io, IsCalm, IsSql}
use claude_gate.Store.Calm.{counted, find_real}
use claude_gate.Token.Pool.{get_by_id}
use claude_gate.Token.Manager.{Manager, fire_refresh, record_failure, pool_refresh_debounce}
use claude_gate.Token.Manager.Failures.{failed_store, record_failure_run}
use claude_gate.Token.Manager.Absent.{serves, serves-switched, fire_refresh-absent}

module _ {C : Type 0} (e : Engine) (inc get off io : Io) (m : Manager C) (id : String) where
  -- The manager after the failure.
  abbrev failed : RealRow → Manager C
  failed r = record m {
    sticky = record m.sticky { store = failed_store e inc get off id m r };
    refresh_at = some (off.now + pool_refresh_debounce);
  }

  failed-absent :
      (r : RealRow)
      → le_ℤ m.max_failures (r.failure_count + 1) ≡ true
      → exists (serves m.pool.max_failures id) (failed r).sticky.store.real_tokens ≡ false
  failed-absent r full = ground (
    arith,
    serves-switched m.pool.max_failures id e off.now
        (update (at (λ x. x.id) id) (counted e inc.now) m.sticky.store.real_tokens),
  )

  -- A failure that brings a token to the limit takes it out of the pool: when the timer that
  -- RecordFailure set has fired, 100ms later or after that, the pool has no token of that identifier.
  -- The three database calls of the failure and the one of the refresh must not fail.
  pub failed_not_pooled :
      (r : RealRow)
      → IsSql e
      → IsCalm inc
      → IsCalm get
      → IsCalm off
      → IsCalm io
      → find_real id m.sticky.store ≡ some r
      → le_ℤ m.max_failures (r.failure_count + 1) ≡ true
      → off.now + pool_refresh_debounce ≤ io.now
      → get_by_id (fire_refresh e io (record_failure e inc get off id m).1).pool id ≡ none
  failed_not_pooled r sql ci cg co c here full due =
      rw (ap (λ x. x.1) (record_failure_run e inc get off id m r ci cg co here)) (
        fire_refresh-absent e io (failed r) id (off.now + pool_refresh_debounce) sql c refl due
          (failed-absent r full))
