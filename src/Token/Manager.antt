-- ===== src/Token/Manager.antt =====
-- internal/token/manager.go.
pub mod Resolve
pub mod Retired
pub mod Refresh
pub mod Failures
pub mod Affinity
pub mod Excluded
pub mod Absent
pub mod InSync
pub mod Lasting
use claude_gate.Prelude.{
  ℕ, ◌+◌, ◌-◌, String, Bool, true, false, Option, none, some, List, leb, ltb, ℤ, le_ℤ,
  if◌then◌else◌,
}
use claude_gate.Prelude.Result.{Result, ok, err}
use claude_gate.Prelude.Exec.{Exec, pure, lift, gets, modify, ◌>>=◌, ◌>>◌}
use claude_gate.Store.Rows.{Db, RealToken}
use claude_gate.Store.Engine.{Engine, Io}
use claude_gate.Store.RealTokens.{
  list_active_real_tokens, increment_real_token_failure, get_real_token, set_real_token_active,
}
use claude_gate.Token.Cache.{CacheApi}
use claude_gate.Token.Pool.{TokenPool, new_token_pool, select_token, get_by_id}
use claude_gate.Token.Sticky
use claude_gate.Token.Sticky.{StickyManager}

-- poolRefreshDebounce, 100ms in nanoseconds.
abbrev pub pool_refresh_debounce : ℕ
pool_refresh_debounce = 100000000

-- `refresh_at` is the instant at which refreshTimer is to fire, if it is running.
pub record Manager (C : Type 0) : Type 0 where
  pub pool : TokenPool
  pub sticky : StickyManager C
  pub sticky_ttl : ℤ
  pub max_failures : ℤ
  pub refresh_at : Option ℕ

abbrev pub is_due : ℕ → Option ℕ → Bool
is_due now none = false
is_due now (some t) = leb t now

-- The sticky answer counts if the pool still has the token.
abbrev pub cached : TokenPool → Option String → Option RealToken
cached p none = none
cached p (some real) = get_by_id p real

module _ {C : Type 0} where
  abbrev pub on_store : {A : Type 0} → Exec Db A → Exec (Manager C) A
  on_store m s =
      ((m s.sticky.store).0, record s { sticky = record s.sticky { store = (m s.sticky.store).1 } })

  abbrev pub on_pool : {A : Type 0} → Exec TokenPool A → Exec (Manager C) A
  on_pool m s = ((m s.pool).0, record s { pool = (m s.pool).1 })

  abbrev pub on_sticky : {A : Type 0} → Exec (StickyManager C) A → Exec (Manager C) A
  on_sticky m s = ((m s.sticky).0, record s { sticky = (m s.sticky).1 })

  unfoldable pub new_manager : Db → C → ℤ → ℤ → Manager C
  unfolding new_token_pool
  new_manager db cache max_failures sticky_ttl = record {
    pool = new_token_pool max_failures;
    sticky = record { store = db; cache = cache };
    sticky_ttl = sticky_ttl;
    max_failures = max_failures;
    refresh_at = none;
  }

  -- The end of TokenPool.Refresh, under the lock: the list that was read before becomes the pool's.
  abbrev pub assign_tokens : List RealToken → Manager C → Manager C
  assign_tokens tokens m = record m { pool = record m.pool { tokens = tokens } }

  -- TokenPool.Refresh on the manager's store, with nothing between the reading and the assignment.
  unfoldable pub refresh : Engine → Io → Exec (Manager C) (Unit {0})
  refresh e io s =
      (do
        tokens ← on_store (list_active_real_tokens e io s.pool.max_failures)
        modify (assign_tokens tokens))
        s

  -- Start, which then leaves the cleanup of the sticky sessions running: `cleanup_tick` is one of its
  -- ticks.
  unfoldable pub start : Engine → Io → Exec (Manager C) (Unit {0})
  unfolding refresh
  start = refresh

  -- RefreshPool at the instant `now`: a timer that is running is stopped and a new one is set.
  unfoldable pub refresh_pool : ℕ → Exec (Manager C) (Unit {0})
  refresh_pool now = modify (λ m. record m { refresh_at = some (now + pool_refresh_debounce) })

  -- The timer's function, when the timer is due. An error of Refresh is only logged.
  unfoldable pub fire_refresh : Engine → Io → Manager C → Manager C
  unfolding refresh
  fire_refresh e io m =
      if is_due io.now m.refresh_at then (refresh e io (record m { refresh_at = none })).1 else m

module _ {C : Type 0} (e : Engine) (k : CacheApi C) where
  -- Round-robin selection and the binding of a new session, whose error is dropped.
  unfoldable pub resolve_round_robin : Io → String → Exec (Manager C) RealToken
  resolve_round_robin io gate = do
    t ← on_pool (select_token (λ _. false))
    λ m. (ok t, record m { sticky = (Sticky.bind e k io gate t.id m.sticky_ttl m.sticky).1 })

  abbrev pub or_round_robin : Io → String → Option RealToken → Exec (Manager C) RealToken
  or_round_robin io gate (some t) = pure t
  or_round_robin io gate none = resolve_round_robin io gate

  -- `look` and `bind` are the conditions of the two database calls.
  unfoldable pub resolve_token : Io → Io → String → Exec (Manager C) RealToken
  resolve_token look bind gate m =
      let (real, s) = Sticky.resolve e k look gate m.sticky in
      or_round_robin bind gate (cached m.pool real) (record m { sticky = s })

module _ {C : Type 0} (e : Engine) where
  -- The token is switched off if its failures have reached the limit.
  abbrev pub deactivate_at_limit : Io → String → Bool → Exec (Manager C) (Unit {0})
  deactivate_at_limit off real true = on_store (set_real_token_active e off real false)
  deactivate_at_limit off real false = pure tt

  -- `inc`, `get` and `off` are the conditions of the three database calls.
  unfoldable pub record_failure : Io → Io → Io → String → Exec (Manager C) (Unit {0})
  unfolding refresh_pool
  record_failure inc get off real = do
    on_store (increment_real_token_failure e inc real)
    t ← on_store (get_real_token get real)
    max_failures ← gets (λ m. m.max_failures)
    deactivate_at_limit off real (le_ℤ max_failures t.failure_count)
    refresh_pool off.now
