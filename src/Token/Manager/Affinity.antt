-- ===== src/Token/Manager/Affinity.antt =====
-- Bind of internal/token/sticky.go and ResolveToken of manager.go one after the other, with the same
-- cache or a new one.
use claude_gate.Prelude.{
  ℕ, ◌+◌, ◌-◌, ◌≤◌, ◌<◌, String, ◌≡◌, true, none, some, arith, ℤ, pos, lt_ℤ, add_time,
}
use claude_gate.Prelude.Result.{ok}
use claude_gate.Store.Rows.{RealToken}
use claude_gate.Store.Engine.{Engine, Io, IsCalm, IsSql}
use claude_gate.Store.Sticky.{upsert_sticky_session}
use claude_gate.Store.Sessions.{get-upsert}
use claude_gate.Token.Cache.{CacheApi, IsCache}
use claude_gate.Token.Pool.{get_by_id}
use claude_gate.Token.Sticky
use claude_gate.Token.Sticky.{StickyManager}
use claude_gate.Token.Manager.{Manager, resolve_token}

module _ {C : Type 0} (e : Engine) (k : CacheApi C) where
  -- After a Bind that succeeded, ResolveToken returns the bound token while the time to live has not
  -- passed and the pool has the token. The pool, its counter included, stays as it is: no round robin.
  pub resolve_token-bind :
      (m : Manager C) (s : StickyManager C) (bind look again : Io) (gate : String) (t : RealToken)
      (ttl : ℤ)
      → IsCache k
      → Sticky.bind e k bind gate t.id ttl m.sticky ≡ (ok tt, s)
      → bind.now ≤ look.now
      → lt_ℤ (look.now - bind.now) ttl ≡ true
      → get_by_id m.pool t.id ≡ some t
      → ((resolve_token e k look again gate (record m { sticky = s })).0 ≡ ok t)
        × ((resolve_token e k look again gate (record m { sticky = s })).1.pool ≡ m.pool)
  unfolding resolve_token Sticky.resolve Sticky.bind
  resolve_token-bind m s bind look again gate t ttl laws bound le within here =
      ground (arith, laws.get-set_self m.sticky.cache gate t.id ttl bind.now look.now le within)

module _ {C : Type 0} (e : Engine) (k : CacheApi C) where
  -- A binding outlives the cache: after a Bind that succeeded, with any cache that has no item for the
  -- gate token (as after a restart), ResolveToken reads the binding from the database and returns the
  -- bound token, while the time to live has not passed, the database answers and the pool has the
  -- token. The pool, its counter included, stays as it is.
  pub resolve_token-restart :
      (m : Manager C) (s : StickyManager C) (c : C) (bind look again : Io) (gate : String)
      (t : RealToken) (ttl : ℕ)
      → IsSql e
      → Sticky.bind e k bind gate t.id (pos ttl) m.sticky ≡ (ok tt, s)
      → (k.get gate look.now c).0 ≡ none
      → IsCalm look
      → look.now < bind.now + ttl
      → get_by_id m.pool t.id ≡ some t
      → let restarted = record m { sticky = record s { cache = c } } in
        ((resolve_token e k look again gate restarted).0 ≡ ok t)
        × ((resolve_token e k look again gate restarted).1.pool ≡ m.pool)
  unfolding resolve_token Sticky.resolve Sticky.bind add_time
  resolve_token-restart m s c bind look again gate t ttl sql bound empty calm within here =
      let written : upsert_sticky_session e bind gate t.id (bind.now + ttl) m.sticky.store
          ≡ (ok tt, s.store) =
        ground arith in
      ground (
        arith,
        get-upsert e bind look gate t.id (bind.now + ttl) m.sticky.store s.store sql calm written
            (omega arith),
      )
