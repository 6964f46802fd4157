-- ===== src/Console/Affinity.antt =====
-- A sticky binding of internal/token under everything else that works on the token manager.
use claude_gate.Prelude.{
  add_time, ℕ, List, ◌<◌, ◌+◌, String, ◌≡◌, refl, ap, ◌∙◌, true, some, arith, pos, inl, inr,
}
use claude_gate.Prelude.Result.{ok, Result-cases}
use claude_gate.Store.Rows.{RealToken, UsageLog}
use claude_gate.Store.Sticky.{upsert_sticky_session}
use claude_gate.Store.Engine.{Engine, Io}
use claude_gate.Token.Cache.{CacheApi, IsLasting}
use claude_gate.Token.Pool.{get_by_id}
use claude_gate.Token.Sticky
use claude_gate.Token.Sticky.{StickyManager, cleanup_tick}
use claude_gate.Token.Manager.{
  Manager, on_store, assign_tokens, resolve_token, record_failure, fire_refresh,
}
use claude_gate.Store.RealTokens.{update_real_token_usage}
use claude_gate.Store.GateTokens.{update_gate_token_usage}
use claude_gate.Store.Usage.{insert_usage_logs}
use claude_gate.Token.Manager.Lasting.{IsBound, resolve_token-IsBound, resolve_token-bound}
use claude_gate.Admin.Http.{Codecs, AdminRequest}
use claude_gate.Admin.Creation.{Draws}
use claude_gate.Admin.Routes.{Route, handle}
use claude_gate.Console.{on_pool_changed}
use claude_gate.Console.Untouched.{handle-cache, record_failure-cache, fire_refresh-cache}

-- One thing that happens to the token manager and its database, any call of which may fail: a request
-- to the admin API, the resolution of a request's gate token, the count of a failure, the writer's
-- totals and logs, a tick of the cleanup, the refresh timer's function, and the two steps in which it
-- runs beside the others: the pool's list is replaced by one that was read before.
pub data Event : Type 0 where
  administers : Io → Draws → Route → AdminRequest → Event
  resolves : Io → Io → String → Event
  fails : Io → Io → Io → String → Event
  real_totals gate_totals : Io → String → ℕ → ℕ → Event
  logs : Io → List UsageLog → Event
  cleans fires : Io → Event
  assigns : List RealToken → Event

abbrev pub happen : {C : Type 0} → Codecs → Engine → CacheApi C → Event → Manager C → Manager C
happen c e k (administers io d route r) m = (handle c (on_pool_changed io.now) e io d route r m).1
happen c e k (resolves look bind wanted) m = (resolve_token e k look bind wanted m).1
happen c e k (fails inc get off id) m = (record_failure e inc get off id m).1
happen c e k (real_totals io id input output) m =
    (on_store (update_real_token_usage e io id input output) m).1
happen c e k (gate_totals io id input output) m =
    (on_store (update_gate_token_usage e io id input output) m).1
happen c e k (logs io ls) m = (on_store (insert_usage_logs e io ls) m).1
happen c e k (cleans io) m = record m { sticky = cleanup_tick e k io m.sticky }
happen c e k (fires io) m = fire_refresh e io m
happen c e k (assigns ts) m = assign_tokens ts m

module _ {C : Type 0} (c : Codecs) (e : Engine) (k : CacheApi C) (laws : IsLasting k)
    (gate real : String) (until : ℕ) where
  -- A resolution, of whatever gate token, looks at the cache before the instant, while the pool lists
  -- the real token.
  abbrev InTime : Event → Manager C → Type 0
  InTime (resolves look bind wanted) m =
      (look.now < until) × ((t : RealToken) × (get_by_id m.pool real ≡ some t))
  InTime _ m = Unit

  -- A history in which each resolution is in time.
  pub data Spell (m : Manager C) : Manager C → Type 0 where
    begun : Spell m m
    and_then :
        {m' : Manager C} → Spell m m' → (ev : Event) → InTime ev m' → Spell m (happen c e k ev m')

  abbrev Bound : Manager C → Type 0
  Bound m = IsBound e k laws gate real until m.sticky

  carried :
      (x y : C) → y ≡ x → laws.lasts x gate real until ≡ true → laws.lasts y gate real until ≡ true
  carried x y same h = ap (λ c. laws.lasts c gate real until) same ∙ h

  happen-Bound : (ev : Event) (m : Manager C) → InTime ev m → Bound m → Bound (happen c e k ev m)
  unfolding cleanup_tick
  happen-Bound (administers io d route r) m early h =
      carried m.sticky.cache _ (handle-cache c e io d r route m) h
  happen-Bound (resolves look bind wanted) m (early, (t, here)) h =
      resolve_token-IsBound e k laws gate real until look bind wanted t m early here h
  happen-Bound (fails inc get off id) m early h =
      carried m.sticky.cache _ ((record_failure-cache e m.sticky.cache inc get off id).after m refl)
        h
  happen-Bound (real_totals io id input output) m early h = h
  happen-Bound (gate_totals io id input output) m early h = h
  happen-Bound (logs io ls) m early h = h
  happen-Bound (cleans io) m early h = h
  happen-Bound (fires io) m early h = carried m.sticky.cache _ (fire_refresh-cache e io m) h
  happen-Bound (assigns ts) m early h = h

  Spell-Bound : {m m' : Manager C} → Spell m m' → Bound m → Bound m'
  Spell-Bound begun h = h
  Spell-Bound (and_then {m'} past ev early) h = happen-Bound ev m' early (Spell-Bound past h)

module _ {C : Type 0} (c : Codecs) (e : Engine) (k : CacheApi C) (laws : IsLasting k) where
  bind-IsBound :
      (bind : Io) (gate real : String) (ttl : ℕ) (s : StickyManager C)
      → (Sticky.bind e k bind gate real (pos ttl) s).0 ≡ ok tt
      → IsBound e k laws gate real (bind.now + ttl) (Sticky.bind e k bind gate real (pos ttl) s).1
  unfolding Sticky.bind add_time
  bind-IsBound bind gate real ttl s done =
      let kept = laws.lasts-set s.cache gate real ttl bind.now (bind.now + ttl) (omega arith) in
      elim (Result-cases (upsert_sticky_session e bind gate real (bind.now + ttl) s.store).0) [
        | inl (u, written) ↦ simp written kept
        | inr (x, failed) ↦ absurd (ground arith)
      ]

  -- A binding lasts: after a Bind that succeeded, and until its time to live has passed, ResolveToken
  -- returns the token that the pool lists under the bound identifier, without a round robin, whatever
  -- has happened since and whichever calls of it failed: admin requests, failures, refreshes of the
  -- pool, the writer's logs and totals, cleanups of the database, and resolutions of this and of other
  -- gate tokens, in any order. Each resolution came before the binding's expiry, while the pool listed
  -- the token, and the cache keeps its documented laws.
  pub resolve_token-lasting :
      (bind look again : Io) (gate : String) (real : String) (ttl : ℕ) (t : RealToken)
      (m m' : Manager C)
      → (Sticky.bind e k bind gate real (pos ttl) m.sticky).0 ≡ ok tt
      → Spell c e k laws gate real
          (bind.now + ttl)
          (record m { sticky = (Sticky.bind e k bind gate real (pos ttl) m.sticky).1 })
          m'
      → look.now < bind.now + ttl
      → get_by_id m'.pool real ≡ some t
      → ((resolve_token e k look again gate m').0 ≡ ok t)
        × ((resolve_token e k look again gate m').1.pool ≡ m'.pool)
  resolve_token-lasting bind look again gate real ttl t m m' done past early here =
      resolve_token-bound e k laws gate real (bind.now + ttl) look again t m' early here (
        Spell-Bound c e k laws gate real (bind.now + ttl) past
          (bind-IsBound bind gate real ttl m.sticky done))
