-- ===== src/Token/Manager/Resolve.antt =====
-- ResolveToken of internal/token/manager.go: the token that it returns.
use claude_gate.Prelude.{
  ◌+◌, ◌<◌, String, ◌≡◌, refl, false, Option, none, some, arith, length, get_elem?, get_elem?-some,
  ◌≤◌,
}
use claude_gate.Prelude.Result.{ok}
use claude_gate.Store.Table.{first-holds, at}
use claude_gate.Store.Rows.{RealToken}
use claude_gate.Store.Engine.{Engine, Io}
use claude_gate.Token.Cache.{CacheApi}
use claude_gate.Token.Pool.{TokenPool, u64_mod, get_by_id}
use claude_gate.Token.Pool.Select.{Holds, select_token_sound, select_token_complete}
use claude_gate.Token.Sticky
use claude_gate.Token.Manager.{Manager, resolve_token, resolve_round_robin, cached, or_round_robin}

module _ {C : Type 0} (e : Engine) (k : CacheApi C) where
  cached-Holds :
      (p : TokenPool) (real : Option String) (t : RealToken)
      → cached p real ≡ some t
      → Holds p.tokens t
  unfolding get_by_id
  cached-Holds p none t h = ground arith
  cached-Holds p (some real) t h =
      let (i, here, _) = first-holds (at (λ x. x.id) real) p.tokens t h in (i, here)

  or_round_robin-Holds :
      (bind : Io) (gate : String) (found : Option RealToken) (m : Manager C) (t : RealToken)
      → ((u : RealToken) → found ≡ some u → Holds m.pool.tokens u)
      → (or_round_robin e k bind gate found m).0 ≡ ok t
      → Holds m.pool.tokens t
        × ((or_round_robin e k bind gate found m).1.pool.tokens ≡ m.pool.tokens)
  unfolding resolve_round_robin
  or_round_robin-Holds bind gate (some u) m t from h = ground (arith, from t)
  or_round_robin-Holds bind gate none m t from h =
      ground (arith, select_token_sound (λ _. false) m.pool t)

  -- ResolveToken returns only a token that stands in the pool's cached list, whichever way it found
  -- it and whatever the cache, the clock and the database answered, and leaves that list alone.
  pub resolve_token_sound :
      (look bind : Io) (gate : String) (m : Manager C) (t : RealToken)
      → (resolve_token e k look bind gate m).0 ≡ ok t
      → Holds m.pool.tokens t × ((resolve_token e k look bind gate m).1.pool.tokens ≡ m.pool.tokens)
  unfolding resolve_token
  resolve_token_sound look bind gate m t h =
      let (real, s) = Sticky.resolve e k look gate m.sticky in
      or_round_robin-Holds bind gate (cached m.pool real) (record m { sticky = s }) t
        (cached-Holds m.pool real) h

  or_round_robin-total :
      (bind : Io) (gate : String) (found : Option RealToken) (m : Manager C) (u : RealToken)
      → get_elem? m.pool.tokens 0 ≡ some u
      → m.pool.counter + length m.pool.tokens ≤ u64_mod
      → (t : RealToken) × ((or_round_robin e k bind gate found m).0 ≡ ok t)
  unfolding resolve_round_robin
  or_round_robin-total bind gate (some v) m u here room = (v, refl)
  or_round_robin-total bind gate none m u here room =
      let (t, found) = select_token_complete (λ _. false) m.pool 0 u here refl room in
      (t, ground (arith, found))

  -- While the pool is not empty and its counter does not wrap within one round, ResolveToken returns
  -- a token: no error of the cache or the database makes it fail.
  pub resolve_token-total :
      (look bind : Io) (gate : String) (m : Manager C)
      → 0 < length m.pool.tokens
      → m.pool.counter + length m.pool.tokens ≤ u64_mod
      → (t : RealToken) × ((resolve_token e k look bind gate m).0 ≡ ok t)
  unfolding resolve_token
  resolve_token-total look bind gate m h room =
      let (real, s) = Sticky.resolve e k look gate m.sticky in
      let (u, here) = get_elem?-some m.pool.tokens 0 h in
      or_round_robin-total bind gate (cached m.pool real) (record m { sticky = s }) u here room
