-- ===== src/Token/Manager/Lasting.antt =====
-- ResolveToken of internal/token/manager.go while the cache holds on to a binding.
use claude_gate.Prelude.{
  ℕ, ◌<◌, String, ◌≡◌, ◌≢◌, refl, true, false, ℤ, add_time, Option, none, some, Option-cases, inl,
  inr, pos, ltb, Bool-cases, ◌-◌,
}
use claude_gate.Prelude.Result.{Result, ok, err, Result-cases}
use claude_gate.Store.Rows.{RealToken, StickySession}
use claude_gate.Store.Engine.{Engine, Io}
use claude_gate.Store.Sticky.{get_sticky_session, upsert_sticky_session}
use claude_gate.Token.Cache.{CacheApi, IsLasting}
use claude_gate.Token.Pool.{get_by_id, select_token}
use claude_gate.Token.Sticky
use claude_gate.Token.Sticky.{StickyManager, from_store}
use claude_gate.Token.Manager.{Manager, resolve_token, resolve_round_robin, or_round_robin, cached}

module _ {C : Type 0} (e : Engine) (k : CacheApi C) (laws : IsLasting k) (gate real : String)
    (until : ℕ) where
  -- The gate token is bound to the real token until then.
  abbrev pub IsBound : StickyManager C → Type 0
  IsBound s = laws.lasts s.cache gate real until ≡ true

  pub resolve-hit :
      (look : Io) (s : StickyManager C)
      → look.now < until
      → IsBound s
      → (Sticky.resolve e k look gate s).0 ≡ some real
  unfolding Sticky.resolve
  resolve-hit look s early h = rw (laws.get-lasts s.cache gate real look.now until early h) refl

  from_store-IsBound :
      (now : ℕ) (wanted : String) (found : Result (Option StickySession)) (s : StickyManager C)
      → wanted ≢ gate
      → IsBound s
      → IsBound (from_store e k now wanted found s).1
  from_store-IsBound now wanted (err x) s ne h = h
  from_store-IsBound now wanted (ok none) s ne h = h
  from_store-IsBound now wanted (ok (some ss)) s ne h =
      let kept =
        laws.lasts-set_ne s.cache gate real wanted ss.real_token_id (pos (ss.expires_at - now)) now
          until ne h in
      elim (Bool-cases (ltb now ss.expires_at)) [
        | inl left ↦ simp left kept
        | inr over ↦ simp over h
      ]

  resolve-IsBound :
      (look : Io) (wanted : String) (s : StickyManager C)
      → look.now < until
      → IsBound s
      → IsBound (Sticky.resolve e k look wanted s).1
  unfolding Sticky.resolve
  resolve-IsBound look wanted s early h =
      let got = laws.lasts-get s.cache gate real wanted look.now until early h in
      elim (Option-cases (k.get wanted look.now s.cache).0) [
        | inr (v, hit) ↦ simp hit got
        | inl miss ↦
            let ne : wanted ≢ gate =
              λ same. cc (laws.get-lasts s.cache gate real look.now until early h) in
            let asked = get_sticky_session e look wanted s.store in
            simp miss (
              from_store-IsBound look.now wanted asked.0
                (record { store = asked.1; cache = (k.get wanted look.now s.cache).1 }) ne got)
      ]

  bind-IsBound :
      (io : Io) (wanted held : String) (ttl : ℤ) (s : StickyManager C)
      → wanted ≢ gate
      → IsBound s
      → IsBound (Sticky.bind e k io wanted held ttl s).1
  unfolding Sticky.bind
  bind-IsBound io wanted held ttl s ne h =
      let written = upsert_sticky_session e io wanted held (add_time io.now ttl) s.store in
      elim (Result-cases written.0) [
        | inl (u, done) ↦
            simp done (laws.lasts-set_ne s.cache gate real wanted held ttl io.now until ne h)
        | inr (x, failed) ↦ simp failed h
      ]

  round_robin-IsBound :
      (io : Io) (wanted : String) (m : Manager C)
      → wanted ≢ gate
      → IsBound m.sticky
      → IsBound (resolve_round_robin e k io wanted m).1.sticky
  unfolding resolve_round_robin
  round_robin-IsBound io wanted m ne h = elim (Result-cases (select_token (λ _. false) m.pool).0) [
    | inl (t, found) ↦ simp found (bind-IsBound io wanted t.id m.sticky_ttl m.sticky ne h)
    | inr (x, failed) ↦ simp failed h
  ]

  or_round_robin-IsBound :
      (io : Io) (wanted : String) (o : Option RealToken) (m : Manager C)
      → (o ≡ none → wanted ≢ gate)
      → IsBound m.sticky
      → IsBound (or_round_robin e k io wanted o m).1.sticky
  or_round_robin-IsBound io wanted (some t) m ne h = h
  or_round_robin-IsBound io wanted none m ne h = round_robin-IsBound io wanted m (ne refl) h

  -- While the pool has the token, no resolution of any gate token undoes the binding.
  pub resolve_token-IsBound :
      (look bind : Io) (wanted : String) (t : RealToken) (m : Manager C)
      → look.now < until
      → get_by_id m.pool real ≡ some t
      → IsBound m.sticky
      → IsBound (resolve_token e k look bind wanted m).1.sticky
  unfolding resolve_token
  resolve_token-IsBound look bind wanted t m early here h =
      let hit = resolve-hit look m.sticky early h in
      let answer = Sticky.resolve e k look wanted m.sticky in
      or_round_robin-IsBound bind wanted (cached m.pool answer.0) (record m { sticky = answer.1 })
        (λ gone same. cc) (resolve-IsBound look wanted m.sticky early h)

  -- The bound token is the one that ResolveToken returns, without a round robin.
  pub resolve_token-bound :
      (look bind : Io) (t : RealToken) (m : Manager C)
      → look.now < until
      → get_by_id m.pool real ≡ some t
      → IsBound m.sticky
      → ((resolve_token e k look bind gate m).0 ≡ ok t)
        × ((resolve_token e k look bind gate m).1.pool ≡ m.pool)
  unfolding resolve_token
  resolve_token-bound look bind t m early here h =
      let hit = resolve-hit look m.sticky early h in (simp (hit, here) refl, simp (hit, here) refl)
