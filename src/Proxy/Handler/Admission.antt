-- ===== src/Proxy/Handler/Admission.antt =====
-- Which requests reach the upstream.
use claude_gate.Prelude.{
  String, ◌≡◌, Bool, true, false, ◌&&◌, some, List, [], ◌∷◌, arith, eqb, ◌==◌, Bool-cases,
  Option-cases, inl, inr, ◌⊎◌,
}
use claude_gate.Prelude.Bytes.{cut_prefix}
use claude_gate.Prelude.Result.{Error, ok, err, no_rows, Result-cases}
use claude_gate.Store.Table.{exists, first, at}
use claude_gate.Store.Rows.{Db, GateRow, GateToken, RealToken, scan_gate_token}
use claude_gate.Store.Engine.{Engine, Io, call, statement}
use claude_gate.Store.GateTokens.{get_gate_token_by_token}
use claude_gate.Token.Cache.{CacheApi}
use claude_gate.Token.Manager.{Manager, resolve_token}
use claude_gate.Proxy.Tap.{Json}
use claude_gate.Proxy.Exchange.{ReverseProxy, Incoming, json_error}
use claude_gate.Proxy.Handler.{
  ProxyHandler, ServeIo, serve_http, with_bearer, unauthorized, hooks, outgoing,
}

-- An active gate token has the text.
abbrev pub is_admitted : String → GateRow → Bool
is_admitted text g = at (λ x. x.token) text g && eqb g.is_active 1

first-admitted :
    (text : String) (gs : List GateRow) (g : GateRow)
    → first (at (λ x. x.token) text) gs ≡ some g
    → exists (is_admitted text) gs ≡ false
    → (scan_gate_token g).is_active ≡ false
unfolding first exists scan_gate_token
first-admitted text [] g found none_active = ground arith
first-admitted text (x ∷ gs) g found none_active = elim (Bool-cases (x.token == text)) [
  | inl hit ↦ ground arith
  | inr miss ↦ first-admitted text gs g (ground arith) (ground arith)
]

-- The lookup fails or finds a row.
lookup_cases :
    (io : Io) (text : String) (db : Db)
    → ((x : Error) × ((get_gate_token_by_token io text db).0 ≡ err x))
      ⊎ ((g : GateRow) × (first (at (λ x. x.token) text) db.gate_tokens ≡ some g)
          × ((get_gate_token_by_token io text db).0 ≡ ok (scan_gate_token g)))
unfolding get_gate_token_by_token
lookup_cases io text db = elim (Result-cases (call io (statement 0))) [
  | inr (x, failed) ↦ inl (x, ground arith)
  | inl (u, ran) ↦ elim (Option-cases (first (at (λ x. x.token) text) db.gate_tokens)) [
    | inl gone ↦ inl (no_rows, ground arith)
    | inr (g, found) ↦ inr (g, found, ground arith)
  ]
]

module _ {C : Type 0} (e : Engine) (k : CacheApi C) (j : Json) (p : ReverseProxy (ProxyHandler C))
    (f : ServeIo) (r : Incoming) (s : ProxyHandler C) where
  with_bearer-unauthorized :
      (text : String)
      → exists (is_admitted text) s.manager.sticky.store.gate_tokens ≡ false
      → with_bearer e k j p f r (some text) s ≡ unauthorized "invalid or inactive gate token" s
  with_bearer-unauthorized text none_active =
      elim (lookup_cases f.lookup text s.manager.sticky.store) [
        | inl (x, failed) ↦ ground arith
        | inr (g, found, seen) ↦
            let off = first-admitted text s.manager.sticky.store.gate_tokens g found none_active in
            ground arith
      ]

  -- A request that has no bearer token, or one that no active gate token has, is answered with the
  -- status 401 and changes nothing, neither the database nor the pool, the cache or the channel; so
  -- it does not reach the upstream, whatever the database answered.
  pub serve_http-unauthorized :
      ((text : String)
        → cut_prefix r.authorization "Bearer " ≡ some text
        → exists (is_admitted text) s.manager.sticky.store.gate_tokens ≡ false)
      → (message : String) × (serve_http e k j p f r s ≡ (json_error 401 message, s))
  unfolding serve_http
  serve_http-unauthorized no_token = elim (Option-cases (cut_prefix r.authorization "Bearer ")) [
    | inl missing ↦ ("missing or invalid Authorization header", ground arith)
    | inr (text, given) ↦ (
      "invalid or inactive gate token",
      ground (arith, with_bearer-unauthorized text (no_token text given)),
    )
  ]

  -- The request is admitted as the gate token `gt` and is given the real token `t`.
  pub record IsAdmitted (gt : GateToken) (t : RealToken) (m : Manager C) : Type 0 where
    pub text : String
    pub given : cut_prefix r.authorization "Bearer " ≡ some text
    pub known : (get_gate_token_by_token f.lookup text s.manager.sticky.store).0 ≡ ok gt
    pub active : gt.is_active ≡ true
    pub resolved : resolve_token e k f.look f.bind gt.id s.manager ≡ (ok t, m)

  pub serve_http-IsAdmitted :
      (gt : GateToken) (t : RealToken) (m : Manager C)
      → IsAdmitted gt t m
      → serve_http e k j p f r s
        ≡ p.serve (hooks e k j f gt t r.path s) (outgoing r) (record s { manager = m })
  unfolding serve_http
  serve_http-IsAdmitted gt t m a = ground (arith, a.given, a.known, a.active, a.resolved)
