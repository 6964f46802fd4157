-- ===== src/Proxy/Handler/Once.antt =====
-- What one request to internal/proxy/proxy.go can leave behind, whatever it meets.
use claude_gate.Prelude.{ℕ, leb, if◌then◌else◌}
use claude_gate.Prelude.Result.{Result}
use claude_gate.Store.Rows.{GateToken, RealToken}
use claude_gate.Store.Engine.{Engine}
use claude_gate.Token.Cache.{CacheApi}
use claude_gate.Token.Manager.{Manager, record_failure, resolve_token}
use claude_gate.Proxy.Tap.{Json}
use claude_gate.Proxy.Exchange.{Incoming, Outgoing, Exchange, ReverseProxy, IsReverseProxy}
use claude_gate.Proxy.Handler.{ProxyHandler, ServeIo, hooks, outgoing}

module _ {C : Type 0} (e : Engine) (k : CacheApi C) (j : Json) (p : ReverseProxy (ProxyHandler C))
    (up : Outgoing → Exchange) (px : IsReverseProxy p up) (f : ServeIo) (r : Incoming) where
  module _ (gt : GateToken) (t : RealToken) where
    -- The state that modified leaves.
    unfoldable counted : ℕ → ProxyHandler C → Manager C
    counted status s =
        if leb 500 status then (record_failure e f.inc f.get f.off t.id s.manager).1 else s.manager

    abbrev proxied : ProxyHandler C → ProxyHandler C → ProxyHandler C
    proxied h s = (p.serve (hooks e k j f gt t r.path h) (outgoing r) s).1

  unfoldable resolution : GateToken → ProxyHandler C → Result RealToken × Manager C
  resolution gt s = resolve_token e k f.look f.bind gt.id s.manager
