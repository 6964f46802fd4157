-- ===== src/Proxy/Handler/Failing.antt =====
-- The failures that the handler counts.
use claude_gate.Prelude.{
  ℕ, ◌≤◌, ◌≡◌, refl, ap, ◌∙◌, List, [], ◌∷◌, arith, Bool-cases, inl, inr, take,
}
use claude_gate.Prelude.Bytes.{starts_with}
use claude_gate.Store.Rows.{GateToken, RealToken}
use claude_gate.Store.Engine.{Engine}
use claude_gate.Token.Cache.{CacheApi}
use claude_gate.Token.Manager.{Manager, record_failure}
use claude_gate.Proxy.Tap.{Json, UsageData, new_tapping_reader}
use claude_gate.Proxy.Tap.Completion.{read_all}
use claude_gate.Proxy.Writer.{UsageEntry}
use claude_gate.Proxy.Exchange.{
  Response, Incoming, Outgoing, passed_on, Exchange, answered, replaced, ReverseProxy,
  IsReverseProxy,
}
use claude_gate.Proxy.Handler.{
  ProxyHandler, ServeIo, entry_of, reads, send_usage, send_each, count_failure, modified,
  modify_response, director, hooks, outgoing, serve_http,
}
use claude_gate.Proxy.Handler.Admission.{IsAdmitted, serve_http-IsAdmitted}

module _ {C : Type 0} where
  send_each-manager :
      (to_entry : UsageData → UsageEntry) (us : List UsageData) (s : ProxyHandler C)
      → (send_each to_entry us s).manager ≡ s.manager
  unfolding send_each send_usage
  send_each-manager to_entry [] s = refl
  send_each-manager to_entry (u ∷ us) s =
      send_each-manager to_entry us (send_usage (to_entry u) s) ∙ ground arith

module _ {C : Type 0} (e : Engine) (k : CacheApi C) (j : Json) (p : ReverseProxy (ProxyHandler C))
    (up : Outgoing → Exchange) (f : ServeIo) (r : Incoming) (s : ProxyHandler C) where
  -- An admitted request whose answer has a status of 500 or above is passed on as it is, and
  -- RecordFailure runs once, for the real token that was resolved, whatever the content type, and
  -- however much of the body is read.
  pub serve_http_failed :
      (gt : GateToken) (t : RealToken) (m : Manager C) (resp : Response) (n : ℕ)
      → IsReverseProxy p up
      → IsAdmitted e k j p f r s gt t m
      → up (director s t (outgoing r)) ≡ answered resp n
      → 500 ≤ resp.status
      → ((serve_http e k j p f r s).0 ≡ passed_on resp)
        × ((serve_http e k j p f r s).1.manager ≡ (record_failure e f.inc f.get f.off t.id m).1)
  unfolding modify_response modified count_failure director
  serve_http_failed gt t m resp n px a up_eq high =
      elim (Bool-cases (starts_with resp.content_type "text/event-stream")) [
        | inl stream ↦
            let to_entry = entry_of gt t r.path resp.status in
            let reading : ℕ → ProxyHandler C → ProxyHandler C = λ i.
              send_each to_entry (read_all j (take i (reads resp.body)) new_tapping_reader).1 in
            let run = served reading (ground arith) in
            (
              ap (λ x. x.0) run,
              ap (λ x. x.1.manager) run
                  ∙ send_each-manager to_entry
                      (read_all j (take n (reads resp.body)) new_tapping_reader).1 counted,
            )
        | inr other ↦
            let run = served (λ i s'. s') (ground arith) in
            (ap (λ x. x.0) run, ap (λ x. x.1.manager) run)
      ]
    where
      counted : ProxyHandler C
      counted = record s { manager = (record_failure e f.inc f.get f.off t.id m).1 }

      served :
          (reading : ℕ → ProxyHandler C → ProxyHandler C)
          → modify_response e k j f gt t r.path resp (record s { manager = m })
            ≡ (replaced resp reading, counted)
          → serve_http e k j p f r s ≡ (passed_on resp, reading n counted)
      served reading same =
          serve_http-IsAdmitted e k j p f r s gt t m a
          ∙ px.serve_replaced (hooks e k j f gt t r.path s) (outgoing r) (record s { manager = m })
              counted resp resp n reading up_eq same
