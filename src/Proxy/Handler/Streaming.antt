-- ===== src/Proxy/Handler/Streaming.antt =====
-- The usage that the handler sends for a response that succeeded.
use mathlib.Core.List.{flatten}
use claude_gate.Prelude.{
  ◌+◌, ◌%◌, ◌^◌, ltb, if◌then◌else◌, ℕ, suc, ◌≤◌, ◌<◌, ◌≡◌, refl, ap, ◌∙◌, true, false, none, List,
  [], ◌∷◌, ◌++◌, map, arith, length, length-append, take, take_all,
}
use claude_gate.Prelude.Bytes.{starts_with}
use claude_gate.Store.Rows.{GateToken, RealToken}
use claude_gate.Store.Engine.{Engine}
use claude_gate.Token.Cache.{CacheApi}
use claude_gate.Token.Manager.{Manager}
use claude_gate.Proxy.Tap.{Json, more, ReadEnd, new_tapping_reader}
use claude_gate.Proxy.Tap.Completion.{read_all, usage_of, read_all-once}
use claude_gate.Proxy.Exchange.{
  Body, Response, Incoming, Outgoing, passed_on, Exchange, answered, ReverseProxy, IsReverseProxy,
}
use claude_gate.Proxy.Handler.{
  ProxyHandler, ServeIo, entry_of, extract_json_usage, end_of, reads, bytes_of, send_usage,
  send_each, modified, modify_response, director, hooks, outgoing, serve_http,
}
use claude_gate.Proxy.Handler.Admission.{IsAdmitted, serve_http-IsAdmitted}

abbrev chunk_reads : List (List ℕ) → List (List ℕ × ReadEnd)
chunk_reads cs = map (λ c. (c, more)) cs

abbrev last_read : Body → List ℕ × ReadEnd
last_read b = (b.last, end_of b.broken)

length-chunks : (cs : List (List ℕ)) → length (chunk_reads cs) ≡ length cs
length-chunks [] = refl
length-chunks (c ∷ cs) = ap suc (length-chunks cs)

-- Every read of a body is made once the number of reads passes the number of its chunks.
take-reads : (b : Body) (n : ℕ) → length b.chunks < n → take n (reads b) ≡ reads b
take-reads b n h =
    take_all n (reads b) (
      omega
        (arith, length-append (chunk_reads b.chunks) (last_read b ∷ []), length-chunks b.chunks))

-- The reads of a body that ends call onComplete once.
reads-once :
    (j : Json) (b : Body) (n : ℕ)
    → b.broken ≡ none
    → length b.chunks < n
    → (read_all j (take n (reads b)) new_tapping_reader).1 ≡ usage_of j (bytes_of b) ∷ []
reads-once j b n whole h = rw (take-reads b n h) (
    ap (λ o. (read_all j (chunk_reads b.chunks ++ (b.last, end_of o) ∷ []) new_tapping_reader).1)
      whole
    ∙ read_all-once j b.chunks b.last [])

module _ {C : Type 0} (e : Engine) (k : CacheApi C) (j : Json) (p : ReverseProxy (ProxyHandler C))
    (up : Outgoing → Exchange) (f : ServeIo) (r : Incoming) (s : ProxyHandler C) where
  -- What the handler sends after a stream that is read to its end.
  pub streamed_lem :
      (gt : GateToken) (t : RealToken) (m : Manager C) (resp : Response) (n : ℕ)
      → IsReverseProxy p up
      → IsAdmitted e k j p f r s gt t m
      → up (director s t (outgoing r)) ≡ answered resp n
      → starts_with resp.content_type "text/event-stream" ≡ true
      → resp.status < 500
      → resp.body.broken ≡ none
      → length resp.body.chunks < n
      → serve_http e k j p f r s ≡ (
        passed_on resp,
        send_usage
            (entry_of gt t r.path resp.status (usage_of j (bytes_of resp.body)))
            (record s { manager = m }),
      )
  unfolding modify_response modified send_each director
  streamed_lem gt t m resp n px a up_eq stream fine whole all =
      let to_entry = entry_of gt t r.path resp.status in
      let reading : ℕ → ProxyHandler C → ProxyHandler C =
        λ i. send_each to_entry (read_all j (take i (reads resp.body)) new_tapping_reader).1 in
      serve_http-IsAdmitted e k j p f r s gt t m a
      ∙ px.serve_replaced (hooks e k j f gt t r.path s) (outgoing r) (record s { manager = m })
          (record s { manager = m }) resp resp n reading up_eq (ground arith)
      ∙ ap (λ us. (passed_on resp, send_each to_entry us (record s { manager = m })))
          (reads-once j resp.body n whole all)

  -- An admitted request whose answer is an event stream below status 500 that is read to its end: the
  -- client gets the response as it is, and one entry goes to the writer's channel, or one drop is
  -- counted if the channel is full. The entry names the gate token, the real token that was resolved,
  -- the path and the status, and has the usage of the whole stream, wherever it was cut into chunks.
  -- Nothing else changes after the resolution of the token.
  pub serve_http_streamed :
      (gt : GateToken) (t : RealToken) (m : Manager C) (resp : Response) (n : ℕ)
      → IsReverseProxy p up
      → IsAdmitted e k j p f r s gt t m
      → up (director s t (outgoing r)) ≡ answered resp n
      → starts_with resp.content_type "text/event-stream" ≡ true
      → resp.status < 500
      → resp.body.broken ≡ none
      → length resp.body.chunks < n
      → serve_http e k j p f r s ≡ (
        passed_on resp,
        if ltb (length s.queue) 1024
            then record s {
              manager = m;
              queue =
                  s.queue
                  ++ record {
                    gate_token_id = gt.id;
                    real_token_id = t.id;
                    usage = usage_of j (bytes_of resp.body);
                    request_path = r.path;
                    status_code = resp.status;
                  }
                    ∷ [];
            }
            else record s { manager = m; dropped = (s.dropped + 1) % 2 ^ 64 },
      )
  unfolding send_usage
  serve_http_streamed gt t m resp n px a up_eq stream fine whole all =
      streamed_lem gt t m resp n px a up_eq stream fine whole all

  -- What the handler sends after a body of JSON that is read without an error.
  pub json_lem :
      (gt : GateToken) (t : RealToken) (m : Manager C) (resp : Response) (n : ℕ)
      → IsReverseProxy p up
      → IsAdmitted e k j p f r s gt t m
      → up (director s t (outgoing r)) ≡ answered resp n
      → starts_with resp.content_type "text/event-stream" ≡ false
      → starts_with resp.content_type "application/json" ≡ true
      → 200 ≤ resp.status
      → resp.status < 300
      → resp.body.broken ≡ none
      → (serve_http e k j p f r s).1
        ≡ send_usage
            (entry_of gt t r.path resp.status (extract_json_usage j (bytes_of resp.body)))
            (record s { manager = m })
  unfolding modify_response modified director flatten
  json_lem gt t m resp n px a up_eq no_stream json lo hi whole =
      let b : Body = record { chunks = []; last = bytes_of resp.body; broken = none } in
      let sent =
        send_usage (entry_of gt t r.path resp.status (extract_json_usage j (bytes_of resp.body)))
          (record s { manager = m }) in
      ap (λ q. q.1)
        (serve_http-IsAdmitted e k j p f r s gt t m a
          ∙ px.serve_replaced (hooks e k j f gt t r.path s) (outgoing r) (record s { manager = m })
              sent resp (record resp { body = b }) n (λ i s'. s') up_eq (ground arith))
