-- ===== src/Proxy/Pipeline/MeteredJson.antt =====
-- A request whose answer is JSON, from internal/proxy/proxy.go into the database.
use claude_gate.Prelude.{false, ◌≤◌, ℕ, ◌+◌, ◌^◌, ◌<◌, ◌≡◌, ap, ◌∙◌, true, none, some, [], ◌∷◌, map}
use claude_gate.Prelude.Bytes.{starts_with}
use claude_gate.Store.Table.{first, at}
use claude_gate.Store.Rows.{RealRow, GateRow, RealToken, GateToken}
use claude_gate.Store.Engine.{Engine, IsSql}
use claude_gate.Token.Cache.{CacheApi}
use claude_gate.Token.Manager.{Manager}
use claude_gate.Proxy.Tap.{Json}
use claude_gate.Proxy.Exchange.{
  Response, Incoming, Outgoing, Exchange, answered, ReverseProxy, IsReverseProxy,
}
use claude_gate.Proxy.Writer.{UsageEntry, FlushIo, to_log}
use claude_gate.Proxy.Writer.Accounting.{IsSmooth, gate_totals, real_totals}
use claude_gate.Proxy.Handler.{
  ProxyHandler, ServeIo, outgoing, director, entry_of, bytes_of, send_usage, serve_http,
}
use claude_gate.Proxy.Handler.Admission.{IsAdmitted}
use claude_gate.Proxy.Handler.Streaming.{json_lem}
use claude_gate.Proxy.Pipeline.Written.{bare}
use claude_gate.Proxy.Pipeline.Metered.{holds_only, idle, taken_and_flushed, sent, left_metered}
use claude_gate.Proxy.Tap.{ModelUsage}
use claude_gate.Proxy.Handler.{json_usage, extract_json_usage}

module _ {C : Type 0} (e : Engine) (k : CacheApi C) (j : Json) (p : ReverseProxy (ProxyHandler C))
    (up : Outgoing → Exchange) (io : ServeIo) (r : Incoming) (h : ProxyHandler C) (f g : FlushIo)
    (tries : ℕ) where
  -- A request whose answer is JSON is metered, with a reverse proxy and an engine that keep their laws:
  -- when an admitted request's answer is JSON with a 2xx status, is read without an error and decodes,
  -- with the channel and the writer empty, and then the writer takes the entry and its ticker ticks,
  -- and no call of this flush fails, the database has exactly one usage log more, which names the two
  -- tokens, the path, the status, and the model and the four counts of the decoded body, each in its
  -- column; and the totals of the gate token and of the real token that served it have grown by the
  -- body's input and output tokens. Both tokens are in the database, and the new totals stay below
  -- 2 ^ 63.
  pub serve_http_json-metered :
      (gt : GateToken) (t : RealToken) (m : Manager C) (resp : Response) (n : ℕ) (env : ModelUsage)
      (gate_row : GateRow) (real_row : RealRow)
      → IsReverseProxy p up
      → IsAdmitted e k j p io r h gt t m
      → up (director h t (outgoing r)) ≡ answered resp n
      → starts_with resp.content_type "text/event-stream" ≡ false
      → starts_with resp.content_type "application/json" ≡ true
      → 200 ≤ resp.status
      → resp.status < 300
      → resp.body.broken ≡ none
      → j.response (bytes_of resp.body) ≡ some env
      → h.queue ≡ []
      → IsSql e
      → let u = env.usage in
        let x : UsageEntry = record {
          gate_token_id = gt.id;
          real_token_id = t.id;
          usage = record {
            input_tokens = u.input_tokens;
            output_tokens = u.output_tokens;
            cache_creation_input_tokens = u.cache_creation_input_tokens;
            cache_read_input_tokens = u.cache_read_input_tokens;
            model = env.model;
          };
          request_path = r.path;
          status_code = resp.status;
        } in
        IsSmooth g (holds_only (x ∷ []) tries m.sticky.store)
        → first (at (λ y. y.id) gt.id) m.sticky.store.gate_tokens ≡ some gate_row
        → first (at (λ y. y.id) t.id) m.sticky.store.real_tokens ≡ some real_row
        → gate_row.total_input_tokens + u.input_tokens < 2 ^ 63
        → gate_row.total_output_tokens + u.output_tokens < 2 ^ 63
        → real_row.total_input_tokens + u.input_tokens < 2 ^ 63
        → real_row.total_output_tokens + u.output_tokens < 2 ^ 63
        → let db = taken_and_flushed e f g (idle (serve_http e k j p io r h).1 tries) in
          (map bare db.usage_logs
            ≡ record {
              id = 0;
              gate_token_id = gt.id;
              real_token_id = t.id;
              model = env.model;
              input_tokens = u.input_tokens;
              output_tokens = u.output_tokens;
              cache_creation_input_tokens = u.cache_creation_input_tokens;
              cache_read_input_tokens = u.cache_read_input_tokens;
              request_path = r.path;
              status_code = resp.status;
              created_at = "";
            }
              ∷ map bare m.sticky.store.usage_logs)
          × (gate_totals gt.id db
              ≡ some (
                gate_row.total_input_tokens + u.input_tokens,
                gate_row.total_output_tokens + u.output_tokens,
              ))
          × (real_totals t.id db
              ≡ some (
                real_row.total_input_tokens + u.input_tokens,
                real_row.total_output_tokens + u.output_tokens,
              ))
  unfolding to_log extract_json_usage
  serve_http_json-metered gt t m resp n env gate_row real_row px a up_eq no_stream json lo hi whole
        decoded empty sql calm gate_here real_here gi go ri ro =
      let x = entry_of gt t r.path resp.status (json_usage (some env)) in
      let same : extract_json_usage j (bytes_of resp.body) ≡ json_usage (some env) =
        ap json_usage decoded in
      let served : (serve_http e k j p io r h).1 ≡ record h { manager = m; queue = x ∷ [] } =
        json_lem e k j p up io r h gt t m resp n px a up_eq no_stream json lo hi whole
        ∙ ap (λ u. send_usage (entry_of gt t r.path resp.status u) (record h { manager = m })) same
        ∙ sent e f g x tries (record h { manager = m }) empty in
      left_metered e f g x tries h (serve_http e k j p io r h).1 m gate_row real_row served sql calm
        gate_here real_here gi go ri ro
