-- ===== src/Proxy/Pipeline/Metered.antt =====
-- One request from internal/proxy/proxy.go through the channel and the writer into the database.
use claude_gate.Prelude.{
  ℕ, ◌+◌, ◌^◌, ◌<◌, String, ◌≡◌, refl, ap, ◌∙◌, true, none, some, List, [], ◌∷◌, map, arith, length,
  eq_refl,
}
use claude_gate.Prelude.Bytes.{starts_with}
use claude_gate.Prelude.Result.{ok}
use claude_gate.Store.Table.{first, at}
use claude_gate.Store.Rows.{Db, RealRow, GateRow, RealToken, GateToken}
use claude_gate.Store.Engine.{Engine, IsSql}
use claude_gate.Store.Batch.{insert_usage_logs_exact}
use claude_gate.Token.Cache.{CacheApi}
use claude_gate.Token.Manager.{Manager}
use claude_gate.Proxy.Tap.{Json, UsageData}
use claude_gate.Proxy.Tap.Completion.{usage_of}
use claude_gate.Proxy.Exchange.{
  Response, Incoming, Outgoing, Exchange, answered, ReverseProxy, IsReverseProxy,
}
use claude_gate.Proxy.Writer.{UsageEntry, UsageWriter, FlushIo, tick, pending, to_log, flush, step}
use claude_gate.Proxy.Writer.Flush.{batch}
use claude_gate.Proxy.Writer.Totals.{used}
use claude_gate.Proxy.Writer.Accounting.{
  IsSmooth, gate_totals, real_totals, flush-gate_totals, flush-real_totals,
}
use claude_gate.Proxy.Handler.{
  ProxyHandler, ServeIo, outgoing, director, entry_of, bytes_of, send_usage, serve_http,
}
use claude_gate.Proxy.Handler.Admission.{IsAdmitted}
use claude_gate.Proxy.Handler.Streaming.{streamed_lem}
use claude_gate.Proxy.Pipeline.{Pipeline, receives, ticks, store_of, moved}
use claude_gate.Proxy.Pipeline.Written.{bare}
use claude_gate.Proxy.Pipeline.Settled.{logs_of, settled_by, step-Balanced}

-- A writer that holds these entries, and none from a failed flush.
abbrev pub holds_only : List UsageEntry → ℕ → Db → UsageWriter
holds_only xs tries db = record { buf = xs; retry_buf = []; retry_count = tries; store = db }

-- The handler beside a writer that runs and holds nothing.
abbrev pub idle : {C : Type 0} → ProxyHandler C → ℕ → Pipeline C
idle h tries = record {
  handler = h;
  writer = holds_only [] tries h.manager.sticky.store;
  running = true;
}

-- The writer takes an entry from the channel, and then its ticker ticks.
abbrev pub taken_and_flushed : {C : Type 0} → Engine → FlushIo → FlushIo → Pipeline C → Db
taken_and_flushed e f g s = store_of (moved e (receives f ∷ ticks g ∷ []) s)

module _ (e : Engine) (g : FlushIo) (x : UsageEntry) (tries : ℕ) (db : Db)
    (calm : IsSmooth g (holds_only (x ∷ []) tries db)) where
  abbrev one : UsageWriter
  one = holds_only (x ∷ []) tries db

  one_log : map bare (flush e g one).store.usage_logs ≡ to_log x ∷ map bare db.usage_logs
  unfolding step
  one_log =
      let inserted =
        insert_usage_logs_exact e g.batch (map to_log (pending one)) db calm.batch_calm in
      let done : (batch e g one).0 ≡ ok tt = ground (arith, inserted, calm.parents) in
      (step-Balanced e g tick one).logs
      ∙ ap (λ r. logs_of (settled_by r tries (x ∷ [])) (map bare db.usage_logs)) done

  alone :
      (col : UsageData → ℕ) (key : UsageEntry → String)
      → used col key (key x) (x ∷ []) ≡ col x.usage
  unfolding used
  alone col key = ground (arith, eq_refl (key x))

  one_gate :
      (row : GateRow)
      → IsSql e
      → first (at (λ r. r.id) x.gate_token_id) db.gate_tokens ≡ some row
      → row.total_input_tokens + x.usage.input_tokens < 2 ^ 63
      → row.total_output_tokens + x.usage.output_tokens < 2 ^ 63
      → gate_totals x.gate_token_id (flush e g one).store
        ≡ some (
          row.total_input_tokens + x.usage.input_tokens,
          row.total_output_tokens + x.usage.output_tokens,
        )
  one_gate row sql here low_in low_out =
      let ins = alone (λ u. u.input_tokens) (λ y. y.gate_token_id) in
      let outs = alone (λ u. u.output_tokens) (λ y. y.gate_token_id) in
      flush-gate_totals e g one x.gate_token_id row sql calm here (omega (arith, ins))
        (omega (arith, outs))
      ∙ rw (ins, outs) refl

  one_real :
      (row : RealRow)
      → IsSql e
      → first (at (λ r. r.id) x.real_token_id) db.real_tokens ≡ some row
      → row.total_input_tokens + x.usage.input_tokens < 2 ^ 63
      → row.total_output_tokens + x.usage.output_tokens < 2 ^ 63
      → real_totals x.real_token_id (flush e g one).store
        ≡ some (
          row.total_input_tokens + x.usage.input_tokens,
          row.total_output_tokens + x.usage.output_tokens,
        )
  one_real row sql here low_in low_out =
      let ins = alone (λ u. u.input_tokens) (λ y. y.real_token_id) in
      let outs = alone (λ u. u.output_tokens) (λ y. y.real_token_id) in
      flush-real_totals e g one x.real_token_id row sql calm here (omega (arith, ins))
        (omega (arith, outs))
      ∙ rw (ins, outs) refl

module _ {C : Type 0} (e : Engine) (f g : FlushIo) (x : UsageEntry) (tries : ℕ)
    (h : ProxyHandler C) where
  queued_flushed :
      taken_and_flushed e f g (idle (record h { queue = x ∷ [] }) tries)
      ≡ (flush e g (holds_only (x ∷ []) tries h.manager.sticky.store)).store
  unfolding moved step
  queued_flushed = refl

  pub sent : h.queue ≡ [] → send_usage x h ≡ record h { queue = x ∷ [] }
  unfolding send_usage
  sent empty = rw empty refl

module _ {C : Type 0} (e : Engine) (f g : FlushIo) (x : UsageEntry) (tries : ℕ)
    (h s : ProxyHandler C) (m : Manager C) (gate_row : GateRow) (real_row : RealRow) where
  -- The flush of the one entry that a request left in the channel.
  pub left_metered :
      s ≡ record h { manager = m; queue = x ∷ [] }
      → IsSql e
      → IsSmooth g (holds_only (x ∷ []) tries m.sticky.store)
      → first (at (λ y. y.id) x.gate_token_id) m.sticky.store.gate_tokens ≡ some gate_row
      → first (at (λ y. y.id) x.real_token_id) m.sticky.store.real_tokens ≡ some real_row
      → gate_row.total_input_tokens + x.usage.input_tokens < 2 ^ 63
      → gate_row.total_output_tokens + x.usage.output_tokens < 2 ^ 63
      → real_row.total_input_tokens + x.usage.input_tokens < 2 ^ 63
      → real_row.total_output_tokens + x.usage.output_tokens < 2 ^ 63
      → let db = taken_and_flushed e f g (idle s tries) in
        (map bare db.usage_logs ≡ to_log x ∷ map bare m.sticky.store.usage_logs)
        × (gate_totals x.gate_token_id db
            ≡ some (
              gate_row.total_input_tokens + x.usage.input_tokens,
              gate_row.total_output_tokens + x.usage.output_tokens,
            ))
        × (real_totals x.real_token_id db
            ≡ some (
              real_row.total_input_tokens + x.usage.input_tokens,
              real_row.total_output_tokens + x.usage.output_tokens,
            ))
  left_metered served sql calm gate_here real_here gi go ri ro =
      let there : taken_and_flushed e f g (idle s tries)
          ≡ (flush e g (holds_only (x ∷ []) tries m.sticky.store)).store =
        ap (λ q. taken_and_flushed e f g (idle q tries)) served
        ∙ queued_flushed e f g x tries (record h { manager = m }) in
      (
        ap (λ db. map bare db.usage_logs) there ∙ one_log e g x tries m.sticky.store calm,
        ap (gate_totals x.gate_token_id) there
            ∙ one_gate e g x tries m.sticky.store calm gate_row sql gate_here gi go,
        ap (real_totals x.real_token_id) there
            ∙ one_real e g x tries m.sticky.store calm real_row sql real_here ri ro,
      )

module _ {C : Type 0} (e : Engine) (k : CacheApi C) (j : Json) (p : ReverseProxy (ProxyHandler C))
    (up : Outgoing → Exchange) (io : ServeIo) (r : Incoming) (h : ProxyHandler C) (f g : FlushIo)
    (tries : ℕ) where
  -- A streamed request is metered, with a reverse proxy and an engine that keep their laws: when an
  -- admitted request's answer is an event stream below status 500 that is read to its end, with the
  -- channel and the writer empty, and then the writer takes the entry and its ticker ticks, and no
  -- call of this flush fails, the database has exactly one usage log more, with the usage of the
  -- whole stream, and the totals of the gate token and of the real token that served it have grown
  -- by the stream's input and output tokens. Both tokens are in the database, and the new totals
  -- stay below 2 ^ 63.
  pub serve_http-metered :
      (gt : GateToken) (t : RealToken) (m : Manager C) (resp : Response) (n : ℕ)
      (gate_row : GateRow) (real_row : RealRow)
      → IsReverseProxy p up
      → IsAdmitted e k j p io r h gt t m
      → up (director h t (outgoing r)) ≡ answered resp n
      → starts_with resp.content_type "text/event-stream" ≡ true
      → resp.status < 500
      → resp.body.broken ≡ none
      → length resp.body.chunks < n
      → h.queue ≡ []
      → IsSql e
      → let u = usage_of j (bytes_of resp.body) in
        let x = entry_of gt t r.path resp.status u in
        IsSmooth g (holds_only (x ∷ []) tries m.sticky.store)
        → first (at (λ y. y.id) gt.id) m.sticky.store.gate_tokens ≡ some gate_row
        → first (at (λ y. y.id) t.id) m.sticky.store.real_tokens ≡ some real_row
        → gate_row.total_input_tokens + u.input_tokens < 2 ^ 63
        → gate_row.total_output_tokens + u.output_tokens < 2 ^ 63
        → real_row.total_input_tokens + u.input_tokens < 2 ^ 63
        → real_row.total_output_tokens + u.output_tokens < 2 ^ 63
        → let db = taken_and_flushed e f g (idle (serve_http e k j p io r h).1 tries) in
          (map bare db.usage_logs ≡ to_log x ∷ map bare m.sticky.store.usage_logs)
          × (gate_totals gt.id db
              ≡ some (
                gate_row.total_input_tokens + u.input_tokens,
                gate_row.total_output_tokens + u.output_tokens,
              ))
          × (real_totals t.id db
              ≡ some (
                real_row.total_input_tokens + u.input_tokens,
                real_row.total_output_tokens + u.output_tokens,
              ))
  serve_http-metered gt t m resp n gate_row real_row px a up_eq stream fine whole all empty sql calm
        gate_here real_here gi go ri ro =
      let u = usage_of j (bytes_of resp.body) in
      let x = entry_of gt t r.path resp.status u in
      let served : (serve_http e k j p io r h).1 ≡ record h { manager = m; queue = x ∷ [] } =
        ap (λ q. q.1)
          (streamed_lem e k j p up io r h gt t m resp n px a up_eq stream fine whole all)
        ∙ sent e f g x tries (record h { manager = m }) empty in
      left_metered e f g x tries h (serve_http e k j p io r h).1 m gate_row real_row served sql calm
        gate_here real_here gi go ri ro
