-- ===== src/Examples/Metered.antt =====
-- The theorems on one metered request, at a stream that reports three tokens in and seven out.
use mathlib.Core.List.{flatten}
use mathlib.Core.List.Perm
use claude_gate.Prelude.{List, ◌≡◌, refl, true, none, some, [], ◌∷◌, map, arith}
use claude_gate.Prelude.Bytes.{codes, starts_with, has_prefix, contains}
use claude_gate.Store.Table.{exists, first, at}
use claude_gate.Store.Rows.{Db, scan_real_token, scan_gate_token}
use claude_gate.Store.Batch.{all_parents}
use claude_gate.Proxy.Handler.{json_usage}
use claude_gate.Prelude.{false}
use claude_gate.Proxy.Pipeline.MeteredJson.{serve_http_json-metered}
use claude_gate.Proxy.Tap.{Json, ModelUsage}
use claude_gate.Proxy.Tap.{
  new_tapping_reader, process_line, parse_message_start, parse_message_delta,
}
use claude_gate.Proxy.Tap.Chunks.{feed}
use claude_gate.Proxy.Tap.Completion.{usage_of}
use claude_gate.Proxy.Exchange.{Response, answered}
use claude_gate.Proxy.Writer.{UsageEntry, to_log}
use claude_gate.Proxy.Writer.Accounting.{IsSmooth, gate_totals, real_totals}
use claude_gate.Proxy.Handler.{ProxyHandler, entry_of, bytes_of, serve_http}
use claude_gate.Proxy.Pipeline.Written.{bare}
use claude_gate.Proxy.Pipeline.Metered.{holds_only, idle, taken_and_flushed, serve_http-metered}
use claude_gate.Examples.{
  simple_engine, simple_engine-IsSql, calm-IsCalm, Item, gate_1, real_1, list_cache,
}
use claude_gate.Examples.Proxies.{json, flush_io}
use claude_gate.Examples.Handlers.{
  proxy_of, proxy_of-IsReverseProxy, token_1, agent, handler, serve_io, request, resolved,
  request-IsAdmitted, resolved_tokens, stream,
}

-- A stream with one message_start and one message_delta.
abbrev told : Response
told = record stream {
  body = record {
    chunks = codes "data: message_st" ∷ codes "art\ndata: mes" ∷ [];
    last = codes "sage_delta\n";
    broken = none;
  };
}

told_type : starts_with told.content_type "text/event-stream" ≡ true
unfolding starts_with
told_type = refl

-- The entry of the stream.
abbrev entry : UsageEntry
entry = entry_of agent token_1 "/v1/messages" 200 (usage_of json (bytes_of told.body))

-- What the stream reports.
told_usage : usage_of json (bytes_of told.body) ≡ record {
  model = "m";
  input_tokens = 3;
  output_tokens = 7;
  cache_creation_input_tokens = 0;
  cache_read_input_tokens = 0;
}
unfolding usage_of new_tapping_reader feed process_line parse_message_start parse_message_delta
    flatten has_prefix contains
told_usage = refl

gate_here : first (at (λ y. y.id) agent.id) resolved.sticky.store.gate_tokens ≡ some gate_1
unfolding agent scan_gate_token first
gate_here = rw (resolved_tokens.0) refl

real_here : first (at (λ y. y.id) token_1.id) resolved.sticky.store.real_tokens ≡ some real_1
unfolding token_1 scan_real_token first
real_here = rw (resolved_tokens.1) refl

parents_there : all_parents resolved.sticky.store (to_log entry ∷ []) ≡ true
unfolding all_parents exists to_log agent scan_gate_token token_1 scan_real_token
parents_there = rw (resolved_tokens.0, resolved_tokens.1) refl

IsSmooth-with :
    (x : UsageEntry)
    → all_parents resolved.sticky.store (to_log x ∷ []) ≡ true
    → IsSmooth flush_io (holds_only (x ∷ []) 0 resolved.sticky.store)
IsSmooth-with x there = record {
  batch_calm = calm-IsCalm 1;
  gates_calm = λ id. calm-IsCalm 1;
  reals_calm = λ id. calm-IsCalm 1;
  gates_once = λ ts. Perm.refl ts;
  reals_once = λ ts. Perm.refl ts;
  parents = there;
}

-- The database after the request, the writer's next entry and its tick.
abbrev after_tick : Db
after_tick = taken_and_flushed simple_engine flush_io flush_io (
    idle
      (serve_http simple_engine list_cache json (proxy_of (answered told 3)) serve_io request
        handler).1
      0)

serve_http-metered_example :
    (map bare after_tick.usage_logs ≡ to_log entry ∷ map bare resolved.sticky.store.usage_logs)
    × (gate_totals agent.id after_tick ≡ some (8, 13))
    × (real_totals token_1.id after_tick ≡ some (13, 27))
unfolding usage_of new_tapping_reader feed process_line parse_message_start parse_message_delta
    flatten has_prefix contains
serve_http-metered_example =
    serve_http-metered simple_engine list_cache json (proxy_of (answered told 3))
      (λ r. answered told 3) serve_io request handler flush_io flush_io 0 agent token_1 resolved
      told 3 gate_1 real_1 (proxy_of-IsReverseProxy (answered told 3))
      (request-IsAdmitted json (answered told 3)) refl told_type (omega arith) refl (omega arith)
      refl simple_engine-IsSql (IsSmooth-with entry parents_there) gate_here real_here (omega arith)
      (omega arith) (omega arith) (omega arith)

-- The handler after the request.
abbrev served : ProxyHandler (List Item)
served =
    (serve_http simple_engine list_cache json (proxy_of (answered told 3)) serve_io request
      handler).1

-- The same handler before an upstream that answers with JSON, of which a decoder reads "m" and the
-- four counts.
abbrev body_usage : ModelUsage
body_usage = record {
  model = "m";
  usage = record {
    input_tokens = 30;
    output_tokens = 4;
    cache_creation_input_tokens = 2;
    cache_read_input_tokens = 1;
  };
}

abbrev reads_body : Json
reads_body = record json { response = λ bs. some body_usage }

abbrev document : Response
document = record stream {
  content_type = "application/json";
  body = record { chunks = []; last = codes "{}"; broken = none };
}

no_stream : starts_with document.content_type "text/event-stream" ≡ false
unfolding starts_with
no_stream = refl

is_json : starts_with document.content_type "application/json" ≡ true
unfolding starts_with
is_json = refl

abbrev body_entry : UsageEntry
body_entry = entry_of agent token_1 "/v1/messages" 200 (json_usage (some body_usage))

body_parents : all_parents resolved.sticky.store (to_log body_entry ∷ []) ≡ true
unfolding all_parents exists to_log agent scan_gate_token token_1 scan_real_token
body_parents = rw (resolved_tokens.0, resolved_tokens.1) refl

abbrev after_json : Db
after_json = taken_and_flushed simple_engine flush_io flush_io (
    idle
      (serve_http simple_engine list_cache reads_body (proxy_of (answered document 1)) serve_io
        request handler).1
      0)

serve_http_json-metered_example :
    (map bare after_json.usage_logs
      ≡ record {
        id = 0;
        gate_token_id = agent.id;
        real_token_id = token_1.id;
        model = "m";
        input_tokens = 30;
        output_tokens = 4;
        cache_creation_input_tokens = 2;
        cache_read_input_tokens = 1;
        request_path = "/v1/messages";
        status_code = 200;
        created_at = "";
      }
        ∷ map bare resolved.sticky.store.usage_logs)
    × (gate_totals agent.id after_json ≡ some (35, 10))
    × (real_totals token_1.id after_json ≡ some (40, 24))
serve_http_json-metered_example =
    serve_http_json-metered simple_engine list_cache reads_body (proxy_of (answered document 1))
      (λ r. answered document 1) serve_io request handler flush_io flush_io 0 agent token_1 resolved
      document 1 body_usage gate_1 real_1 (proxy_of-IsReverseProxy (answered document 1))
      (request-IsAdmitted reads_body (answered document 1)) refl no_stream is_json (omega arith)
      (omega arith) refl refl refl simple_engine-IsSql (IsSmooth-with body_entry body_parents)
      gate_here real_here (omega arith) (omega arith) (omega arith) (omega arith)
