-- ===== src/Examples/Handlers.antt =====
-- The theorems on the handler at requests to upstreams that answer in one way.
use claude_gate.Prelude.{
  ℕ, String, ◌≡◌, refl, sym, ap, Bool, true, false, Option, none, some, List, [], ◌∷◌, arith, pos,
}
use claude_gate.Prelude.Bytes.{codes, cut_prefix, starts_with}
use claude_gate.Store.Table.{exists, first}
use claude_gate.Store.Rows.{GateToken, RealToken, scan_real_token, scan_gate_token}
use claude_gate.Store.GateTokens.{get_gate_token_by_token}
use claude_gate.Store.Sticky.{get_sticky_session, is_live, upsert_sticky_session}
use claude_gate.Token.Pool.{select_loop, select_token}
use claude_gate.Token.Sticky
use claude_gate.Token.Manager.{Manager, resolve_token, resolve_round_robin, record_failure}
use claude_gate.Proxy.Tap.{Json}
use claude_gate.Proxy.Tap.Completion.{usage_of}
use claude_gate.Proxy.Exchange.{
  Response, Incoming, Reply, json_error, passed_on, Exchange, unreachable, answered, Modified,
  refused, replaced, Hooks, ReverseProxy, IsReverseProxy,
}
use claude_gate.Proxy.Handler.{ProxyHandler, ServeIo, entry_of, bytes_of, serve_http}
use claude_gate.Proxy.Handler.Admission.{is_admitted, serve_http-unauthorized, IsAdmitted}
use claude_gate.Proxy.Handler.Streaming.{serve_http_streamed}
use claude_gate.Proxy.Handler.Failing.{serve_http_failed}
use claude_gate.Examples.{
  untally, simple_engine, calm, sample, real_1, gate_1, Item, look_up, list_cache,
}

-- A proxy in front of one exchange.
abbrev copied : {S : Type 0} → Hooks S → ℕ → Modified S × S → Reply × S
copied h n (refused text, s) = h.error_handler text s
copied h n (replaced resp reading, s) = (passed_on resp, reading n s)

abbrev exchanged : {S : Type 0} → Hooks S → Exchange → S → Reply × S
exchanged h (unreachable text) s = h.error_handler text s
exchanged h (answered resp n) s = copied h n (h.modify_response resp s)

abbrev pub proxy_of : {S : Type 0} → Exchange → ReverseProxy S
proxy_of x = record { serve = λ h r s. exchanged h x s }

pub proxy_of-IsReverseProxy :
    {S : Type 0} (x : Exchange) → IsReverseProxy (proxy_of {S = S} x) (λ r. x)
proxy_of-IsReverseProxy x = record {
  serve_unreachable = λ h r s text same. rw same refl;
  serve_refused = λ h r s s' resp n text same changed. rw (same, changed) refl;
  serve_replaced = λ h r s s' resp resp' n reading same changed. rw (same, changed) refl;
}

-- A decoder that knows no envelope.
abbrev no_json : Json
no_json = record { message_start = λ bs. none; message_delta = λ bs. none; response = λ bs. none }

unfoldable pub token_1 : RealToken
unfolding scan_real_token
token_1 = scan_real_token real_1

unfoldable pub agent : GateToken
unfolding scan_gate_token
agent = scan_gate_token gate_1

abbrev manager : Manager (List Item)
manager = record {
  pool = record { tokens = token_1 ∷ []; counter = 0; max_failures = pos 5 };
  sticky = record { store = sample; cache = [] };
  sticky_ttl = pos 60;
  max_failures = pos 5;
  refresh_at = none;
}

abbrev pub handler : ProxyHandler (List Item)
handler = record { manager = manager; scheme = "https"; host = "upstream"; queue = []; dropped = 0 }

abbrev pub serve_io : ServeIo
serve_io = record {
  lookup = calm 1;
  look = calm 1;
  bind = calm 1;
  inc = calm 2;
  get = calm 2;
  off = calm 2;
}

abbrev pub request : Incoming
request = record { authorization = "Bearer gate-1"; path = "/v1/messages" }

abbrev stranger : Incoming
stranger = record request { authorization = "Bearer other" }

abbrev some_admitted : Option String → Bool
some_admitted none = false
some_admitted (some text) = exists (is_admitted text) sample.gate_tokens

stranger_unknown :
    (text : String)
    → cut_prefix stranger.authorization "Bearer " ≡ some text
    → exists (is_admitted text) sample.gate_tokens ≡ false
unfolding exists cut_prefix
stranger_unknown text given = sym (ap some_admitted given)

serve_http-unauthorized_example :
    (message : String) × (serve_http simple_engine list_cache no_json
        (proxy_of (unreachable "down"))
        serve_io
        stranger
        handler
      ≡ (json_error 401 message, handler))
serve_http-unauthorized_example =
    serve_http-unauthorized simple_engine list_cache no_json (proxy_of (unreachable "down"))
      serve_io stranger handler stranger_unknown

-- The manager after the resolution of the gate token.
unfoldable pub resolved : Manager (List Item)
resolved = (resolve_token simple_engine list_cache (calm 1) (calm 1) "g1" manager).1

pub request-IsAdmitted :
    (j : Json) (x : Exchange)
    → IsAdmitted simple_engine list_cache j
        (proxy_of x)
        serve_io
        request
        handler
        agent
        token_1
        resolved
unfolding cut_prefix get_gate_token_by_token first scan_gate_token agent resolved resolve_token
    Sticky.resolve get_sticky_session is_live look_up resolve_round_robin select_token select_loop
    token_1 scan_real_token untally
request-IsAdmitted j x = record {
  text = "gate-1";
  given = refl;
  known = refl;
  active = refl;
  resolved = refl;
}

-- The resolution binds the gate token anew and leaves the tokens alone.
pub resolved_tokens :
    (resolved.sticky.store.gate_tokens ≡ sample.gate_tokens)
    × (resolved.sticky.store.real_tokens ≡ sample.real_tokens)
unfolding resolved resolve_token Sticky.resolve Sticky.bind look_up get_sticky_session
    upsert_sticky_session first is_live untally resolve_round_robin select_token select_loop token_1
    scan_real_token exists
resolved_tokens = (refl, refl)

abbrev pub stream : Response
stream = record {
  status = 200;
  content_type = "text/event-stream; charset=utf-8";
  body = record { chunks = codes "data: message_st" ∷ []; last = codes "art\n"; broken = none };
}

pub stream_type : starts_with stream.content_type "text/event-stream" ≡ true
unfolding starts_with
stream_type = refl

serve_http_streamed_example :
    serve_http simple_engine list_cache no_json
      (proxy_of (answered stream 2))
      serve_io
      request
      handler
    ≡ (
      passed_on stream,
      record handler {
        manager = resolved;
        queue =
            entry_of agent token_1 "/v1/messages" 200 (usage_of no_json (bytes_of stream.body))
            ∷ [];
      },
    )
serve_http_streamed_example =
    serve_http_streamed simple_engine list_cache no_json (proxy_of (answered stream 2))
      (λ r. answered stream 2) serve_io request handler agent token_1 resolved stream 2
      (proxy_of-IsReverseProxy (answered stream 2)) (request-IsAdmitted no_json (answered stream 2))
      refl stream_type (omega arith) refl (omega arith)

abbrev broken : Response
broken = record stream { status = 503 }

serve_http_failed_example :
    ((serve_http simple_engine list_cache no_json
        (proxy_of (answered broken 1))
        serve_io
        request
        handler).0
      ≡ passed_on broken)
    × ((serve_http simple_engine list_cache no_json
          (proxy_of (answered broken 1))
          serve_io
          request
          handler).1.manager
        ≡ (record_failure simple_engine (calm 2) (calm 2) (calm 2) token_1.id resolved).1)
serve_http_failed_example =
    serve_http_failed simple_engine list_cache no_json (proxy_of (answered broken 1))
      (λ r. answered broken 1) serve_io request handler agent token_1 resolved broken 1
      (proxy_of-IsReverseProxy (answered broken 1)) (request-IsAdmitted no_json (answered broken 1))
      refl (omega arith)
