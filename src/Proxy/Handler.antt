-- ===== src/Proxy/Handler.antt =====
-- internal/proxy/proxy.go: a request from its bearer token to the answer, and the usage that is sent
-- to the writer's channel. net/http/httputil's ReverseProxy is a parameter.
pub mod Admission
pub mod Streaming
pub mod Failing
pub mod Sent
pub mod Once
use Prim.Native.String
use claude_gate.Prelude.{
  ℕ, suc, ◌+◌, ◌%◌, ◌^◌, String, ◌≡◌, Bool, true, false, ◌&&◌, Option, none, some, List, [], ◌∷◌,
  ◌++◌, map, leb, ltb, if◌then◌else◌, length, take,
}
use mathlib.Core.List.{flatten}
use claude_gate.Prelude.Bytes.{cut_prefix, starts_with}
use claude_gate.Prelude.Result.{Result, ok, err}
use claude_gate.Store.Table.{map_option}
use claude_gate.Store.Rows.{Db, GateToken, RealToken}
use claude_gate.Store.Engine.{Engine, Io}
use claude_gate.Store.GateTokens.{get_gate_token_by_token}
use claude_gate.Token.Cache.{CacheApi}
use claude_gate.Token.Manager.{Manager, resolve_token, record_failure}
use claude_gate.Proxy.Tap.{
  Json, UsageData, ModelUsage, no_usage, ReadEnd, more, eof, failed, new_tapping_reader,
}
use claude_gate.Proxy.Tap.Completion.{read_all}
use claude_gate.Proxy.Writer.{UsageEntry}
use claude_gate.Proxy.Exchange.{
  Body, Response, Incoming, Outgoing, Reply, json_error, passed_on, Exchange, unreachable, answered,
  Modified, refused, replaced, Hooks, ReverseProxy, IsReverseProxy,
}

-- usageChannelSize of setup.go.
abbrev pub usage_channel_size : ℕ
usage_channel_size = 1024

-- `queue` is what is buffered in usageCh; the store is the manager's.
pub record ProxyHandler (C : Type 0) : Type 0 where
  pub manager : Manager C
  pub scheme : String
  pub host : String
  pub queue : List UsageEntry
  pub dropped : ℕ

-- DroppedCount.
abbrev pub dropped_count : {C : Type 0} → ProxyHandler C → ℕ
dropped_count s = s.dropped

-- NewProxyHandler; `parse` is url.Parse, with the scheme and the host of the URL.
unfoldable pub new_proxy_handler :
    {C : Type 0}
    → (String → Option (String × String))
    → Manager C
    → String
    → Option (ProxyHandler C)
new_proxy_handler parse m upstream =
    map_option
      (λ (scheme, host). record {
        manager = m;
        scheme = scheme;
        host = host;
        queue = [];
        dropped = 0;
      })
      (parse upstream)

-- The conditions of the database calls of one request.
pub record ServeIo : Type 0 where
  pub lookup : Io
  pub look : Io
  pub bind : Io
  pub inc : Io
  pub get : Io
  pub off : Io

abbrev pub json_usage : Option ModelUsage → UsageData
json_usage none = no_usage
json_usage (some env) = record {
  input_tokens = env.usage.input_tokens;
  output_tokens = env.usage.output_tokens;
  cache_creation_input_tokens = env.usage.cache_creation_input_tokens;
  cache_read_input_tokens = env.usage.cache_read_input_tokens;
  model = env.model;
}

unfoldable pub extract_json_usage : Json → List ℕ → UsageData
extract_json_usage j body = json_usage (j.response body)

-- The reads of a body, one after the other.
abbrev pub end_of : Option String → ReadEnd
end_of none = eof
end_of (some text) = failed

abbrev pub reads : Body → List (List ℕ × ReadEnd)
reads b = map (λ c. (c, more)) b.chunks ++ (b.last, end_of b.broken) ∷ []

abbrev pub bytes_of : Body → List ℕ
bytes_of b = flatten b.chunks ++ b.last

abbrev pub entry_of : GateToken → RealToken → String → ℕ → UsageData → UsageEntry
entry_of gt t path status u = record {
  gate_token_id = gt.id;
  real_token_id = t.id;
  usage = u;
  request_path = path;
  status_code = status;
}

-- The request as ReverseProxy takes it in: the server's request names no scheme and no host.
abbrev pub outgoing : Incoming → Outgoing
outgoing r = record { scheme = ""; host = ""; authorization = r.authorization; path = r.path }

module _ {C : Type 0} where
  unfoldable pub send_usage : UsageEntry → ProxyHandler C → ProxyHandler C
  send_usage x s =
      if ltb (length s.queue) usage_channel_size
      then record s { queue = s.queue ++ x ∷ [] }
      else record s { dropped = (s.dropped + 1) % 2 ^ 64 }

  -- One sendUsage for each call of onComplete.
  unfoldable pub send_each :
      (UsageData → UsageEntry) → List UsageData → ProxyHandler C → ProxyHandler C
  unfolding send_usage
  send_each to_entry [] s = s
  send_each to_entry (u ∷ us) s = send_each to_entry us (send_usage (to_entry u) s)

  -- Director.
  unfoldable pub director : ProxyHandler C → RealToken → Outgoing → Outgoing
  director s t r = record r {
    scheme = s.scheme;
    host = s.host;
    authorization = String.◌++◌ "Bearer " t.access_token;
  }

  abbrev pub unauthorized : String → ProxyHandler C → Reply × ProxyHandler C
  unauthorized text s = (json_error 401 text, s)

module _ {C : Type 0} (e : Engine) (k : CacheApi C) (j : Json) where
  -- RecordFailure, whose error is only logged.
  unfoldable pub count_failure : ServeIo → String → ProxyHandler C → ProxyHandler C
  count_failure f real s = record s {
    manager = (record_failure e f.inc f.get f.off real s.manager).1;
  }

  -- The end of ModifyResponse: a failure is counted for a 5xx response.
  unfoldable pub modified :
      ServeIo
      → RealToken
      → Response
      → (ℕ → ProxyHandler C → ProxyHandler C)
      → ProxyHandler C
      → Modified (ProxyHandler C) × ProxyHandler C
  unfolding count_failure
  modified f t resp reading s =
      (replaced resp reading, if leb 500 resp.status then count_failure f t.id s else s)

  -- ModifyResponse's branch of a body of JSON, by what ReadAll gives.
  abbrev pub modified_json :
      ServeIo
      → GateToken
      → RealToken
      → String
      → Response
      → Option String
      → ProxyHandler C
      → Modified (ProxyHandler C) × ProxyHandler C
  modified_json f gt t path resp (some text) s = (refused text, s)
  modified_json f gt t path resp none s =
      let all = bytes_of resp.body in
      modified f t (record resp { body = record { chunks = []; last = all; broken = none } })
        (λ n s'. s') (send_usage (entry_of gt t path resp.status (extract_json_usage j all)) s)

  unfoldable pub modify_response :
      ServeIo
      → GateToken
      → RealToken
      → String
      → Response
      → ProxyHandler C
      → Modified (ProxyHandler C) × ProxyHandler C
  unfolding modified send_usage send_each extract_json_usage
  modify_response f gt t path resp s =
      if starts_with resp.content_type "text/event-stream"
      then modified f t resp
          (λ n.
            send_each (entry_of gt t path resp.status)
              (read_all j (take n (reads resp.body)) new_tapping_reader).1)
          s
      else if starts_with resp.content_type "application/json"
          && leb 200 resp.status
          && ltb resp.status 300
      then modified_json f gt t path resp resp.body.broken s
      else modified f t resp (λ n s'. s') s

  -- ErrorHandler.
  unfoldable pub error_handler :
      ServeIo → RealToken → String → ProxyHandler C → Reply × ProxyHandler C
  unfolding count_failure
  error_handler f t text s =
      (json_error 502 (String.◌++◌ "upstream error: " text), count_failure f t.id s)

  abbrev pub hooks :
      ServeIo → GateToken → RealToken → String → ProxyHandler C → Hooks (ProxyHandler C)
  hooks f gt t path s = record {
    director = director s t;
    modify_response = modify_response f gt t path;
    error_handler = error_handler f t;
  }

  -- What ServeHTTP does with the answer of ResolveToken, and before that with the gate token and with
  -- the header.
  abbrev pub with_token :
      ReverseProxy (ProxyHandler C)
      → ServeIo
      → Incoming
      → GateToken
      → Result RealToken
      → ProxyHandler C
      → Reply × ProxyHandler C
  with_token p f r gt (err x) s = (json_error 502 "no available upstream tokens", s)
  with_token p f r gt (ok t) s = p.serve (hooks f gt t r.path s) (outgoing r) s

  abbrev pub with_gate :
      ReverseProxy (ProxyHandler C)
      → ServeIo
      → Incoming
      → Result GateToken
      → ProxyHandler C
      → Reply × ProxyHandler C
  with_gate p f r (err x) s = unauthorized "invalid or inactive gate token" s
  with_gate p f r (ok gt) s =
      if gt.is_active
      then (let (real, m) = resolve_token e k f.look f.bind gt.id s.manager in
          with_token p f r gt real (record s { manager = m }))
      else unauthorized "invalid or inactive gate token" s

  abbrev pub with_bearer :
      ReverseProxy (ProxyHandler C)
      → ServeIo
      → Incoming
      → Option String
      → ProxyHandler C
      → Reply × ProxyHandler C
  with_bearer p f r none s = unauthorized "missing or invalid Authorization header" s
  with_bearer p f r (some text) s =
      with_gate p f r (get_gate_token_by_token f.lookup text s.manager.sticky.store).0 s

  unfoldable pub serve_http :
      ReverseProxy (ProxyHandler C) → ServeIo → Incoming → ProxyHandler C → Reply × ProxyHandler C
  unfolding modify_response error_handler director
  serve_http p f r = with_bearer p f r (cut_prefix r.authorization "Bearer ")
