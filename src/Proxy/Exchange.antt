-- ===== src/Proxy/Exchange.antt =====
-- What internal/proxy/proxy.go exchanges with net/http, and ReverseProxy of net/http/httputil as a
-- parameter.
use claude_gate.Prelude.{ℕ, String, ◌≡◌, Option, List}

-- What reading a body gives: chunks, and a last one with io.EOF or with another error.
pub record Body : Type 0 where
  pub chunks : List (List ℕ)
  pub last : List ℕ
  pub broken : Option String

pub record Response : Type 0 where
  pub status : ℕ
  pub content_type : String
  pub body : Body

-- What the handler reads of a request: its Authorization header and its path.
pub record Incoming : Type 0 where
  pub authorization : String
  pub path : String

-- The request that goes out to the upstream.
pub record Outgoing : Type 0 where
  pub scheme : String
  pub host : String
  pub authorization : String
  pub path : String

-- The answer to the client: WriteJSONError, or the upstream's response.
pub data Reply : Type 0 where
  json_error : ℕ → String → Reply
  passed_on : Response → Reply

-- What the upstream did; the number counts the reads of the body before the copying to the client
-- stops.
pub data Exchange : Type 0 where
  unreachable : String → Exchange
  answered : Response → ℕ → Exchange

-- ModifyResponse's answer: an error, or a response with what reading its body that many times does.
pub data Modified (S : Type 0) : Type 0 where
  refused : String → Modified S
  replaced : Response → (ℕ → S → S) → Modified S

-- The fields of a ReverseProxy that the handler sets.
pub record Hooks (S : Type 0) : Type 0 where
  pub director : Outgoing → Outgoing
  pub modify_response : Response → S → Modified S × S
  pub error_handler : String → S → Reply × S

pub record ReverseProxy (S : Type 0) : Type 0 where
  pub serve : Hooks S → Outgoing → S → Reply × S

-- What is documented of ReverseProxy.ServeHTTP with an upstream: the request goes through Director;
-- ErrorHandler is called if the upstream is not reached or ModifyResponse returns an error; otherwise
-- the response is copied to the client. The upstream switches to no other protocol.
pub record IsReverseProxy {S : Type 0} (p : ReverseProxy S) (upstream : Outgoing → Exchange)
    : Type 0 where
  pub serve_unreachable :
      (h : Hooks S) (r : Outgoing) (s : S) (text : String)
      → upstream (h.director r) ≡ unreachable text
      → p.serve h r s ≡ h.error_handler text s
  pub serve_refused :
      (h : Hooks S) (r : Outgoing) (s s' : S) (resp : Response) (n : ℕ) (text : String)
      → upstream (h.director r) ≡ answered resp n
      → h.modify_response resp s ≡ (refused text, s')
      → p.serve h r s ≡ h.error_handler text s'
  pub serve_replaced :
      (h : Hooks S) (r : Outgoing) (s s' : S) (resp resp' : Response) (n : ℕ) (reading : ℕ → S → S)
      → upstream (h.director r) ≡ answered resp n
      → h.modify_response resp s ≡ (replaced resp' reading, s')
      → p.serve h r s ≡ (passed_on resp', reading n s')
