-- ===== src/Admin/Http.antt =====
-- The requests and the answers of internal/admin/handler.go, and what it takes from encoding/json,
-- net/url and time as a parameter.
use claude_gate.Prelude.{
  ℕ, String, Bool, ◌||◌, ◌==◌, Option, none, some, List, [], ◌∷◌, if◌then◌else◌,
}
use claude_gate.Prelude.Bytes.{starts_with}
use claude_gate.Store.Rows.{RealToken, GateToken}
use claude_gate.Store.Usage.{UsageStats}

-- What the handlers read of a request: headers, the session cookie, the path's {id}, the query's
-- `since`, the form's values (empty where the form has none) and the body.
pub record AdminRequest : Type 0 where
  pub authorization : String
  pub content_type : String
  pub hx_request : String
  pub cookie : Option String
  pub id : String
  pub since : String
  pub form : String → String
  pub body : List ℕ

-- RealTokenResponse.
pub record RealTokenResponse : Type 0 where
  pub id : String
  pub name : String
  pub is_active : Bool
  pub failure_count : ℕ
  pub last_failure_at : Option String
  pub last_used_at : Option String
  pub total_input_tokens : ℕ
  pub total_output_tokens : ℕ
  pub created_at : String
  pub updated_at : String

unfoldable pub sanitize_real_token : RealToken → RealTokenResponse
sanitize_real_token t = record {
  id = t.id;
  name = t.name;
  is_active = t.is_active;
  failure_count = t.failure_count;
  last_failure_at = t.last_failure_at;
  last_used_at = t.last_used_at;
  total_input_tokens = t.total_input_tokens;
  total_output_tokens = t.total_output_tokens;
  created_at = t.created_at;
  updated_at = t.updated_at;
}

-- createRealTokenRequest, createGateTokenRequest and updateTokenRequest.
pub record CreateRealTokenRequest : Type 0 where
  pub name : String
  pub access_token : String
  pub refresh_token : String

pub record CreateGateTokenRequest : Type 0 where
  pub name : String
  pub token : String

pub record UpdateTokenRequest : Type 0 where
  pub name : String

-- The values that are encoded under "data".
pub data Payload : Type 0 where
  real_token : RealTokenResponse → Payload
  real_list : List RealTokenResponse → Payload
  gate_token : GateToken → Payload
  gate_list : List GateToken → Payload
  id_status : String → String → Payload
  id_name : String → String → Payload
  only_id : String → Payload
  usage_stats : UsageStats → Payload

-- writeJSON, WriteJSONError, and the status 204 with HX-Redirect.
pub data AdminReply : Type 0 where
  data_json : ℕ → Payload → AdminReply
  error_json : ℕ → String → AdminReply
  hx_redirect : String → AdminReply

-- Decoding of a body, `none` for an error; time.Parse with RFC3339; and a path with query values, as
-- url.Parse, Query, Set and String make it, `none` if the path does not parse.
pub record Codecs : Type 0 where
  pub create_real : List ℕ → Option CreateRealTokenRequest
  pub create_gate : List ℕ → Option CreateGateTokenRequest
  pub update : List ℕ → Option UpdateTokenRequest
  pub parse_time : String → Option ℕ
  pub with_query : String → List (String × String) → Option String

unfoldable pub is_form_request : AdminRequest → Bool
is_form_request r =
    starts_with r.content_type "application/x-www-form-urlencoded"
    || starts_with r.content_type "multipart/form-data"

unfoldable pub respond_success : AdminRequest → ℕ → Payload → String → AdminReply
unfolding is_form_request
respond_success r status payload redirect =
    if (r.hx_request == "true") || is_form_request r
    then hx_redirect redirect
    else data_json status payload

unfoldable pub respond_error : AdminRequest → ℕ → String → String → AdminReply
unfolding is_form_request
respond_error r status text redirect =
    if (r.hx_request == "true") || is_form_request r
    then hx_redirect redirect
    else error_json status text

abbrev pub or_base : String → Option String → String
or_base base none = base
or_base base (some url) = url

unfoldable pub admin_redirect : Codecs → String → String → String
admin_redirect c base flash = or_base base (c.with_query base (("flash", flash) ∷ []))

-- time.Time{}, the origin of the instants.
abbrev pub zero_time : ℕ
zero_time = 0

abbrev pub or_zero : Option ℕ → ℕ
or_zero none = zero_time
or_zero (some t) = t

unfoldable pub parse_since : Codecs → AdminRequest → ℕ
parse_since c r = if r.since == "" then zero_time else or_zero (c.parse_time r.since)
