-- ===== src/Admin/Answers.antt =====
-- The answers of internal/admin/handler.go as they are written to the client.
use claude_gate.Prelude.{ℕ, String, ◌≡◌, Bool, true, ◌||◌, ◌==◌, ◌⊎◌, List, [], ◌∷◌, eqb}
use claude_gate.Httputil.{HttpAnswer, write_json_error}
use claude_gate.Admin.Http.{
  AdminRequest, AdminReply, Payload, data_json, error_json, hx_redirect, is_form_request,
}

-- The json.Encoder on {"error": …} and on {"data": …}.
pub record Encoder : Type 0 where
  pub error : String → List ℕ
  pub payload : Payload → List ℕ

-- writeJSON.
unfoldable pub write_json : Encoder → ℕ → Payload → HttpAnswer
write_json enc status payload = record {
  status = status;
  headers = ("Content-Type", "application/json") ∷ [];
  body = enc.payload payload;
}

-- writeError.
unfoldable pub write_error : Encoder → ℕ → String → HttpAnswer
unfolding write_json_error
write_error enc = write_json_error enc.error

unfoldable pub written : Encoder → AdminReply → HttpAnswer
unfolding write_json write_error
written enc (data_json status payload) = write_json enc status payload
written enc (error_json status text) = write_error enc status text
written enc (hx_redirect url) = record {
  status = 204;
  headers = ("HX-Redirect", url) ∷ [];
  body = [];
}

-- A form or a request of htmx.
abbrev pub from_page : AdminRequest → Bool
from_page r = (r.hx_request == "true") || is_form_request r

abbrev pub IsJson : HttpAnswer → Type 0
IsJson a = a.headers ≡ ("Content-Type", "application/json") ∷ []

abbrev pub known : ℕ → Bool
known status =
    eqb status 200 || (eqb status 201 || (eqb status 400 || (eqb status 404 || eqb status 500)))

-- JSON with a status of the API; or, for a page, the status 204 with the place to go to and no body.
abbrev pub Protocol : AdminRequest → HttpAnswer → Type 0
Protocol r a =
    (IsJson a × (known a.status ≡ true))
    ⊎ ((from_page r ≡ true)
        × (a.status ≡ 204)
        × (a.body ≡ [])
        × ((url : String) × (a.headers ≡ ("HX-Redirect", url) ∷ [])))
