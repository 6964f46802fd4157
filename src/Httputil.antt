-- ===== src/Httputil.antt =====
-- internal/httputil/response.go: an error as an answer of net/http.
use claude_gate.Prelude.{ℕ, String, List, [], ◌∷◌}

-- What is written to a ResponseWriter: the status, the headers that are set and the body.
pub record HttpAnswer : Type 0 where
  pub status : ℕ
  pub headers : List (String × String)
  pub body : List ℕ

-- WriteJSONError; `encode` is the json.Encoder on a map with the one key "error".
unfoldable pub write_json_error : (String → List ℕ) → ℕ → String → HttpAnswer
write_json_error encode code msg = record {
  status = code;
  headers = ("Content-Type", "application/json") ∷ [];
  body = encode msg;
}
