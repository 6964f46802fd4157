-- ===== src/Admin/Answered.antt =====
-- The form of every answer of internal/admin/handler.go.
use claude_gate.Prelude.{
  ℕ, String, ◌≡◌, refl, Bool, true, false, not, ◌&&◌, ◌||◌, ◌==◌, inl, inr, Option, none, some,
  List, if◌then◌else◌, Bool-cases,
}
use claude_gate.Prelude.Bytes.{starts_with}
use claude_gate.Prelude.Result.{Result, ok, err, is_no_rows}
use claude_gate.Store.Engine.{Engine, Io}
use claude_gate.Store.Cascade.{TokenKind, real, gate}
use claude_gate.Store.Rows.{RealToken, GateToken}
use claude_gate.Store.Usage.{UsageStats}
use claude_gate.Token.Manager.{Manager, on_store}
use claude_gate.Httputil.{write_json_error}
use claude_gate.Admin.Http.{
  AdminRequest, AdminReply, Payload, data_json, error_json, Codecs, is_form_request,
  respond_success, respond_error, CreateRealTokenRequest, CreateGateTokenRequest,
  UpdateTokenRequest,
}
use claude_gate.Admin.Tokens.{
  switched_reply, deleted_reply, renamed_reply, update_name, rename_decoded, set_token_active,
  delete_token, update_token,
}
use claude_gate.Admin.Creation.{
  Draws, real_form, gate_form, create_real, create_gate, create_real_decoded, create_gate_decoded,
  real_created, gate_created,
}
use claude_gate.Admin.Reports.{
  real_list_reply, gate_list_reply, usage_reply, list_real, list_gate, handle_usage, get_usage,
  get_usage_by_real_token, get_usage_by_gate_token,
}
use claude_gate.Admin.Routes.{
  Route, lists, creates, updates, deletes, activates, deactivates, usage_by, usage_all, handle,
}
use claude_gate.Admin.Answers.{
  Encoder, write_json, write_error, written, from_page, known, Protocol,
}

module _ (enc : Encoder) (r : AdminRequest) where
  abbrev pub Answered : AdminReply → Type 0
  Answered a = Protocol r (written enc a)

  pub data_answer : (status : ℕ) (p : Payload) → known status ≡ true → Answered (data_json status p)
  unfolding written write_json
  data_answer status p h = inl (refl, h)

  pub error_answer :
      (status : ℕ) (text : String) → known status ≡ true → Answered (error_json status text)
  unfolding written write_error write_json_error
  error_answer status text h = inl (refl, h)

  pub success :
      (status : ℕ) (p : Payload) (url : String)
      → known status ≡ true
      → Answered (respond_success r status p url)
  unfolding respond_success written write_json
  success status p url h = elim (Bool-cases (from_page r)) [
    | inl page ↦ rw page (inr (refl, refl, refl, (url, refl)))
    | inr api ↦ rw api (inl (refl, h))
  ]

  pub failure :
      (status : ℕ) (text url : String)
      → known status ≡ true
      → Answered (respond_error r status text url)
  unfolding respond_error written write_error write_json_error
  failure status text url h = elim (Bool-cases (from_page r)) [
    | inl page ↦ rw page (inr (refl, refl, refl, (url, refl)))
    | inr api ↦ rw api (inl (refl, h))
  ]

  module _ {C : Type 0} (c : Codecs) (e : Engine) (io : Io) (d : Draws)
      (changed : Manager C → Manager C) (m : Manager C) where
    switched_answer :
        (k : TokenKind) (active : Bool) (res : Result (Unit {0})) (n : Manager C)
        → Answered (switched_reply c changed r k active res n).0
    switched_answer k active (ok u) n = success 200 _ _ refl
    switched_answer k active (err x) n = elim (Bool-cases (is_no_rows x)) [
      | inl gone ↦ rw gone (failure 404 _ _ refl)
      | inr other ↦ rw other (failure 500 _ _ refl)
    ]

    deleted_answer :
        (k : TokenKind) (res : Result (Unit {0})) (n : Manager C)
        → Answered (deleted_reply c changed r k res n).0
    deleted_answer k (ok u) n = success 200 _ _ refl
    deleted_answer k (err x) n = elim (Bool-cases (is_no_rows x)) [
      | inl gone ↦ rw gone (failure 404 _ _ refl)
      | inr other ↦ rw other (failure 500 _ _ refl)
    ]

    renamed_answer :
        (k : TokenKind) (o : Option UpdateTokenRequest) → Answered (rename_decoded e io r k o m).0
    renamed_answer k none = error_answer 400 _ refl
    renamed_answer k (some req) = elim (Bool-cases (req.name == "")) [
      | inl empty ↦ rw empty (error_answer 400 _ refl)
      | inr full ↦ rw full (from (on_store (update_name e io k r.id req.name) m).0)
    ]
      where
        from : (res : Result (Unit {0})) → Answered (renamed_reply r k req.name res)
        from (ok u) = data_answer 200 _ refl
        from (err x) = elim (Bool-cases (is_no_rows x)) [
          | inl gone ↦ rw gone (error_answer 404 _ refl)
          | inr other ↦ rw other (error_answer 500 _ refl)
        ]

    real_created_answer :
        (res : Result RealToken) (n : Manager C) → Answered (real_created c changed r res n).0
    real_created_answer (ok t) n = success 201 _ _ refl
    real_created_answer (err x) n = failure 500 _ _ refl

    create_real_answer :
        (o : Option CreateRealTokenRequest)
        → Answered (create_real_decoded c changed e io d r o m).0
    create_real_answer none = error_answer 400 _ refl
    create_real_answer (some req) =
        elim (Bool-cases ((req.name == "") || (req.access_token == ""))) [
          | inl empty ↦ rw empty (failure 400 _ _ refl)
          | inr full ↦ rw full (real_created_answer _ _)
        ]

    gate_created_answer : (res : Result GateToken) → Answered (gate_created c r res)
    gate_created_answer (ok t) = success 201 _ _ refl
    gate_created_answer (err x) = failure 500 _ _ refl

    create_gate_answer :
        (o : Option CreateGateTokenRequest) → Answered (create_gate_decoded c e io d r o m).0
    create_gate_answer none = error_answer 400 _ refl
    create_gate_answer (some req) = elim (Bool-cases (req.name == "")) [
      | inl empty ↦ rw empty (failure 400 _ _ refl)
      | inr full ↦
          elim (Bool-cases (not (req.token == "") && not (starts_with req.token "gate-"))) [
            | inl foreign ↦ rw (full, foreign) (failure 400 _ _ refl)
            | inr fine ↦ rw (full, fine) (gate_created_answer _)
          ]
    ]

    real_list_answer : (res : Result (List RealToken)) → Answered (real_list_reply res)
    real_list_answer (ok ts) = data_answer 200 _ refl
    real_list_answer (err x) = error_answer 500 _ refl

    gate_list_answer : (res : Result (List GateToken)) → Answered (gate_list_reply res)
    gate_list_answer (ok ts) = data_answer 200 _ refl
    gate_list_answer (err x) = error_answer 500 _ refl

    usage_answer : (res : Result UsageStats) → Answered (usage_reply res)
    usage_answer (ok s) = data_answer 200 _ refl
    usage_answer (err x) = error_answer 500 _ refl

    -- Every answer of a handler behind the middleware, whatever the request and whatever fails, has one
    -- of two forms: JSON with the status 200, 201, 400, 404 or 500; or, only for a form or a request of
    -- htmx, the status 204 with HX-Redirect and no body.
    pub handle_answered :
        (route : Route) → Protocol r (written enc (handle c changed e io d route r m).0)
    unfolding handle list_real list_gate create_real create_gate update_token delete_token
        set_token_active get_usage get_usage_by_real_token get_usage_by_gate_token handle_usage
    handle_answered (lists real) = real_list_answer _
    handle_answered (lists gate) = gate_list_answer _
    handle_answered (creates real) =
        create_real_answer (if is_form_request r then some (real_form r) else c.create_real r.body)
    handle_answered (creates gate) =
        create_gate_answer (if is_form_request r then some (gate_form r) else c.create_gate r.body)
    handle_answered (updates k) = renamed_answer k (c.update r.body)
    handle_answered (deletes real) = deleted_answer real _ _
    handle_answered (deletes gate) = deleted_answer gate _ _
    handle_answered (activates real) = switched_answer real true _ _
    handle_answered (activates gate) = switched_answer gate true _ _
    handle_answered (deactivates real) = switched_answer real false _ _
    handle_answered (deactivates gate) = switched_answer gate false _ _
    handle_answered usage_all = usage_answer _
    handle_answered (usage_by real) = usage_answer _
    handle_answered (usage_by gate) = usage_answer _
