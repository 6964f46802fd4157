-- ===== src/Admin/Creation.antt =====
-- createRealToken and createGateToken of internal/admin/handler.go.
use claude_gate.Prelude.{String, ◌||◌, ◌&&◌, not, ◌==◌, Option, none, some, [], ◌∷◌, if◌then◌else◌}
use claude_gate.Prelude.Bytes.{starts_with}
use claude_gate.Prelude.Result.{Result, ok, err}
use claude_gate.Store.Rows.{RealToken, GateToken}
use claude_gate.Store.Engine.{Engine, Io}
use claude_gate.Store.RealTokens.{create_real_token}
use claude_gate.Store.GateTokens.{create_gate_token}
use claude_gate.Token.Manager.{Manager, on_store}
use claude_gate.Admin.Http.{
  AdminRequest, AdminReply, error_json, Codecs, CreateRealTokenRequest, CreateGateTokenRequest,
  real_token, gate_token, sanitize_real_token, is_form_request, respond_success, respond_error,
  admin_redirect, or_base,
}

-- What is drawn at random for a new token: its identifier, and the text of a gate token.
pub record Draws : Type 0 where
  pub id : String
  pub generated : String

abbrev pub real_form : AdminRequest → CreateRealTokenRequest
real_form r = record {
  name = r.form "name";
  access_token = r.form "access_token";
  refresh_token = r.form "refresh_token";
}

abbrev pub gate_form : AdminRequest → CreateGateTokenRequest
gate_form r = record { name = r.form "name"; token = r.form "token" }

abbrev pub gate_created : Codecs → AdminRequest → Result GateToken → AdminReply
gate_created c r (err x) =
    respond_error r 500 "failed to create gate token"
      (admin_redirect c "/admin/gate-tokens" "Failed to create token")
gate_created c r (ok t) = respond_success r 201 (gate_token t) (
    or_base "/admin/gate-tokens" (
      c.with_query "/admin/gate-tokens" (("flash", "Token created") ∷ ("new_token", t.token) ∷ [])))

module _ {C : Type 0} (c : Codecs) (changed : Manager C → Manager C) where
  abbrev pub real_created : AdminRequest → Result RealToken → Manager C → AdminReply × Manager C
  real_created r (err x) m = (
    respond_error r 500 "failed to create real token"
        (admin_redirect c "/admin/real-tokens" "Failed to create token"),
    m,
  )
  real_created r (ok t) m = (
    respond_success r 201 (real_token (sanitize_real_token t))
        (admin_redirect c "/admin/real-tokens" "Token created"),
    changed m,
  )

  abbrev pub create_real_decoded :
      Engine
      → Io
      → Draws
      → AdminRequest
      → Option CreateRealTokenRequest
      → Manager C
      → AdminReply × Manager C
  create_real_decoded e io d r none m = (error_json 400 "invalid request body", m)
  create_real_decoded e io d r (some req) m =
      if (req.name == "") || (req.access_token == "")
      then (
        respond_error r 400 "name and access_token are required"
            (admin_redirect c "/admin/real-tokens" "Name and access_token are required"),
        m,
      )
      else (let (res, m') =
            on_store (create_real_token e io d.id req.name req.access_token req.refresh_token) m in
          real_created r res m')

  unfoldable pub create_real :
      Engine → Io → Draws → AdminRequest → Manager C → AdminReply × Manager C
  create_real e io d r =
      create_real_decoded e io d r
        (if is_form_request r then some (real_form r) else c.create_real r.body)

module _ {C : Type 0} (c : Codecs) where
  abbrev pub create_gate_decoded :
      Engine
      → Io
      → Draws
      → AdminRequest
      → Option CreateGateTokenRequest
      → Manager C
      → AdminReply × Manager C
  create_gate_decoded e io d r none m = (error_json 400 "invalid request body", m)
  create_gate_decoded e io d r (some req) m =
      if req.name == ""
      then (
        respond_error r 400 "name is required"
            (admin_redirect c "/admin/gate-tokens" "Name is required"),
        m,
      )
      else if not (req.token == "") && not (starts_with req.token "gate-")
      then (
        respond_error r 400 "custom token must start with 'gate-'"
            (admin_redirect c "/admin/gate-tokens" "Token must start with gate-"),
        m,
      )
      else (let (res, m') =
            on_store (create_gate_token e io d.id d.generated req.name req.token) m in
          (gate_created c r res, m'))

  unfoldable pub create_gate :
      Engine → Io → Draws → AdminRequest → Manager C → AdminReply × Manager C
  create_gate e io d r =
      create_gate_decoded e io d r
        (if is_form_request r then some (gate_form r) else c.create_gate r.body)
