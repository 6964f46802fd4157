-- ===== src/Admin/Routes.antt =====
-- Register of internal/admin/handler.go and AdminAuth of internal/admin/middleware.go.
use claude_gate.Prelude.{String, Bool, false, ◌==◌, Option, none, some, if◌then◌else◌}
use claude_gate.Prelude.Bytes.{cut_prefix}
use claude_gate.Store.Engine.{Engine, Io}
use claude_gate.Store.Cascade.{TokenKind, real, gate}
use claude_gate.Token.Manager.{Manager}
use claude_gate.Admin.Http.{AdminRequest, AdminReply, error_json, Codecs}
use claude_gate.Admin.Tokens.{
  set_token_active, delete_token, update_token, delete_real, delete_gate, activate_real,
  activate_gate, deactivate_real, deactivate_gate,
}
use claude_gate.Admin.Creation.{Draws, create_real, create_gate}
use claude_gate.Admin.Reports.{
  list_real, list_gate, get_usage, get_usage_by_real_token, get_usage_by_gate_token,
}

-- The fifteen routes; `TokenKind` tells /real-tokens from /gate-tokens.
pub data Route : Type 0 where
  lists creates updates deletes activates deactivates usage_by : TokenKind → Route
  usage_all : Route

-- The middleware: the bearer token is the secret, or the session is valid. `session` works on the
-- state, as it may renew the session; it is `none` for a nil function.
abbrev pub bearer_matches : String → Option String → Bool
bearer_matches secret none = false
bearer_matches secret (some token) = token == secret

module _ {S : Type 0} where
  abbrev pub session_valid : Option (AdminRequest → S → Bool × S) → AdminRequest → S → Bool × S
  session_valid none r s = (false, s)
  session_valid (some f) r s = f r s

  unfoldable pub admin_auth :
      String
      → Option (AdminRequest → S → Bool × S)
      → (AdminRequest → S → AdminReply × S)
      → AdminRequest
      → S
      → AdminReply × S
  admin_auth secret session next r s =
      if bearer_matches secret (cut_prefix r.authorization "Bearer ")
      then next r s
      else (let (valid, s') = session_valid session r s in
          if valid then next r s' else (error_json 401 "missing or invalid authorization", s'))

-- NewAdminHandler: a nil onPoolChanged does nothing.
abbrev pub new_admin_handler : {S : Type 0} → Option (S → S) → S → S
new_admin_handler none s = s
new_admin_handler (some f) s = f s

module _ {C : Type 0} (c : Codecs) (changed : Manager C → Manager C) (e : Engine) where
  unfoldable pub handle : Io → Draws → Route → AdminRequest → Manager C → AdminReply × Manager C
  unfolding list_real list_gate create_real create_gate update_token delete_token set_token_active
  handle io d (lists real) r = list_real e io
  handle io d (lists gate) r = list_gate e io
  handle io d (creates real) r = create_real c changed e io d r
  handle io d (creates gate) r = create_gate c e io d r
  handle io d (updates k) r = update_token c e io r k
  handle io d (deletes real) r = delete_real c changed io r
  handle io d (deletes gate) r = delete_gate c changed io r
  handle io d (activates real) r = activate_real c changed e io r
  handle io d (activates gate) r = activate_gate c changed e io r
  handle io d (deactivates real) r = deactivate_real c changed e io r
  handle io d (deactivates gate) r = deactivate_gate c changed e io r
  handle io d usage_all r = get_usage c e io r
  handle io d (usage_by real) r = get_usage_by_real_token c e io r
  handle io d (usage_by gate) r = get_usage_by_gate_token c e io r
