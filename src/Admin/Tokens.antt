-- ===== src/Admin/Tokens.antt =====
-- The handlers of internal/admin/handler.go that switch, delete and rename tokens. The callback
-- onPoolChanged works on the token manager, whose store the handler shares.
use Prim.Native.String.{◌++◌}
use claude_gate.Prelude.{String, Bool, true, false, ◌==◌, Option, none, some, if◌then◌else◌}
use claude_gate.Prelude.Result.{Result, ok, err, is_no_rows}
use claude_gate.Prelude.Exec.{Exec}
use claude_gate.Store.Rows.{Db}
use claude_gate.Store.Engine.{Engine, Io}
use claude_gate.Store.Cascade.{TokenKind, real, gate, delete_real_token, delete_gate_token}
use claude_gate.Store.RealTokens.{set_real_token_active, update_real_token}
use claude_gate.Store.GateTokens.{set_gate_token_active, update_gate_token}
use claude_gate.Token.Manager.{Manager, on_store}
use claude_gate.Admin.Http.{
  AdminRequest, AdminReply, data_json, error_json, Codecs, UpdateTokenRequest, id_status, id_name,
  only_id, respond_success, respond_error, admin_redirect,
}

-- The tokenType "real" or "gate", and its page.
abbrev pub kind_text : TokenKind → String
kind_text real = "real"
kind_text gate = "gate"

abbrev pub base_path : TokenKind → String
base_path k = "/admin/" ++ (kind_text k ++ "-tokens")

-- An action's name: activate or deactivate, and the same in the past.
abbrev pub action : Bool → String
action true = "activate"
action false = "deactivate"

abbrev pub past_action : Bool → String
past_action true = "activated"
past_action false = "deactivated"

abbrev pub status_text : Bool → String
status_text true = "active"
status_text false = "inactive"

abbrev pub set_active : Engine → Io → TokenKind → String → Bool → Exec Db (Unit {0})
set_active e io real = set_real_token_active e io
set_active e io gate = set_gate_token_active e io

abbrev pub delete_fn : Io → TokenKind → String → Exec Db (Unit {0})
delete_fn io real = delete_real_token io
delete_fn io gate = delete_gate_token io

abbrev pub update_name : Engine → Io → TokenKind → String → String → Exec Db (Unit {0})
update_name e io real = update_real_token e io
update_name e io gate = update_gate_token e io

-- onPoolChanged, which is called for a real token only.
abbrev pub if_real : {A : Type 0} → TokenKind → (A → A) → A → A
if_real real f a = f a
if_real gate f a = a

module _ {C : Type 0} (c : Codecs) (changed : Manager C → Manager C) where
  abbrev pub switched_reply :
      AdminRequest → TokenKind → Bool → Result (Unit {0}) → Manager C → AdminReply × Manager C
  switched_reply r k active (ok u) m = (
    respond_success r 200 (id_status r.id (status_text active))
        (admin_redirect c (base_path k) ("Token " ++ past_action active)),
    if_real k changed m,
  )
  switched_reply r k active (err x) m = (
    if is_no_rows x
        then respond_error r 404 (kind_text k ++ " token not found")
            (admin_redirect c (base_path k) "Token not found")
        else respond_error r 500
            ("failed to " ++ (action active ++ (" " ++ (kind_text k ++ " token"))))
            (admin_redirect c (base_path k) ("Failed to " ++ (action active ++ " token"))),
    m,
  )

  unfoldable pub set_token_active :
      Engine → Io → AdminRequest → TokenKind → Bool → Manager C → AdminReply × Manager C
  set_token_active e io r k active m =
      let (res, m') = on_store (set_active e io k r.id active) m in switched_reply r k active res m'

  abbrev pub deleted_reply :
      AdminRequest → TokenKind → Result (Unit {0}) → Manager C → AdminReply × Manager C
  deleted_reply r k (ok u) m = (
    respond_success r 200 (only_id r.id) (admin_redirect c (base_path k) "Token deleted"),
    if_real k changed m,
  )
  deleted_reply r k (err x) m = (
    if is_no_rows x
        then respond_error r 404 (kind_text k ++ " token not found")
            (admin_redirect c (base_path k) "Token not found")
        else respond_error r 500 ("failed to delete " ++ (kind_text k ++ " token"))
            (admin_redirect c (base_path k) "Failed to delete token"),
    m,
  )

  unfoldable pub delete_token : Io → AdminRequest → TokenKind → Manager C → AdminReply × Manager C
  delete_token io r k m =
      let (res, m') = on_store (delete_fn io k r.id) m in deleted_reply r k res m'

  -- deleteRealToken and deleteGateToken, and the four that switch a token.
  abbrev pub delete_real : Io → AdminRequest → Manager C → AdminReply × Manager C
  delete_real io r = delete_token io r real

  abbrev pub delete_gate : Io → AdminRequest → Manager C → AdminReply × Manager C
  delete_gate io r = delete_token io r gate

  abbrev pub activate_real : Engine → Io → AdminRequest → Manager C → AdminReply × Manager C
  activate_real e io r = set_token_active e io r real true

  abbrev pub deactivate_real : Engine → Io → AdminRequest → Manager C → AdminReply × Manager C
  deactivate_real e io r = set_token_active e io r real false

  abbrev pub activate_gate : Engine → Io → AdminRequest → Manager C → AdminReply × Manager C
  activate_gate e io r = set_token_active e io r gate true

  abbrev pub deactivate_gate : Engine → Io → AdminRequest → Manager C → AdminReply × Manager C
  deactivate_gate e io r = set_token_active e io r gate false

-- updateRealToken and updateGateToken, which differ in the table and in the word for it only.
abbrev pub renamed_reply : AdminRequest → TokenKind → String → Result (Unit {0}) → AdminReply
renamed_reply r k name (ok u) = data_json 200 (id_name r.id name)
renamed_reply r k name (err x) =
    if is_no_rows x
    then error_json 404 (kind_text k ++ " token not found")
    else error_json 500 ("failed to update " ++ (kind_text k ++ " token"))

module _ {C : Type 0} where
  abbrev pub rename_decoded :
      Engine
      → Io
      → AdminRequest
      → TokenKind
      → Option UpdateTokenRequest
      → Manager C
      → AdminReply × Manager C
  rename_decoded e io r k none m = (error_json 400 "invalid request body", m)
  rename_decoded e io r k (some req) m =
      if req.name == ""
      then (error_json 400 "name is required", m)
      else (let (res, m') = on_store (update_name e io k r.id req.name) m in
          (renamed_reply r k req.name res, m'))

  unfoldable pub update_token :
      Codecs → Engine → Io → AdminRequest → TokenKind → Manager C → AdminReply × Manager C
  update_token c e io r k m = rename_decoded e io r k (c.update r.body) m
