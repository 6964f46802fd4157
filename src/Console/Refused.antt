-- ===== src/Console/Refused.antt =====
-- What a request to the admin API changes that is answered with an error.
use claude_gate.Prelude.{
  ◌≡◌, refl, Bool, true, false, not, ◌&&◌, ◌||◌, ◌==◌, Option, none, some, if◌then◌else◌,
  Bool-cases, inl, inr,
}
use claude_gate.Prelude.Bytes.{starts_with}
use claude_gate.Store.Rows.{Db, UsageLog}
use claude_gate.Store.Engine.{Engine, Io, rows_affected}
use claude_gate.Store.RealTokens.{
  update_real_token, set_real_token_active, create_real_token, list_real_tokens,
}
use claude_gate.Store.GateTokens.{
  update_gate_token, set_gate_token_active, create_gate_token, list_gate_tokens,
}
use claude_gate.Store.Usage.{
  query_usage_stats, get_usage_stats, get_usage_stats_by_real_token, get_usage_stats_by_gate_token,
}
use claude_gate.Store.Cascade.{TokenKind, real, gate, delete_real_token, delete_gate_token}
use claude_gate.Store.Deletion.{delete_token_atomic}
use claude_gate.Token.Manager.{Manager, on_store}
use claude_gate.Admin.Http.{
  AdminRequest, AdminReply, Codecs, CreateRealTokenRequest, CreateGateTokenRequest,
  UpdateTokenRequest, is_form_request,
}
use claude_gate.Admin.Tokens.{
  switched_reply, deleted_reply, renamed_reply, update_name, rename_decoded, set_token_active,
  delete_token, update_token,
}
use claude_gate.Admin.Creation.{
  Draws, real_form, gate_form, create_real, create_gate, create_real_decoded, create_gate_decoded,
  real_created, gate_created,
}
use claude_gate.Admin.Reports.{
  real_list_reply, gate_list_reply, usage_reply, list_real, list_gate, handle_usage, get_usage,
  get_usage_by_real_token, get_usage_by_gate_token,
}
use claude_gate.Admin.Routes.{
  Route, lists, creates, updates, deletes, activates, deactivates, usage_by, usage_all, handle,
}
use claude_gate.Console.Serving.{creation_failed, list_real_same, list_gate_same, query_same}
use claude_gate.Console.Undone.{
  is_error, success-is_error, real-Undone, gate-Undone, refused_by, read-Undone,
  gate_creation-Undone,
}

module _ {C : Type 0} (c : Codecs) (e : Engine) (io : Io) (d : Draws) (r : AdminRequest)
    (counted : io.fault rows_affected ≡ none) (changed : Manager C → Manager C)
    (m : Manager C) where
  abbrev db : Db
  db = m.sticky.store

  -- A request that is answered with an error has changed nothing.
  abbrev Refused : AdminReply × Manager C → Type 0
  Refused a = is_error a.0 ≡ true → a.1 ≡ m

  switch-Refused :
      (k : TokenKind) (active : Bool) → Refused (set_token_active c changed e io r k active m)
  unfolding set_token_active set_real_token_active set_gate_token_active
  switch-Refused real active =
      refused_by (set_real_token_active e io r.id active) (switched_reply c changed r real active) m
        (real-Undone io counted db r.id _ _ _) (λ u n. success-is_error r 200 _ _) (λ x n. refl)
  switch-Refused gate active =
      refused_by (set_gate_token_active e io r.id active) (switched_reply c changed r gate active) m
        (gate-Undone io counted db r.id _ _ _) (λ u n. success-is_error r 200 _ _) (λ x n. refl)

  deletion-Refused : (k : TokenKind) → Refused (delete_token c changed io r k m)
  unfolding delete_token
  deletion-Refused real =
      refused_by (delete_real_token io r.id) (deleted_reply c changed r real) m
        (record { undone = λ x failed. (delete_token_atomic io r.id db x).0 failed })
        (λ u n. success-is_error r 200 _ _) (λ x n. refl)
  deletion-Refused gate =
      refused_by (delete_gate_token io r.id) (deleted_reply c changed r gate) m
        (record { undone = λ x failed. (delete_token_atomic io r.id db x).1 failed })
        (λ u n. success-is_error r 200 _ _) (λ x n. refl)

  rename-Refused :
      (k : TokenKind) (o : Option UpdateTokenRequest) → Refused (rename_decoded e io r k o m)
  unfolding update_real_token update_gate_token
  rename-Refused k none bad = refl
  rename-Refused k (some req) bad = elim (Bool-cases (req.name == "")) [
    | inl empty ↦ rw empty refl
    | inr full ↦ rw full (write k (rw full at bad))
  ]
    where
      write :
          (k : TokenKind)
          → is_error (renamed_reply r k req.name (on_store (update_name e io k r.id req.name) m).0)
            ≡ true
          → (on_store (update_name e io k r.id req.name) m).1 ≡ m
      write real =
          refused_by (update_real_token e io r.id req.name)
            (λ res n. (renamed_reply r real req.name res, n)) m
            (real-Undone io counted db r.id _ _ _) (λ u n. refl) (λ x n. refl)
      write gate =
          refused_by (update_gate_token e io r.id req.name)
            (λ res n. (renamed_reply r gate req.name res, n)) m
            (gate-Undone io counted db r.id _ _ _) (λ u n. refl) (λ x n. refl)

  real_creation-Refused :
      (o : Option CreateRealTokenRequest) → Refused (create_real_decoded c changed e io d r o m)
  real_creation-Refused none bad = refl
  real_creation-Refused (some req) bad =
      elim (Bool-cases ((req.name == "") || (req.access_token == ""))) [
        | inl empty ↦ rw empty refl
        | inr full ↦ rw full (
            refused_by (create_real_token e io d.id req.name req.access_token req.refresh_token)
              (real_created c changed r) m
              (record {
                undone = λ x failed.
                    creation_failed e io d.id db req.name req.access_token req.refresh_token x
                      failed;
              })
              (λ t n. success-is_error r 201 _ _) (λ x n. refl) (rw full at bad))
      ]

  gate_creation-Refused :
      (o : Option CreateGateTokenRequest) → Refused (create_gate_decoded c e io d r o m)
  gate_creation-Refused none bad = refl
  gate_creation-Refused (some req) bad = elim (Bool-cases (req.name == "")) [
    | inl empty ↦ rw empty refl
    | inr full ↦ elim (Bool-cases (not (req.token == "") && not (starts_with req.token "gate-"))) [
      | inl foreign ↦ rw (full, foreign) refl
      | inr fine ↦
          rw (full, fine)
            (refused_by (create_gate_token e io d.id d.generated req.name req.token)
              (λ res n. (gate_created c r res, n)) m
              (gate_creation-Undone e io d.id d.generated req.name req.token db)
              (λ t n. success-is_error r 201 _ _) (λ x n. refl) (rw (full, fine) at bad))
    ]
  ]

  usage-Refused :
      (p : UsageLog → Bool)
      → Refused (
        usage_reply (on_store (query_usage_stats e io p) m).0,
        (on_store (query_usage_stats e io p) m).1,
      )
  usage-Refused p =
      refused_by (query_usage_stats e io p) (λ res n. (usage_reply res, n)) m
        (read-Undone _ db (query_same e io p db)) (λ s n. refl) (λ x n. refl)

  -- A request to any route of the admin API that is answered with a JSON error, for whatever reason, has
  -- changed nothing, neither the database nor the pool, the sticky cache or the refresh timer. It is
  -- assumed that RowsAffected does not fail after a statement that ran.
  pub handle-refused :
      (route : Route)
      → is_error (handle c changed e io d route r m).0 ≡ true
      → (handle c changed e io d route r m).1 ≡ m
  unfolding handle list_real list_gate create_real create_gate update_token get_usage
      get_usage_by_real_token get_usage_by_gate_token handle_usage get_usage_stats
      get_usage_stats_by_real_token get_usage_stats_by_gate_token
  handle-refused (lists real) =
      refused_by (list_real_tokens e io) (λ res n. (real_list_reply res, n)) m
        (read-Undone _ db (list_real_same e io db)) (λ s n. refl) (λ x n. refl)
  handle-refused (lists gate) =
      refused_by (list_gate_tokens e io) (λ res n. (gate_list_reply res, n)) m
        (read-Undone _ db (list_gate_same e io db)) (λ s n. refl) (λ x n. refl)
  handle-refused (creates real) =
      real_creation-Refused (if is_form_request r then some (real_form r) else c.create_real r.body)
  handle-refused (creates gate) =
      gate_creation-Refused (if is_form_request r then some (gate_form r) else c.create_gate r.body)
  handle-refused (updates k) = rename-Refused k (c.update r.body)
  handle-refused (deletes real) = deletion-Refused real
  handle-refused (deletes gate) = deletion-Refused gate
  handle-refused (activates real) = switch-Refused real true
  handle-refused (activates gate) = switch-Refused gate true
  handle-refused (deactivates real) = switch-Refused real false
  handle-refused (deactivates gate) = switch-Refused gate false
  handle-refused usage_all = usage-Refused _
  handle-refused (usage_by real) = usage-Refused _
  handle-refused (usage_by gate) = usage-Refused _
