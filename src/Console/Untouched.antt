-- ===== src/Console/Untouched.antt =====
-- What leaves the sticky cache of internal/token alone: the admin API, the failures and the refreshes.
use claude_gate.Prelude.{
  String, ◌≡◌, ◌==◌, ◌||◌, ◌&&◌, not, refl, Bool, true, false, Option, none, some, le_ℤ, Bool-cases,
  inl, inr, if◌then◌else◌,
}
use claude_gate.Prelude.Bytes.{starts_with}
use claude_gate.Prelude.Exec.{Exec}
use claude_gate.Prelude.Keeps.{Keeps, Keeps-pure, Keeps-gets, Keeps-modify, Keeps-bind}
use claude_gate.Prelude.Result.{Result, ok, err, Result-cases}
use claude_gate.Store.Rows.{Db, RealToken}
use claude_gate.Store.RealTokens.{
  increment_real_token_failure, get_real_token, list_active_real_tokens, set_real_token_active,
}
use claude_gate.Store.Cascade.{TokenKind, real, gate}
use claude_gate.Store.Engine.{Engine, Io}
use claude_gate.Token.Manager.{
  Manager, on_store, refresh, refresh_pool, fire_refresh, record_failure, deactivate_at_limit,
  is_due,
}
use claude_gate.Admin.Http.{
  AdminRequest, Codecs, is_form_request, CreateRealTokenRequest, CreateGateTokenRequest,
  UpdateTokenRequest,
}
use claude_gate.Admin.Tokens.{
  switched_reply, deleted_reply, set_token_active, delete_token, update_token, rename_decoded,
}
use claude_gate.Admin.Creation.{
  Draws, real_form, gate_form, create_real, create_gate, create_real_decoded, create_gate_decoded,
  real_created,
}
use claude_gate.Admin.Reports.{
  list_real, list_gate, handle_usage, get_usage, get_usage_by_real_token, get_usage_by_gate_token,
}
use claude_gate.Admin.Routes.{
  Route, lists, creates, updates, deletes, activates, deactivates, usage_by, usage_all, handle,
}
use claude_gate.Console.{on_pool_changed}

module _ {C : Type 0} (c : Codecs) (e : Engine) (io : Io) (d : Draws) (r : AdminRequest) where
  abbrev changed : Manager C → Manager C
  changed = on_pool_changed io.now

  switched-cache :
      (k : TokenKind) (active : Bool) (res : Result (Unit {0})) (m : Manager C)
      → (switched_reply c changed r k active res m).1.sticky.cache ≡ m.sticky.cache
  unfolding refresh_pool
  switched-cache real active (ok u) m = refl
  switched-cache gate active (ok u) m = refl
  switched-cache k active (err x) m = refl

  deleted-cache :
      (k : TokenKind) (res : Result (Unit {0})) (m : Manager C)
      → (deleted_reply c changed r k res m).1.sticky.cache ≡ m.sticky.cache
  unfolding refresh_pool
  deleted-cache real (ok u) m = refl
  deleted-cache gate (ok u) m = refl
  deleted-cache k (err x) m = refl

  created-cache :
      (res : Result RealToken) (m : Manager C)
      → (real_created c changed r res m).1.sticky.cache ≡ m.sticky.cache
  unfolding refresh_pool
  created-cache (ok t) m = refl
  created-cache (err x) m = refl

  create_real-cache :
      (o : Option CreateRealTokenRequest) (m : Manager C)
      → (create_real_decoded c changed e io d r o m).1.sticky.cache ≡ m.sticky.cache
  create_real-cache none m = refl
  create_real-cache (some req) m =
      elim (Bool-cases ((req.name == "") || (req.access_token == ""))) [
        | inl empty ↦ rw empty refl
        | inr full ↦ rw full (created-cache _ _)
      ]

  create_gate-cache :
      (o : Option CreateGateTokenRequest) (m : Manager C)
      → (create_gate_decoded c e io d r o m).1.sticky.cache ≡ m.sticky.cache
  create_gate-cache none m = refl
  create_gate-cache (some req) m = elim (Bool-cases (req.name == "")) [
    | inl empty ↦ rw empty refl
    | inr full ↦ elim (Bool-cases (not (req.token == "") && not (starts_with req.token "gate-"))) [
      | inl foreign ↦ rw (full, foreign) refl
      | inr fine ↦ rw (full, fine) refl
    ]
  ]

  rename-cache :
      (k : TokenKind) (o : Option UpdateTokenRequest) (m : Manager C)
      → (rename_decoded e io r k o m).1.sticky.cache ≡ m.sticky.cache
  rename-cache k none m = refl
  rename-cache k (some req) m = elim (Bool-cases (req.name == "")) [
    | inl empty ↦ rw empty refl
    | inr full ↦ rw full refl
  ]

  -- No route of the admin API touches the sticky cache.
  pub handle-cache :
      (route : Route) (m : Manager C)
      → (handle c changed e io d route r m).1.sticky.cache ≡ m.sticky.cache
  unfolding handle list_real list_gate create_real create_gate update_token delete_token
      set_token_active get_usage get_usage_by_real_token get_usage_by_gate_token handle_usage
  handle-cache (lists real) m = refl
  handle-cache (lists gate) m = refl
  handle-cache (creates real) m =
      create_real-cache (if is_form_request r then some (real_form r) else c.create_real r.body) m
  handle-cache (creates gate) m =
      create_gate-cache (if is_form_request r then some (gate_form r) else c.create_gate r.body) m
  handle-cache (updates k) m = rename-cache k (c.update r.body) m
  handle-cache (deletes real) m = deleted-cache real _ _
  handle-cache (deletes gate) m = deleted-cache gate _ _
  handle-cache (activates real) m = switched-cache real true _ _
  handle-cache (activates gate) m = switched-cache gate true _ _
  handle-cache (deactivates real) m = switched-cache real false _ _
  handle-cache (deactivates gate) m = switched-cache gate false _ _
  handle-cache usage_all m = refl
  handle-cache (usage_by real) m = refl
  handle-cache (usage_by gate) m = refl

module _ {C : Type 0} (e : Engine) (cache : C) where
  -- The cache is the one given.
  abbrev HasCache : Manager C → Type 0
  HasCache m = m.sticky.cache ≡ cache

  on_store-Keeps : {A : Type 0} (op : Exec Db A) → Keeps HasCache (on_store op)
  on_store-Keeps op = record { after = λ m h. h }

  limit-Keeps :
      (off : Io) (id : String) (full : Bool) → Keeps HasCache (deactivate_at_limit e off id full)
  limit-Keeps off id true = on_store-Keeps (set_real_token_active e off id false)
  limit-Keeps off id false = Keeps-pure tt

  pub record_failure-cache :
      (inc get off : Io) (id : String) → Keeps HasCache (record_failure e inc get off id)
  unfolding record_failure refresh_pool
  record_failure-cache inc get off id =
      Keeps-bind (on_store-Keeps (increment_real_token_failure e inc id)) λ _.
        Keeps-bind (on_store-Keeps (get_real_token get id)) λ t.
          Keeps-bind (Keeps-gets (λ m. m.max_failures)) λ max.
            Keeps-bind (limit-Keeps off id (le_ℤ max t.failure_count))
              λ _. Keeps-modify (λ m. (refresh_pool off.now m).1) (λ m h. h)

module _ {C : Type 0} (e : Engine) (io : Io) where
  refresh-cache : (m : Manager C) → (refresh e io m).1.sticky.cache ≡ m.sticky.cache
  unfolding refresh
  refresh-cache m =
      elim (Result-cases (list_active_real_tokens e io m.pool.max_failures m.sticky.store).0) [
        | inl (ts, done) ↦ rw done refl
        | inr (x, failed) ↦ rw failed refl
      ]

  pub fire_refresh-cache : (m : Manager C) → (fire_refresh e io m).sticky.cache ≡ m.sticky.cache
  unfolding fire_refresh
  fire_refresh-cache m = elim (Bool-cases (is_due io.now m.refresh_at)) [
    | inl due ↦ rw due (refresh-cache (record m { refresh_at = none }))
    | inr early ↦ rw early refl
  ]
