-- ===== src/Console/Consistent.antt =====
-- What every request of the admin API leaves behind.
use claude_gate.Prelude.{
  ℕ, ◌+◌, String, ◌≡◌, refl, ap, Bool, true, false, not, ◌&&◌, ◌||◌, ◌==◌, none, some, map,
  if◌then◌else◌, Bool-cases, Option-cases, ◌⊎◌, inl, inr,
}
use claude_gate.Prelude.Bytes.{starts_with}
use claude_gate.Prelude.Result.{Result-cases}
use claude_gate.Store.Rows.{Db}
use claude_gate.Store.Engine.{Engine, Io, rows_affected}
use claude_gate.Store.RealTokens.{set_real_token_active, create_real_token}
use claude_gate.Store.GateTokens.{set_gate_token_active}
use claude_gate.Store.Cascade.{TokenKind, real, gate, delete_gate_token, delete_real_token}
use claude_gate.Store.WellFormed.{IsWellFormed}
use claude_gate.Store.Integrity.Tokens.{
  create_real_token-Keeps, update_real_token-Keeps, set_real_token_active-Keeps,
  create_gate_token-Keeps, update_gate_token-Keeps, set_gate_token_active-Keeps,
}
use claude_gate.Store.Integrity.Cascade.{delete_real_token-Keeps, delete_gate_token-Keeps}
use claude_gate.Store.Deletion.{delete_token_atomic}
use claude_gate.Token.Manager.{Manager, refresh_pool, pool_refresh_debounce}
use claude_gate.Admin.Http.{AdminRequest, Codecs, is_form_request}
use claude_gate.Admin.Tokens.{update_name, set_token_active, delete_token, update_token}
use claude_gate.Admin.Creation.{Draws, real_form, gate_form, create_real, create_gate}
use claude_gate.Admin.Routes.{
  Route, lists, creates, updates, deletes, activates, deactivates, usage_by, usage_all, handle,
}
use claude_gate.Admin.Reports.{
  list_real, list_gate, get_usage, get_usage_by_real_token, get_usage_by_gate_token,
}
use claude_gate.Store.Usage.{
  get_usage_stats, get_usage_stats_by_real_token, get_usage_stats_by_gate_token,
}
use claude_gate.Console.{on_pool_changed}
use claude_gate.Console.Serving.{
  served, serving, list_real_same, list_gate_same, query_same, gate_deletion_real, switch_failed,
  creation_failed, rename_serving, gate_switch_real, gate_rename_real, gate_creation_real,
}

-- The database is well-formed and the pool is as it was; what is served of the real tokens is as
-- before, like the timer, or a refresh of the pool is set.
pub record Consistent {C : Type 0} (now : ℕ) (m m' : Manager C) : Type 0 where
  pub sound : IsWellFormed m'.sticky.store
  pub pool : m'.pool ≡ m.pool
  pub told :
      ((serving m'.sticky.store ≡ serving m.sticky.store) × (m'.refresh_at ≡ m.refresh_at))
      ⊎ (m'.refresh_at ≡ some (now + pool_refresh_debounce))

module _ {C : Type 0} (c : Codecs) (e : Engine) (io : Io) (d : Draws) (r : AdminRequest)
    (m : Manager C) (w : IsWellFormed m.sticky.store)
    (counted : io.fault rows_affected ≡ none) where
  abbrev db : Db
  db = m.sticky.store

  abbrev changed : Manager C → Manager C
  changed = on_pool_changed io.now

  -- What only reads the database.
  read_Consistent :
      (db' : Db)
      → db' ≡ db
      → Consistent io.now m (record m { sticky = record m.sticky { store = db' } })
  read_Consistent db' h = record { sound = rw h w; pool = refl; told = inl ((ap serving h), refl) }

  switch_Consistent :
      (k : TokenKind) (active : Bool)
      → Consistent io.now m (set_token_active c changed e io r k active m).1
  unfolding set_token_active refresh_pool
  switch_Consistent real active =
      let sound = (set_real_token_active-Keeps e io r.id active).after db w in
      elim (Result-cases (set_real_token_active e io r.id active db).0) [
        | inl (u, done) ↦ rw done (record { sound = sound; pool = refl; told = inr refl })
        | inr (x, failed) ↦ rw failed (record {
          sound = sound;
          pool = refl;
          told = inl ((ap (map served) (switch_failed e io r.id db active x counted failed)), refl);
        })
      ]
  switch_Consistent gate active =
      let sound = (set_gate_token_active-Keeps e io r.id active).after db w in
      let same = ap (map served) (gate_switch_real e io r.id db active) in
      elim (Result-cases (set_gate_token_active e io r.id active db).0) [
        | inl (u, done) ↦ rw done (record { sound = sound; pool = refl; told = inl (same, refl) })
        | inr (x, failed) ↦
            rw failed (record { sound = sound; pool = refl; told = inl (same, refl) })
      ]

  deletion_Consistent : (k : TokenKind) → Consistent io.now m (delete_token c changed io r k m).1
  unfolding delete_token refresh_pool
  deletion_Consistent real =
      let sound = (delete_real_token-Keeps io r.id).after db w in
      elim (Result-cases (delete_real_token io r.id db).0) [
        | inl (u, done) ↦ rw done (record { sound = sound; pool = refl; told = inr refl })
        | inr (x, failed) ↦ rw failed (record {
          sound = sound;
          pool = refl;
          told = inl ((ap serving ((delete_token_atomic io r.id db x).0 failed)), refl);
        })
      ]
  deletion_Consistent gate =
      let sound = (delete_gate_token-Keeps io r.id).after db w in
      let same = ap (map served) (gate_deletion_real io r.id db) in
      elim (Result-cases (delete_gate_token io r.id db).0) [
        | inl (u, done) ↦ rw done (record { sound = sound; pool = refl; told = inl (same, refl) })
        | inr (x, failed) ↦
            rw failed (record { sound = sound; pool = refl; told = inl (same, refl) })
      ]

  rename_Consistent : (k : TokenKind) → Consistent io.now m (update_token c e io r k m).1
  unfolding update_token
  rename_Consistent k = elim (Option-cases (c.update r.body)) [
    | inl bad ↦ rw bad (record { sound = w; pool = refl; told = inl (refl, refl) })
    | inr (req, good) ↦ elim (Bool-cases (req.name == "")) [
      | inl empty ↦ rw (good, empty) (record { sound = w; pool = refl; told = inl (refl, refl) })
      | inr named ↦ rw (good, named) (renamed k req.name)
    ]
  ]
    where
      renamed :
          (k : TokenKind) (name : String)
          → Consistent io.now m (record m {
            sticky = record m.sticky { store = (update_name e io k r.id name db).1 };
          })
      renamed real name = record {
        sound = (update_real_token-Keeps e io r.id name).after db w;
        pool = refl;
        told = inl ((rename_serving e io r.id db name), refl);
      }
      renamed gate name = record {
        sound = (update_gate_token-Keeps e io r.id name).after db w;
        pool = refl;
        told = inl ((ap (map served) (gate_rename_real e io r.id db name)), refl);
      }

  real_Consistent : Consistent io.now m (create_real c changed e io d r m).1
  unfolding create_real refresh_pool
  real_Consistent =
      elim (Option-cases (if is_form_request r then some (real_form r) else c.create_real r.body)) [
        | inl bad ↦ rw bad (record { sound = w; pool = refl; told = inl (refl, refl) })
        | inr (req, good) ↦ elim (Bool-cases ((req.name == "") || (req.access_token == ""))) [
          | inl empty ↦
              rw (good, empty) (record { sound = w; pool = refl; told = inl (refl, refl) })
          | inr full ↦
              let create =
                create_real_token e io d.id req.name req.access_token req.refresh_token in
              let sound =
                (create_real_token-Keeps e io d.id req.name req.access_token
                    req.refresh_token).after
                  db w in
              elim (Result-cases (create db).0) [
                | inl (t, done) ↦
                    rw (good, full, done) (record { sound = sound; pool = refl; told = inr refl })
                | inr (x, failed) ↦
                    rw (good, full, failed)
                      (record {
                        sound = sound;
                        pool = refl;
                        told =
                            inl ((ap serving (creation_failed e io d.id db _ _ _ x failed)), refl);
                      })
              ]
        ]
      ]

  gate_Consistent : Consistent io.now m (create_gate c e io d r m).1
  unfolding create_gate
  gate_Consistent =
      elim (Option-cases (if is_form_request r then some (gate_form r) else c.create_gate r.body)) [
        | inl bad ↦ rw bad (record { sound = w; pool = refl; told = inl (refl, refl) })
        | inr (req, good) ↦ elim (Bool-cases (req.name == "")) [
          | inl empty ↦
              rw (good, empty) (record { sound = w; pool = refl; told = inl (refl, refl) })
          | inr named ↦
              elim (Bool-cases (not (req.token == "") && not (starts_with req.token "gate-"))) [
                | inl foreign ↦
                    rw (good, named, foreign)
                      (record { sound = w; pool = refl; told = inl (refl, refl) })
                | inr fine ↦
                    rw (good, named, fine)
                      (record {
                        sound =
                            (create_gate_token-Keeps e io d.id d.generated req.name req.token).after
                              db w;
                        pool = refl;
                        told = inl (
                          (ap (map served)
                              (gate_creation_real e io d.id db d.generated req.name req.token)),
                          refl,
                        );
                      })
              ]
        ]
      ]

  -- From a well-formed database, a request to any route of the admin API, well-formed or not, leads to
  -- a well-formed one, whatever the engine answers, and leaves the pool alone. It leaves all that the
  -- pool takes from the rows of real_tokens as it was, and the refresh timer too, or sets a refresh of
  -- the pool to run 100ms later. It is assumed that RowsAffected does not fail after a statement that
  -- ran.
  pub handle-Consistent :
      (route : Route) → Consistent io.now m (handle c changed e io d route r m).1
  unfolding handle list_real list_gate get_usage get_usage_by_real_token get_usage_by_gate_token
      get_usage_stats get_usage_stats_by_real_token get_usage_stats_by_gate_token
  handle-Consistent (lists real) = read_Consistent _ (list_real_same e io db)
  handle-Consistent (lists gate) = read_Consistent _ (list_gate_same e io db)
  handle-Consistent (creates real) = real_Consistent
  handle-Consistent (creates gate) = gate_Consistent
  handle-Consistent (updates k) = rename_Consistent k
  handle-Consistent (deletes real) = deletion_Consistent real
  handle-Consistent (deletes gate) = deletion_Consistent gate
  handle-Consistent (activates real) = switch_Consistent real true
  handle-Consistent (activates gate) = switch_Consistent gate true
  handle-Consistent (deactivates real) = switch_Consistent real false
  handle-Consistent (deactivates gate) = switch_Consistent gate false
  handle-Consistent usage_all = read_Consistent _ (query_same e io _ db)
  handle-Consistent (usage_by real) = read_Consistent _ (query_same e io _ db)
  handle-Consistent (usage_by gate) = read_Consistent _ (query_same e io _ db)
