-- ===== src/Console/Live.antt =====
-- The token manager while the refresh of internal/token/pool.go may be between its two halves.
use claude_gate.Prelude.{
  ◌⊎◌, Option, some, ℕ, String, ◌≡◌, refl, Bool, true, false, none, arith, inl, inr, le_ℤ, List,
}
use claude_gate.Prelude.Exec.{Exec}
use claude_gate.Prelude.Keeps.{Keeps, Keeps-pure, Keeps-gets, Keeps-modify, Keeps-bind}
use claude_gate.Store.Rows.{Db, RealToken}
use claude_gate.Store.Engine.{Engine, Io}
use claude_gate.Store.RealTokens.{get_real_token}
use claude_gate.Store.Integrity.Tokens.{
  increment_real_token_failure-Keeps, set_real_token_active-Keeps,
}
use claude_gate.Store.WellFormed.{IsWellFormed}
use claude_gate.Token.Manager.{
  Manager, on_store, refresh_pool, record_failure, deactivate_at_limit, assign_tokens,
}
use claude_gate.Token.Manager.InSync.{Settled}
use claude_gate.Console.Serving.{serving}
use claude_gate.Console.Quiet.{Settled-same}

get_real_same : (io : Io) (id : String) (db : Db) → (get_real_token io id db).1 ≡ db
unfolding get_real_token
get_real_same io id db = ground arith

get_real_token-Keeps : (io : Io) (id : String) → Keeps IsWellFormed (get_real_token io id)
get_real_token-Keeps io id = record { after = λ db w. rw (get_real_same io id db) w }

module _ {C : Type 0} where
  abbrev pub WellFormed : Manager C → Type 0
  WellFormed m = IsWellFormed m.sticky.store

  on_store-Keeps :
      {A : Type 0} {op : Exec Db A} → Keeps IsWellFormed op → Keeps WellFormed (on_store op)
  on_store-Keeps k = record { after = λ m w. k.after m.sticky.store w }

  limit-Keeps :
      (e : Engine) (off : Io) (real : String) (full : Bool)
      → Keeps WellFormed (deactivate_at_limit e off real full)
  limit-Keeps e off real true = on_store-Keeps (set_real_token_active-Keeps e off real false)
  limit-Keeps e off real false = Keeps-pure tt

  pub record_failure-Keeps :
      (e : Engine) (inc get off : Io) (real : String)
      → Keeps WellFormed (record_failure e inc get off real)
  unfolding record_failure refresh_pool
  record_failure-Keeps e inc get off real =
      Keeps-bind (on_store-Keeps (increment_real_token_failure-Keeps e inc real)) λ _.
        Keeps-bind (on_store-Keeps (get_real_token-Keeps get real)) λ t.
          Keeps-bind (Keeps-gets (λ m. m.max_failures)) λ max.
            Keeps-bind (limit-Keeps e off real (le_ℤ max t.failure_count))
              λ _. Keeps-modify (λ m. (refresh_pool off.now m).1) (λ m w. w)

-- The manager, and the list that the refresh timer's function has read and will assign.
pub record Live (C : Type 0) : Type 0 where
  pub manager : Manager C
  pub reading : Option (List RealToken)

module _ {C : Type 0} where
  -- The database is well-formed, and the pool is in sync with it or a refresh is set.
  pub record IsConverging (m : Manager C) : Type 0 where
    pub sound : IsWellFormed m.sticky.store
    pub settled : Settled m

  -- The manager once the refresh that is under way, if there is one, has assigned its list.
  abbrev pub landed : Option (List RealToken) → Manager C → Manager C
  landed none m = m
  landed (some ts) m = assign_tokens ts m

  -- What the pool is compared with is as it was, or a refresh is set.
  abbrev pub Told : Manager C → Manager C → Type 0
  Told m m' =
      ((m'.pool.tokens ≡ m.pool.tokens)
        × (m'.pool.max_failures ≡ m.pool.max_failures)
        × (serving m'.sticky.store ≡ serving m.sticky.store)
        × (m'.refresh_at ≡ m.refresh_at))
      ⊎ ((t : ℕ) × (m'.refresh_at ≡ some t))

  pub Told-Settled :
      (o : Option (List RealToken)) (m m' : Manager C)
      → Told m m'
      → Settled (landed o m)
      → Settled (landed o m')
  Told-Settled none m m' (inl (tokens, max, rows, timer)) h =
      Settled-same m m' tokens max rows timer h
  Told-Settled (some ts) m m' (inl (tokens, max, rows, timer)) h =
      Settled-same (assign_tokens ts m) (assign_tokens ts m') refl max rows timer h
  Told-Settled none m m' (inr set) h = inr set
  Told-Settled (some ts) m m' (inr set) h = inr set

  pub landed-store : (o : Option (List RealToken)) (m : Manager C) → (landed o m).sticky ≡ m.sticky
  landed-store none m = refl
  landed-store (some ts) m = refl
