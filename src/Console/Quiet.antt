-- ===== src/Console/Quiet.antt =====
-- The operations that leave alone what the pool takes from the database.
pub mod Writing
use claude_gate.Prelude.{
  ℕ, String, ◌≡◌, refl, sym, ap, ◌∙◌, Bool, false, ◌&&◌, ◌||◌, ◌==◌, some, List, [], ◌∷◌, map,
  arith, inl, inr, Option-cases, ℤ, lt_ℤ, eqb, add_time,
}
use claude_gate.Prelude.Result.{Result-cases}
use claude_gate.Store.Table.{exists, at}
use claude_gate.Store.Rows.{Db, RealRow}
use claude_gate.Store.Engine.{Engine, Io}
use claude_gate.Store.RealTokens.{update_real, update_real_token_usage, is_usable}
use claude_gate.Store.Sticky.{
  get_sticky_session, upsert_sticky_session, upsert_sticky, delete_expired_sticky_sessions,
}
use claude_gate.Store.Integrity.Sessions.{
  upsert_sticky_session-Keeps, delete_expired_sticky_sessions-Keeps,
}
use claude_gate.Store.Integrity.Tokens.{update_real_token_usage-Keeps}
use claude_gate.Store.WellFormed.{IsWellFormed}
use claude_gate.Token.Cache.{CacheApi}
use claude_gate.Token.Pool.{TokenPool, select_token}
use claude_gate.Token.Sticky
use claude_gate.Token.Sticky.{StickyManager, cleanup_tick, bind, resolve}
use claude_gate.Token.Manager.{Manager, refresh, resolve_token, resolve_round_robin, cached}
use claude_gate.Token.Manager.Absent.{serves}
use claude_gate.Token.Manager.InSync.{Settled}
use claude_gate.Console.Serving.{served, serving, serving-update}

abbrev serves_key : ℤ → String → String × String × String × ℕ × ℕ → Bool
serves_key max id (k, access, refresh, active, failures) =
    (k == id) && (eqb active 1 && lt_ℤ failures max)

exists-serving :
    (max : ℤ) (id : String) (rs : List RealRow)
    → exists (serves max id) rs ≡ exists (serves_key max id) (map served rs)
unfolding exists is_usable
exists-serving max id [] = refl
exists-serving max id (r ∷ rs) = ap (λ b. serves max id r || b) (exists-serving max id rs)

-- What keeps the pool, the timer and what is served keeps the manager settled.
pub Settled-same :
    {C : Type 0} (m m' : Manager C)
    → m'.pool.tokens ≡ m.pool.tokens
    → m'.pool.max_failures ≡ m.pool.max_failures
    → serving m'.sticky.store ≡ serving m.sticky.store
    → m'.refresh_at ≡ m.refresh_at
    → Settled m
    → Settled m'
Settled-same m m' tokens max rows timer (inl sync) = inl λ id.
    ap (exists (at (λ t. t.id) id)) tokens
    ∙ sync id
    ∙ exists-serving m.pool.max_failures id m.sticky.store.real_tokens
    ∙ ap (exists (serves_key m.pool.max_failures id)) (sym rows)
    ∙ sym (exists-serving m.pool.max_failures id m'.sticky.store.real_tokens)
    ∙ ap (λ k. exists (serves k id) m'.sticky.store.real_tokens) (sym max)
Settled-same m m' tokens max rows timer (inr (t, set)) = inr (t, timer ∙ set)

-- A change that the pool has nothing to do with.
pub record Quiet {C : Type 0} (m m' : Manager C) : Type 0 where
  pub tokens : m'.pool.tokens ≡ m.pool.tokens
  pub max : m'.pool.max_failures ≡ m.pool.max_failures
  pub rows : serving m'.sticky.store ≡ serving m.sticky.store
  pub timer : m'.refresh_at ≡ m.refresh_at
  pub sound : IsWellFormed m.sticky.store → IsWellFormed m'.sticky.store

module _ {C : Type 0} (e : Engine) (k : CacheApi C) where
  session_same : (io : Io) (gate : String) (db : Db) → (get_sticky_session e io gate db).1 ≡ db
  unfolding get_sticky_session
  session_same io gate db = ground arith

  resolve_same :
      (io : Io) (gate : String) (s : StickyManager C)
      → (Sticky.resolve e k io gate s).1.store ≡ s.store
  unfolding Sticky.resolve
  resolve_same io gate s = ground (arith, session_same io gate s.store)

  upsert_rows :
      (io : Io) (gate real : String) (t : ℕ) (db : Db)
      → (upsert_sticky_session e io gate real t db).1.real_tokens ≡ db.real_tokens
  unfolding upsert_sticky_session upsert_sticky
  upsert_rows io gate real t db = ground arith

  bind_store :
      (io : Io) (gate real : String) (ttl : ℤ) (s : StickyManager C)
      → (Sticky.bind e k io gate real ttl s).1.store
        ≡ (upsert_sticky_session e io gate real (add_time io.now ttl) s.store).1
  unfolding Sticky.bind
  bind_store io gate real ttl s = ground arith

  select_same :
      (p : TokenPool)
      → ((select_token (λ _. false) p).1.tokens ≡ p.tokens)
        × ((select_token (λ _. false) p).1.max_failures ≡ p.max_failures)
  unfolding select_token
  select_same p = (ground arith, ground arith)

  bind_rows :
      (io : Io) (gate real : String) (ttl : ℤ) (s : StickyManager C)
      → serving (Sticky.bind e k io gate real ttl s).1.store ≡ serving s.store
  bind_rows io gate real ttl s =
      ap serving (bind_store io gate real ttl s)
      ∙ ap (map served) (upsert_rows io gate real (add_time io.now ttl) s.store)

  bind_sound :
      (io : Io) (gate real : String) (ttl : ℤ) (s : StickyManager C)
      → IsWellFormed s.store
      → IsWellFormed (Sticky.bind e k io gate real ttl s).1.store
  bind_sound io gate real ttl s w =
      rw (bind_store io gate real ttl s)
        ((upsert_sticky_session-Keeps e io gate real (add_time io.now ttl)).after s.store w)

  round_robin-Quiet :
      (io : Io) (gate : String) (m : Manager C) → Quiet m (resolve_round_robin e k io gate m).1
  unfolding resolve_round_robin
  round_robin-Quiet io gate m =
      let same = select_same m.pool in
      elim (Result-cases (select_token (λ _. false) m.pool).0) [
        | inl (t, found) ↦ rw found (record {
          tokens = same.0;
          max = same.1;
          rows = bind_rows io gate t.id m.sticky_ttl m.sticky;
          timer = refl;
          sound = bind_sound io gate t.id m.sticky_ttl m.sticky;
        })
        | inr (x, failed) ↦
            rw failed
              (record { tokens = same.0; max = same.1; rows = refl; timer = refl; sound = λ w. w })
      ]

  pub resolve_token-Quiet :
      (look bind : Io) (gate : String) (m : Manager C)
      → Quiet m (resolve_token e k look bind gate m).1
  unfolding resolve_token
  resolve_token-Quiet look bind gate m =
      let (real, s) = Sticky.resolve e k look gate m.sticky in
      let same : s.store ≡ m.sticky.store = resolve_same look gate m.sticky in
      elim (Option-cases (cached m.pool real)) [
        | inr (t, hit) ↦ rw hit (record {
          tokens = refl;
          max = refl;
          rows = ap serving same;
          timer = refl;
          sound = λ w. rw same w;
        })
        | inl miss ↦
            let q = round_robin-Quiet bind gate (record m { sticky = s }) in
            rw miss (record {
              tokens = q.tokens;
              max = q.max;
              rows = q.rows ∙ ap serving same;
              timer = q.timer;
              sound = λ w. q.sound (rw same w);
            })
      ]
