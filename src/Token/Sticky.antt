-- ===== src/Token/Sticky.antt =====
-- internal/token/sticky.go: the binding of a gate token to a real token, in the cache and in the
-- database. One reading of the clock serves all of a database call's step.
use claude_gate.Prelude.{ℕ, ◌-◌, String, Option, none, some, ltb, ℤ, pos, add_time, if◌then◌else◌}
use claude_gate.Prelude.Result.{Result, ok, err}
use claude_gate.Prelude.Exec.{Exec, modify, ◌>>◌}
use claude_gate.Store.Rows.{Db, StickySession}
use claude_gate.Store.Engine.{Engine, Io}
use claude_gate.Store.Sticky.{
  get_sticky_session, upsert_sticky_session, delete_expired_sticky_sessions,
}
use claude_gate.Token.Cache.{CacheApi}

pub record StickyManager (C : Type 0) : Type 0 where
  pub store : Db
  pub cache : C

module _ {C : Type 0} where
  -- A call of the store on the manager's state.
  abbrev pub on_store : {A : Type 0} → Exec Db A → Exec (StickyManager C) A
  on_store m s = ((m s.store).0, record s { store = (m s.store).1 })

module _ {C : Type 0} (e : Engine) (k : CacheApi C) where
  -- What Resolve does with the answer of the database: a session with time left goes to the cache.
  abbrev pub from_store :
      ℕ → String → Result (Option StickySession) → StickyManager C → Option String × StickyManager C
  from_store now gate (err x) s = (none, s)
  from_store now gate (ok none) s = (none, s)
  from_store now gate (ok (some ss)) s =
      if ltb now ss.expires_at
      then (
        some ss.real_token_id,
        record s { cache = k.set gate ss.real_token_id (pos (ss.expires_at - now)) now s.cache },
      )
      else (none, s)

  -- What Resolve does with the answer of the cache.
  abbrev pub from_cache :
      Io → String → Option String → StickyManager C → Option String × StickyManager C
  from_cache io gate (some real) s = (some real, s)
  from_cache io gate none s =
      let (found, db) = get_sticky_session e io gate s.store in
      from_store io.now gate found (record s { store = db })

  unfoldable pub resolve : Io → String → StickyManager C → Option String × StickyManager C
  resolve io gate s =
      let (item, c) = k.get gate io.now s.cache in from_cache io gate item (record s { cache = c })

  unfoldable pub bind : Io → String → String → ℤ → Exec (StickyManager C) (Unit {0})
  bind io gate real ttl = do
    on_store (upsert_sticky_session e io gate real (add_time io.now ttl))
    modify (λ s. record s { cache = k.set gate real ttl io.now s.cache })

  -- One tick of dbCleanupLoop, whose error is dropped.
  unfoldable pub cleanup_tick : Io → StickyManager C → StickyManager C
  cleanup_tick io s = record s { store = (delete_expired_sticky_sessions e io s.store).1 }
