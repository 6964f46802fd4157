-- ===== src/Console/Converge.antt =====
-- The token manager under everything that works on it: the admin API, the proxy's requests, failures,
-- the writer's totals, the cleanup and the refresh timer, in any order.
use claude_gate.Prelude.{
  some, ℕ, String, ◌≡◌, refl, sym, ap, true, none, arith, inl, inr, Option-cases, ℤ, List,
}
use claude_gate.Store.Rows.{Db, UsageLog, RealToken}
use claude_gate.Prelude.Result.{ok}
use claude_gate.Store.Engine.{Engine, Io, IsCalm, IsSql, rows_affected}
use claude_gate.Store.Calm.{find_real}
use claude_gate.Store.RealTokens.{update_real_token_usage, list_active_real_tokens}
use claude_gate.Store.WellFormed.{IsWellFormed}
use claude_gate.Token.Cache.{CacheApi}
use claude_gate.Token.Sticky.{cleanup_tick}
use claude_gate.Token.Manager.{
  Manager, on_store, new_manager, start, resolve_token, record_failure, assign_tokens, is_due,
  refresh,
}
use claude_gate.Token.Manager.InSync.{InSync, refresh-InSync, refresh-store, Settled}
use claude_gate.Token.Manager.Failures.{record_failure_run, record_failure_gone}
use claude_gate.Admin.Http.{AdminRequest, Codecs}
use claude_gate.Admin.Creation.{Draws}
use claude_gate.Admin.Routes.{Route, handle}
use claude_gate.Console.{on_pool_changed}
use claude_gate.Console.Consistent.{Consistent, handle-Consistent}
use claude_gate.Console.Quiet.{Quiet, resolve_token-Quiet}
use claude_gate.Console.Quiet.Writing.{usage-Quiet, cleanup-Quiet, logs-Quiet, gate_usage-Quiet}
use claude_gate.Store.Usage.{insert_usage_logs}
use claude_gate.Store.GateTokens.{update_gate_token_usage}
use claude_gate.Console.Live.{
  record_failure-Keeps, Live, IsConverging, landed, Told, Told-Settled, landed-store,
}

module _ {C : Type 0} (c : Codecs) (e : Engine) (k : CacheApi C) where
  -- One thing that happens to the token manager and its database: a request to the admin API, the
  -- resolution of a request's gate token, the count of a failure, the writer's logs and totals, or a
  -- tick of the cleanup. Resolutions, logs, totals and ticks meet any errors; of the admin API's calls,
  -- RowsAffected does not fail; the calls of a failure do not fail.
  pub data Change (m : Manager C) : Manager C → Type 0 where
    administers :
        (io : Io) (d : Draws) (route : Route) (r : AdminRequest)
        → io.fault rows_affected ≡ none
        → Change m (handle c (on_pool_changed io.now) e io d route r m).1
    resolves :
        (look bind : Io) (wanted : String) → Change m (resolve_token e k look bind wanted m).1
    fails :
        (inc get off : Io) (id : String)
        → IsCalm inc
        → IsCalm get
        → IsCalm off
        → Change m (record_failure e inc get off id m).1
    totals :
        (io : Io) (id : String) (input output : ℕ)
        → Change m (on_store (update_real_token_usage e io id input output) m).1
    logs : (io : Io) (ls : List UsageLog) → Change m (on_store (insert_usage_logs e io ls) m).1
    gate_totals :
        (io : Io) (id : String) (input output : ℕ)
        → Change m (on_store (update_gate_token_usage e io id input output) m).1
    cleans : (io : Io) → Change m (record m { sticky = cleanup_tick e k io m.sticky })

  -- A change, or one of the two halves of the timer's function: it is due and reads the rows, without
  -- an error, or it assigns what it read. A refresh begins when none is under way.
  pub data Step (s : Live C) : Live C → Type 0 where
    works : {m : Manager C} → Change s.manager m → Step s (record s { manager = m })
    reads :
        (io : Io) (ts : List RealToken)
        → IsCalm io
        → s.reading ≡ none
        → is_due io.now s.manager.refresh_at ≡ true
        → (list_active_real_tokens e io s.manager.pool.max_failures s.manager.sticky.store).0
          ≡ ok ts
        → Step s (record s { manager = record s.manager { refresh_at = none }; reading = some ts })
    assigns :
        (ts : List RealToken)
        → s.reading ≡ some ts
        → Step s (record s { manager = assign_tokens ts s.manager; reading = none })

  pub data History (s : Live C) : Live C → Type 0 where
    here : History s s
    next : {s' s'' : Live C} → History s s' → Step s' s'' → History s s''

  Quiet-Told : (m m' : Manager C) → Quiet m m' → Told m m'
  Quiet-Told m m' q = inl (q.tokens, q.max, q.rows, q.timer)

  failure-Told :
      (inc get off : Io) (id : String) (m : Manager C)
      → IsCalm inc
      → IsCalm get
      → IsCalm off
      → Told m (record_failure e inc get off id m).1
  failure-Told inc get off id m ci cg co = elim (Option-cases (find_real id m.sticky.store)) [
    | inl gone ↦
        rw (record_failure_gone e inc get off id m ci cg gone) (inl (refl, refl, refl, refl))
    | inr (r, there) ↦ rw (record_failure_run e inc get off id m r ci cg co there) (inr (_, refl))
  ]

  Consistent-Told : (now : ℕ) (m m' : Manager C) → Consistent now m m' → Told m m'
  Consistent-Told now m m' after = elim after.told [
    | inl (rows, timer) ↦
        inl (ap (λ p. p.tokens) after.pool, ap (λ p. p.max_failures) after.pool, rows, timer)
    | inr set ↦ inr (_, set)
  ]

  Change-Told : {m m' : Manager C} → Change m m' → IsWellFormed m.sticky.store → Told m m'
  Change-Told {m} (administers io d route r counted) w =
      Consistent-Told io.now m _ (handle-Consistent c e io d r m w counted route)
  Change-Told {m} (resolves look bind wanted) w =
      Quiet-Told m _ (resolve_token-Quiet e k look bind wanted m)
  Change-Told {m} (fails inc get off id ci cg co) w = failure-Told inc get off id m ci cg co
  Change-Told {m} (totals io id input output) w =
      Quiet-Told m _ (usage-Quiet e io m id input output)
  Change-Told {m} (logs io ls) w = Quiet-Told m _ (logs-Quiet e io m ls)
  Change-Told {m} (gate_totals io id input output) w =
      Quiet-Told m _ (gate_usage-Quiet e io m id input output)
  Change-Told {m} (cleans io) w = Quiet-Told m _ (cleanup-Quiet e io m k)

  Change-WellFormed :
      {m m' : Manager C} → Change m m' → IsWellFormed m.sticky.store → IsWellFormed m'.sticky.store
  Change-WellFormed {m} (administers io d route r counted) w =
      (handle-Consistent c e io d r m w counted route).sound
  Change-WellFormed {m} (resolves look bind wanted) w =
      (resolve_token-Quiet e k look bind wanted m).sound w
  Change-WellFormed {m} (fails inc get off id ci cg co) w =
      (record_failure-Keeps e inc get off id).after m w
  Change-WellFormed {m} (totals io id input output) w = (usage-Quiet e io m id input output).sound w
  Change-WellFormed {m} (logs io ls) w = (logs-Quiet e io m ls).sound w
  Change-WellFormed {m} (gate_totals io id input output) w =
      (gate_usage-Quiet e io m id input output).sound w
  Change-WellFormed {m} (cleans io) w = (cleanup-Quiet e io m k).sound w

  -- The database is well-formed, and so settled the manager is after the refresh under way.
  abbrev Converging : Live C → Type 0
  Converging s = IsWellFormed s.manager.sticky.store × Settled (landed s.reading s.manager)

  InSync-same : {m m' : Manager C} → m' ≡ m → InSync m' → InSync m
  InSync-same same h = rw (sym same) h

  read-Settled :
      (io : Io) (ts : List RealToken) (m : Manager C)
      → IsSql e
      → IsCalm io
      → (list_active_real_tokens e io m.pool.max_failures m.sticky.store).0 ≡ ok ts
      → Settled (assign_tokens ts (record m { refresh_at = none }))
  unfolding refresh list_active_real_tokens
  read-Settled io ts m sql calm done =
      let m0 = record m { refresh_at = none } in
      let same : (refresh e io m0).1 ≡ assign_tokens ts m0 = ground (arith, done) in
      inl (InSync-same same (refresh-InSync e io m0 sql calm))

  Step-Converging : {s s' : Live C} → IsSql e → Step s s' → Converging s → Converging s'
  Step-Converging {s} sql (works {m} change) (w, h) =
      (Change-WellFormed change w, Told-Settled s.reading s.manager m (Change-Told change w) h)
  Step-Converging {s} sql (reads io ts calm idle due read) (w, h) =
      (w, read-Settled io ts s.manager sql calm read)
  Step-Converging {s} sql (assigns ts pending) (w, h) = (w, rw pending at h)

  History-Converging : {s s' : Live C} → IsSql e → History s s' → Converging s → Converging s'
  History-Converging sql here h = h
  History-Converging sql (next past last) h =
      Step-Converging sql last (History-Converging sql past h)

  -- From a start on a well-formed database whose refresh did not fail, through any history of admin
  -- requests, resolutions, failures, logs and totals of the writer, cleanups and refreshes, each
  -- refresh with anything between its reading of the rows and its assignment of the list but another
  -- refresh: the database is well-formed, and the manager, as it is once the refresh under way has
  -- assigned its list, has a refresh set unless the pool lists exactly the identifiers of the rows
  -- that are active and below the limit. The calls of a failure and of a refresh do not fail, nor does
  -- RowsAffected for the admin API; any other call may. That two refreshes do not overlap is an
  -- assumption: the code does not see to it.
  pub History-IsConverging :
      (io : Io) (db : Db) (cache : C) (max ttl : ℤ) (s : Live C)
      → IsSql e
      → IsCalm io
      → IsWellFormed db
      → History
          (record { manager = (start e io (new_manager db cache max ttl)).1; reading = none })
          s
      → IsConverging (landed s.reading s.manager)
  unfolding start new_manager
  History-IsConverging io db cache max ttl s sql calm w past =
      let first = new_manager db cache max ttl in
      let h =
        History-Converging sql past
          (rw (refresh-store e io first sql calm) w, inl (refresh-InSync e io first sql calm)) in
      record { sound = rw (landed-store s.reading s.manager) h.0; settled = h.1 }
