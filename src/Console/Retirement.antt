-- ===== src/Console/Retirement.antt =====
-- The admin API's deletion and deactivation of a real token, and the manager afterwards.
use claude_gate.Prelude.{◌+◌, ◌≤◌, String, ◌≡◌, ◌≢◌, refl, false, some, arith, ℤ}
use claude_gate.Prelude.Result.{ok}
use claude_gate.Prelude.Exec.{Exec}
use claude_gate.Store.Table.{exists}
use claude_gate.Store.Rows.{Db, RealToken}
use claude_gate.Store.Engine.{Engine, Io, IsCalm, IsSql}
use claude_gate.Store.Statements.{in_tx}
use claude_gate.Store.RealTokens.{set_real_token_active}
use claude_gate.Store.Cascade.{real, delete_real_token}
use claude_gate.Token.Cache.{CacheApi}
use claude_gate.Token.Sticky.{StickyManager}
use claude_gate.Token.Manager.{
  Manager, fire_refresh, refresh_pool, resolve_token, pool_refresh_debounce,
}
use claude_gate.Token.Manager.Absent.{
  serves, serves-switched, serves-delete, fire_refresh-absent, resolve_token-absent,
}
use claude_gate.Admin.Http.{AdminRequest, Codecs}
use claude_gate.Admin.Creation.{Draws}
use claude_gate.Admin.Routes.{Route, deletes, deactivates, handle}
use claude_gate.Console.{on_pool_changed}

-- The two ways to take a real token out of service, with their routes and their operations.
pub data Retirement : Type 0 where
  deletion deactivation : Retirement

abbrev pub route_of : Retirement → Route
route_of deletion = deletes real
route_of deactivation = deactivates real

abbrev pub operation_of : Engine → Io → Retirement → String → Exec Db (Unit {0})
operation_of e io deletion id = delete_real_token io id
operation_of e io deactivation id = set_real_token_active e io id false

switched_off :
    (max : ℤ) (e : Engine) (io : Io) (id : String) (db : Db)
    → (set_real_token_active e io id false db).0 ≡ ok tt
    → exists (serves max id) (set_real_token_active e io id false db).1.real_tokens ≡ false
unfolding set_real_token_active
switched_off max e io id db done = ground (arith, serves-switched max id e io.now db.real_tokens)

taken_out :
    (max : ℤ) (io : Io) (id : String) (db : Db)
    → (delete_real_token io id db).0 ≡ ok tt
    → exists (serves max id) (delete_real_token io id db).1.real_tokens ≡ false
unfolding delete_real_token in_tx
taken_out max io id db done = ground (arith, serves-delete max id db.real_tokens)

retired :
    (max : ℤ) (e : Engine) (io : Io) (way : Retirement) (id : String) (db : Db)
    → (operation_of e io way id db).0 ≡ ok tt
    → exists (serves max id) (operation_of e io way id db).1.real_tokens ≡ false
retired max e io deletion id db = taken_out max io id db
retired max e io deactivation id db = switched_off max e io id db

module _ {C : Type 0} (c : Codecs) (e : Engine) (io : Io) (d : Draws) (r : AdminRequest)
    (m : Manager C) where
  -- A route whose operation succeeded has changed the store and set the timer.
  handle-retired :
      (way : Retirement)
      → (operation_of e io way r.id m.sticky.store).0 ≡ ok tt
      → (handle c (on_pool_changed io.now) e io d (route_of way) r m).1 ≡ record m {
        sticky = record m.sticky { store = (operation_of e io way r.id m.sticky.store).1 };
        refresh_at = some (io.now + pool_refresh_debounce);
      }
  unfolding handle refresh_pool
  handle-retired deletion done = ground arith
  handle-retired deactivation done = ground arith

  -- A real token that the admin API deleted or switched off is out of service: when the timer that the
  -- request set has fired, 100ms later or after that, no gate token is resolved to it, not even one
  -- that is bound to it, whatever the sticky manager's cache and database are by then and whatever the
  -- database answers to ResolveToken. The request's own operation succeeded, and the refresh meets no
  -- engine error.
  pub handle-not_resolved :
      (k : CacheApi C) (way : Retirement) (later look bind : Io) (gate : String)
      (s : StickyManager C) (t : RealToken)
      → IsSql e
      → IsCalm later
      → (operation_of e io way r.id m.sticky.store).0 ≡ ok tt
      → io.now + pool_refresh_debounce ≤ later.now
      → (resolve_token e k look bind gate
          (record (fire_refresh e later
            (handle c (on_pool_changed io.now) e io d (route_of way) r m).1) { sticky = s })).0
        ≡ ok t
      → t.id ≢ r.id
  handle-not_resolved k way later look bind wanted s t sql calm done due resolved =
      let after = record m {
        sticky = record m.sticky { store = (operation_of e io way r.id m.sticky.store).1 };
        refresh_at = some (io.now + pool_refresh_debounce);
      } in
      let gone =
        fire_refresh-absent e later after r.id (io.now + pool_refresh_debounce) sql calm refl due
          (retired m.pool.max_failures e io way r.id m.sticky.store done) in
      resolve_token-absent e k look bind wanted (record (fire_refresh e later after) { sticky = s })
        r.id t gone (rw (handle-retired way done) at resolved)
