-- ===== src/Shutdown.antt =====
-- The serving and the end of cmd/claude-gate/main.go: the signal, Shutdown of the HTTP server and the
-- deferred calls, beside the usage writer of internal/proxy and the cleanup loop of
-- internal/token/sticky.go, whose contexts come from the one that the signal ends.
pub mod Orderly
pub mod Finished
use claude_gate.Prelude.{◌≡◌, Bool, true, false, List, [], ◌∷◌}
use claude_gate.Store.Engine.{Engine, Io}
use claude_gate.Token.Cache.{CacheApi}
use claude_gate.Token.Sticky.{cleanup_tick}
use claude_gate.Token.Manager.{Manager}
use claude_gate.Proxy.Pipeline.{Pipeline, Move, move}
use claude_gate.Proxy.Pipeline.Signalled.{UnderContext}

-- What main defers: the cancel of the shutdown's context, cancelUsageWriter, tokenMgr.Stop, stop and
-- db.Close.
pub data Deferred : Type 0 where
  cancel_shutdown cancel_writer stop_manager stop_signals close_db : Deferred

-- The order in which the deferred calls run, the last one deferred first.
abbrev pub deferred_calls : List Deferred
deferred_calls = cancel_shutdown ∷ cancel_writer ∷ stop_manager ∷ stop_signals ∷ close_db ∷ []

-- Where main stands: before the signal, in Shutdown, with these deferred calls left, returned, or
-- ended by log.Fatalf, which runs no deferred call.
pub data Phase : Type 0 where
  serving shutting_down returned died : Phase
  deferring : List Deferred → Phase

-- The signal has come: the context is done.
abbrev pub signalled : Phase → Bool
signalled serving = false
signalled shutting_down = true
signalled (deferring ds) = true
signalled returned = true
signalled died = true

-- Whether the process runs.
abbrev pub lives : Phase → Bool
lives serving = true
lives shutting_down = true
lives (deferring ds) = true
lives returned = false
lives died = false

-- `looping` tells that dbCleanupLoop has not returned, `evicting` that the cache's own loop, which
-- cache.Start runs, has not, and `db_open` that db.Close has not been called.
pub record Service (C : Type 0) : Type 0 where
  pub pipeline : Pipeline C
  pub looping : Bool
  pub evicting : Bool
  pub db_open : Bool
  pub phase : Phase

-- main after tokenMgr.Start and Setup.
unfoldable pub serve : {C : Type 0} → Pipeline C → Service C
serve p = record { pipeline = p; looping = true; evicting = true; db_open = true; phase = serving }

module _ {C : Type 0} where
  -- What a deferred call waits for: Stop first waits in cache.Stop for the cache's loop to end, and
  -- then for the cleanup loop to return.
  abbrev pub Ready : Deferred → Service C → Type 0
  Ready cancel_shutdown s = Unit
  Ready cancel_writer s = Unit
  Ready stop_manager s = (s.evicting ≡ false) × (s.looping ≡ false)
  Ready stop_signals s = Unit
  Ready close_db s = Unit

  -- What it changes. The contexts that are cancelled are done already.
  abbrev pub run_deferred : Deferred → Service C → Service C
  run_deferred cancel_shutdown s = s
  run_deferred cancel_writer s = s
  run_deferred stop_manager s = s
  run_deferred stop_signals s = s
  run_deferred close_db s = record s { db_open = false }

  abbrev pub on_manager : Manager C → Pipeline C → Pipeline C
  on_manager m p = record p { handler = record p.handler { manager = m } }

module _ {C : Type 0} (e : Engine) (k : CacheApi C) where
  -- One tick of the cleanup loop.
  abbrev pub cleaned : Io → Pipeline C → Pipeline C
  cleaned io p =
      let m = p.handler.manager in on_manager (record m { sticky = cleanup_tick e k io m.sticky }) p

  -- One thing that happens: a move of the proxy or the writer; a tick of the cleanup loop, or its
  -- return; the end of the cache's loop, once main has come to Stop, which calls cache.Stop; the
  -- signal; the end of Shutdown, in time or not; an error of ListenAndServe; the next deferred
  -- call; the return of main.
  pub data Step (s : Service C) : Service C → Type 0 where
    works :
        (mv : Move C)
        → lives s.phase ≡ true
        → UnderContext (signalled s.phase) mv
        → Step s (record s { pipeline = move e mv s.pipeline })
    cleans :
        (io : Io)
        → lives s.phase ≡ true
        → s.looping ≡ true
        → io.done ≡ signalled s.phase
        → Step s (record s { pipeline = cleaned io s.pipeline })
    loop_returns :
        lives s.phase ≡ true
        → signalled s.phase ≡ true
        → s.looping ≡ true
        → Step s (record s { looping = false })
    evicting_ends :
        (ds : List Deferred)
        → s.phase ≡ deferring (stop_manager ∷ ds)
        → s.evicting ≡ true
        → Step s (record s { evicting = false })
    signals : s.phase ≡ serving → Step s (record s { phase = shutting_down })
    shuts_down : s.phase ≡ shutting_down → Step s (record s { phase = deferring deferred_calls })
    times_out : s.phase ≡ shutting_down → Step s (record s { phase = died })
    listen_fails : s.phase ≡ serving → Step s (record s { phase = died })
    defers :
        (d : Deferred) (ds : List Deferred)
        → s.phase ≡ deferring (d ∷ ds)
        → Ready d s
        → Step s (record (run_deferred d s) { phase = deferring ds })
    returns : s.phase ≡ deferring [] → Step s (record s { phase = returned })

  pub data History (s : Service C) : Service C → Type 0 where
    here : History s s
    next : {s' s'' : Service C} → History s s' → Step s' s'' → History s s''
