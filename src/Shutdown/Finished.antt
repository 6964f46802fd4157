-- ===== src/Shutdown/Finished.antt =====
-- What the signal means in cmd/claude-gate/main.go: for the usage logs, and for main's return.
use claude_gate.Prelude.{
  ◌≡◌, refl, ap, ◌∙◌, true, false, List, [], ◌∷◌, arith, inl, inr, Bool-cases,
}
use claude_gate.Store.Engine.{Engine, Io}
use claude_gate.Store.Sticky.{delete_expired_sticky_sessions}
use claude_gate.Token.Cache.{CacheApi}
use claude_gate.Token.Sticky.{cleanup_tick}
use claude_gate.Proxy.Pipeline.{Pipeline, store_of}
use claude_gate.Proxy.Pipeline.Signalled.{UnderContext, move_done}
use claude_gate.Shutdown.{
  Deferred, cancel_shutdown, cancel_writer, stop_manager, stop_signals, close_db, deferred_calls,
  Phase, serving, shutting_down, returned, died, deferring, signalled, lives, Service, run_deferred,
  Ready, cleaned, Step, works, cleans, loop_returns, evicting_ends, signals, shuts_down, times_out,
  listen_fails, defers, returns, History, here, next,
}
use claude_gate.Store.Rows.{UsageLog}

module _ {C : Type 0} where
  abbrev pub logs : Service C → List UsageLog
  logs s = (store_of s.pipeline).usage_logs

  deferred-pipeline : (d : Deferred) (s : Service C) → (run_deferred d s).pipeline ≡ s.pipeline
  deferred-pipeline cancel_shutdown s = refl
  deferred-pipeline cancel_writer s = refl
  deferred-pipeline stop_manager s = refl
  deferred-pipeline stop_signals s = refl
  deferred-pipeline close_db s = refl

  deferred-looping : (d : Deferred) (s : Service C) → (run_deferred d s).looping ≡ s.looping
  deferred-looping cancel_shutdown s = refl
  deferred-looping cancel_writer s = refl
  deferred-looping stop_manager s = refl
  deferred-looping stop_signals s = refl
  deferred-looping close_db s = refl

module _ {C : Type 0} (e : Engine) (k : CacheApi C) where
  cleaned-logs :
      (io : Io) (p : Pipeline C)
      → (store_of (cleaned e k io p)).usage_logs ≡ (store_of p).usage_logs
  unfolding cleanup_tick delete_expired_sticky_sessions
  cleaned-logs io p = ground arith

  Step-logs :
      {s s' : Service C}
      → Step e k s s'
      → signalled s.phase ≡ true
      → (logs s' ≡ logs s) × (signalled s'.phase ≡ true)
  Step-logs {s} (works mv alive under) sig =
      let under_done : UnderContext true mv = rw sig at under in
      (move_done e mv s.pipeline under_done, sig)
  Step-logs {s} (cleans io alive looping under) sig = (cleaned-logs io s.pipeline, sig)
  Step-logs (loop_returns alive gone on) sig = (refl, sig)
  Step-logs (evicting_ends ds at_ on) sig = (refl, sig)
  Step-logs (signals at_) sig = (refl, refl)
  Step-logs (shuts_down at_) sig = (refl, refl)
  Step-logs (times_out at_) sig = (refl, refl)
  Step-logs (listen_fails at_) sig = (refl, refl)
  Step-logs {s} (defers d ds at_ ready) sig =
      (ap (λ p. (store_of p).usage_logs) (deferred-pipeline d s), refl)
  Step-logs (returns at_) sig = (refl, refl)

  History-logs :
      {s s' : Service C}
      → History e k s s'
      → signalled s.phase ≡ true
      → (logs s' ≡ logs s) × (signalled s'.phase ≡ true)
  History-logs here sig = (refl, sig)
  History-logs (next past step) sig =
      let before = History-logs past sig in
      let last = Step-logs step before.1 in (last.0 ∙ before.0, last.1)

  -- From the signal on no usage log is written, whatever the handler, the writer and the rest of the
  -- program still do: what the writer held, what was in the channel and what the requests that are
  -- still served send is lost.
  pub signalled_writes_nothing :
      (s s' : Service C) → signalled s.phase ≡ true → History e k s s' → logs s' ≡ logs s
  signalled_writes_nothing s s' sig past = (History-logs past sig).0

  onward : {s s' s'' : Service C} → History e k s s' → History e k s' s'' → History e k s s''
  onward past here = past
  onward past (next more step) = next (onward past more) step

  -- Main has returned after some further steps.
  abbrev pub Returns : Service C → Type 0
  Returns s = (s' : Service C) × History e k s s' × (s'.phase ≡ returned)

  after-Step : {s s' : Service C} → Step e k s s' → Returns s' → Returns s
  after-Step step (s'', more, done) = (s'', onward (next here step) more, done)

  -- Main returns from wherever these deferred calls are left and the cleanup loop has returned.
  abbrev Drained : List Deferred → Type 0
  Drained ds = (s : Service C) → s.phase ≡ deferring ds → s.looping ≡ false → Returns s

  goes_on :
      (d : Deferred) (ds : List Deferred) (s : Service C)
      → Drained ds
      → s.phase ≡ deferring (d ∷ ds)
      → s.looping ≡ false
      → Ready d s
      → Returns s
  goes_on d ds s rest at_ off ready =
      after-Step (defers d ds at_ ready) (
        rest (record (run_deferred d s) { phase = deferring ds }) refl (deferred-looping d s ∙ off))

  -- Stop has the cache's loop end first.
  stopped : (ds : List Deferred) → Drained ds → Drained (stop_manager ∷ ds)
  stopped ds rest s at_ off = elim (Bool-cases s.evicting) [
    | inl on ↦
        after-Step (evicting_ends ds at_ on)
          (goes_on stop_manager ds (record s { evicting = false }) rest at_ off (refl, off))
    | inr done ↦ goes_on stop_manager ds s rest at_ off (done, off)
  ]

  drained : (ds : List Deferred) → Drained ds
  drained [] s at_ off = (_, next here (returns at_), refl)
  drained (cancel_shutdown ∷ ds) s at_ off = goes_on cancel_shutdown ds s (drained ds) at_ off tt
  drained (cancel_writer ∷ ds) s at_ off = goes_on cancel_writer ds s (drained ds) at_ off tt
  drained (stop_manager ∷ ds) s at_ off = stopped ds (drained ds) s at_ off
  drained (stop_signals ∷ ds) s at_ off = goes_on stop_signals ds s (drained ds) at_ off tt
  drained (close_db ∷ ds) s at_ off = goes_on close_db ds s (drained ds) at_ off tt

  unlooped :
      (s : Service C)
      → s.looping ≡ false
      → (p : Phase) → s.phase ≡ p
      → signalled p ≡ true
      → lives p ≡ true
      → Returns s
  unlooped s off serving at_ sig alive = cc
  unlooped s off shutting_down at_ sig alive =
      after-Step (shuts_down at_)
        (drained deferred_calls (record s { phase = deferring deferred_calls }) refl off)
  unlooped s off (deferring ds) at_ sig alive = drained ds s at_ off
  unlooped s off returned at_ sig alive = cc
  unlooped s off died at_ sig alive = cc

  -- Once the signal has come, main can always go on to its return, wherever it stands in Shutdown or
  -- in the deferred calls: Stop waits for the cache's own loop, which is taken to end once cache.Stop is
  -- called, and then for the cleanup loop, which can return as its context is done.
  pub signalled-Returns :
      (s : Service C) → signalled s.phase ≡ true → lives s.phase ≡ true → Returns s
  signalled-Returns s sig alive = elim (Bool-cases s.looping) [
    | inl on ↦
        after-Step (loop_returns alive sig on)
          (unlooped (record s { looping = false }) refl s.phase refl sig alive)
    | inr off ↦ unlooped s off s.phase refl sig alive
  ]
