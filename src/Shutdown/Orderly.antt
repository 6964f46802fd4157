-- ===== src/Shutdown/Orderly.antt =====
-- What holds whenever main of cmd/claude-gate/main.go has returned or is about to.
use claude_gate.Prelude.{
  not, ◌&&◌, ◌||◌, ℕ, zero, suc, ◌≤◌, ◌<◌, ◌≡◌, refl, Bool, true, false, List, [], ◌∷◌, arith, drop,
}
use claude_gate.Store.Engine.{Engine}
use claude_gate.Token.Cache.{CacheApi}
use claude_gate.Proxy.Pipeline.{Pipeline}
use claude_gate.Shutdown.{
  Deferred, deferred_calls, Phase, serving, shutting_down, returned, died, deferring, signalled,
  Service, serve, Ready, run_deferred, Step, works, cleans, loop_returns, evicting_ends, signals,
  shuts_down, times_out, listen_fails, defers, returns, History, here, next,
}

-- With `n` of the deferred calls done, the loop has returned if Stop is among them, and the database
-- is open unless Close is.
pub record Underway (n : ℕ) (ds : List Deferred) (looping db_open : Bool) : Type 0 where
  pub left : ds ≡ drop n deferred_calls
  pub within : n ≤ 5
  pub stopped : 2 < n → looping ≡ false
  pub still_open : n ≤ 4 → db_open ≡ true
  pub closed : 4 < n → db_open ≡ false

abbrev pub Orderly : Phase → Bool → Bool → Type 0
Orderly serving looping db_open = db_open ≡ true
Orderly shutting_down looping db_open = db_open ≡ true
Orderly died looping db_open = db_open ≡ true
Orderly returned looping db_open = (looping ≡ false) × (db_open ≡ false)
Orderly (deferring ds) looping db_open = (n : ℕ) × Underway n ds looping db_open

module _ {C : Type 0} (s : Service C) (d : Deferred) (ds : List Deferred) where
  abbrev after : Service C
  after = run_deferred d s

  defers-Underway :
      (n : ℕ)
      → Ready d s
      → Underway n (d ∷ ds) s.looping s.db_open
      → Underway (suc n) ds after.looping after.db_open
  defers-Underway zero ready u = ground (arith, u.left, u.still_open)
  defers-Underway (suc zero) ready u = ground (arith, u.left, u.still_open)
  defers-Underway (suc (suc zero)) ready u = ground (arith, u.left, u.still_open)
  defers-Underway (suc (suc (suc zero))) ready u = ground (arith, u.left, u.still_open, u.stopped)
  defers-Underway (suc (suc (suc (suc zero)))) ready u = ground (arith, u.left, u.stopped)
  defers-Underway (suc (suc (suc (suc (suc n))))) ready u = ground (arith, u.left)

abbrev pub has_returned : Phase → Bool
has_returned serving = false
has_returned shutting_down = false
has_returned (deferring ds) = false
has_returned returned = true
has_returned died = false

module _ {C : Type 0} (e : Engine) (k : CacheApi C) where
  abbrev IsOrderly : Service C → Type 0
  IsOrderly s = Orderly s.phase s.looping s.db_open

  -- The loop's return takes nothing away.
  loop-Orderly : (p : Phase) (l o : Bool) → signalled p ≡ true → Orderly p l o → Orderly p false o
  loop-Orderly serving l o sig h = cc
  loop-Orderly shutting_down l o sig h = h
  loop-Orderly died l o sig h = h
  loop-Orderly returned l o sig h = (refl, h.1)
  loop-Orderly (deferring ds) l o sig (n, u) = (
    n,
    record {
      left = u.left;
      within = u.within;
      stopped = λ p. refl;
      still_open = u.still_open;
      closed = u.closed;
    },
  )

  finished-Orderly : (n : ℕ) (l o : Bool) → Underway n [] l o → (l ≡ false) × (o ≡ false)
  finished-Orderly zero l o u = cc (u.left)
  finished-Orderly (suc zero) l o u = cc (u.left)
  finished-Orderly (suc (suc zero)) l o u = cc (u.left)
  finished-Orderly (suc (suc (suc zero))) l o u = cc (u.left)
  finished-Orderly (suc (suc (suc (suc zero)))) l o u = cc (u.left)
  finished-Orderly (suc (suc (suc (suc (suc n))))) l o u =
      (u.stopped (omega arith), u.closed (omega arith))

  Step-Orderly : {s s' : Service C} → Step e k s s' → IsOrderly s → IsOrderly s'
  Step-Orderly (works mv alive under) h = h
  Step-Orderly (cleans io alive looping under) h = h
  Step-Orderly {s} (loop_returns alive sig on) h = loop-Orderly s.phase s.looping s.db_open sig h
  Step-Orderly (evicting_ends ds at_ on) h = h
  Step-Orderly {s} (signals at_) h = rw at_ at h
  Step-Orderly {s} (shuts_down at_) h =
      let still : s.db_open ≡ true = rw at_ at h in
      (
        0,
        record {
          left = refl;
          within = omega arith;
          stopped = λ p. absurd (omega arith);
          still_open = λ p. still;
          closed = λ p. absurd (omega arith);
        },
      )
  Step-Orderly (times_out at_) h = rw at_ at h
  Step-Orderly (listen_fails at_) h = rw at_ at h
  Step-Orderly {s} (defers d ds at_ ready) h =
      let (n, u) : (n : ℕ) × Underway n (d ∷ ds) s.looping s.db_open = rw at_ at h in
      (suc n, defers-Underway s d ds n ready u)
  Step-Orderly {s} (returns at_) h =
      let (n, u) : (n : ℕ) × Underway n [] s.looping s.db_open = rw at_ at h in
      finished-Orderly n s.looping s.db_open u

  History-Orderly : {s s' : Service C} → History e k s s' → IsOrderly s → IsOrderly s'
  History-Orderly here h = h
  History-Orderly (next past step) h = Step-Orderly step (History-Orderly past h)

  closed-Orderly : (p : Phase) (l o : Bool) → Orderly p l o → (not o && l) ≡ false
  closed-Orderly serving l o h = ground arith
  closed-Orderly shutting_down l o h = ground arith
  closed-Orderly died l o h = ground arith
  closed-Orderly returned l o h = ground (arith, h.0)
  closed-Orderly (deferring ds) l o (n, u) = ground (arith, u.still_open, u.stopped)

  returned-Orderly : (p : Phase) (l o : Bool) → Orderly p l o → (has_returned p && (l || o)) ≡ false
  returned-Orderly serving l o h = refl
  returned-Orderly shutting_down l o h = refl
  returned-Orderly died l o h = refl
  returned-Orderly returned l o h = ground (arith, h.0, h.1)
  returned-Orderly (deferring ds) l o h = refl

  -- From the start of the server on, whatever happens in whatever order: the database is never closed
  -- while the cleanup loop runs, and main has not returned while the loop runs or the database is open.
  pub serve_orderly :
      (p : Pipeline C) (s : Service C)
      → History e k (serve p) s
      → ((not s.db_open && s.looping) ≡ false)
        × ((has_returned s.phase && (s.looping || s.db_open)) ≡ false)
  unfolding serve
  serve_orderly p s past =
      let h = History-Orderly past refl in
      (closed-Orderly s.phase s.looping s.db_open h, returned-Orderly s.phase s.looping s.db_open h)
