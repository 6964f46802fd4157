-- ===== src/Proxy/Pipeline/Channel.antt =====
-- The channel between the handler and the writer: what it holds, and what is dropped.
use claude_gate.Prelude.{
  ℕ, ◌+◌, ◌≡◌, refl, ap, List, [], ◌∷◌, arith, if◌then◌else◌, Bool-cases, inl, inr, ltb, length,
  ◌<◌, ◌%◌, ◌^◌, length-append, ◌≤◌,
}
use claude_gate.Store.Engine.{Engine}
use claude_gate.Proxy.Writer.{UsageEntry, FlushIo}
use claude_gate.Proxy.Handler.{send_usage, usage_channel_size}
use claude_gate.Proxy.Pipeline.{
  Pipeline, Move, sends, receives, ticks, cancels, elsewhere, receive, move, moved,
}

module _ {C : Type 0} (e : Engine) where
  move-room :
      (mv : Move C) (s : Pipeline C)
      → length s.handler.queue ≤ usage_channel_size
      → length (move e mv s).handler.queue ≤ usage_channel_size
  unfolding send_usage
  move-room (sends x) s h = ground (arith, length-append s.handler.queue (x ∷ []))
  move-room (receives f) s h = elim (Bool-cases s.running) [
    | inl on ↦ simp on (shorter f s.handler.queue s refl h)
    | inr off ↦ simp off h
  ]
    where
      shorter :
          (f : FlushIo) (q : List UsageEntry) (s : Pipeline C)
          → s.handler.queue ≡ q
          → length s.handler.queue ≤ usage_channel_size
          → length (receive e f q s).handler.queue ≤ usage_channel_size
      shorter f [] s h k = k
      shorter f (x ∷ rest) s h k = omega (arith, ap length h)
  move-room (ticks f) s h = ground arith
  move-room (cancels f) s h = ground arith
  move-room (elsewhere m) s h = h

  pub moved-room :
      (mvs : List (Move C)) (s : Pipeline C)
      → length s.handler.queue ≤ usage_channel_size
      → length (moved e mvs s).handler.queue ≤ usage_channel_size
  unfolding moved
  moved-room [] s h = h
  moved-room (mv ∷ mvs) s h = moved-room mvs (move e mv s) (move-room mv s h)

  -- The sends that find the channel full.
  abbrev pub refused_by : Move C → Pipeline C → ℕ
  refused_by (sends x) s = if ltb (length s.handler.queue) usage_channel_size then 0 else 1
  refused_by (receives f) s = 0
  refused_by (ticks f) s = 0
  refused_by (cancels f) s = 0
  refused_by (elsewhere m) s = 0

  unfoldable pub refused : List (Move C) → Pipeline C → ℕ
  refused [] s = 0
  refused (mv ∷ mvs) s = refused_by mv s + refused mvs (move e mv s)

  receive-dropped :
      (f : FlushIo) (q : List UsageEntry) (s : Pipeline C)
      → (receive e f q s).handler.dropped ≡ s.handler.dropped
  receive-dropped f [] s = refl
  receive-dropped f (x ∷ rest) s = refl

  move-dropped :
      (mv : Move C) (s : Pipeline C)
      → s.handler.dropped < 2 ^ 64
      → (move e mv s).handler.dropped ≡ (s.handler.dropped + refused_by mv s) % 2 ^ 64
  unfolding send_usage
  move-dropped (sends x) s h = ground arith
  move-dropped (receives f) s h = ground (arith, receive-dropped f s.handler.queue s)
  move-dropped (ticks f) s h = ground arith
  move-dropped (cancels f) s h = ground arith
  move-dropped (elsewhere m) s h = ground arith

  pub moved-dropped :
      (mvs : List (Move C)) (s : Pipeline C)
      → s.handler.dropped < 2 ^ 64
      → (moved e mvs s).handler.dropped ≡ (s.handler.dropped + refused mvs s) % 2 ^ 64
  unfolding moved refused
  moved-dropped [] s h = ground arith
  moved-dropped (mv ∷ mvs) s h =
      let one = move-dropped mv s h in
      let rest = moved-dropped mvs (move e mv s) (omega (arith, one)) in omega (arith, one, rest)
