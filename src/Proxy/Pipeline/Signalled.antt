-- ===== src/Proxy/Pipeline/Signalled.antt =====
-- The handler, the channel and the writer once the context that Setup was given is done.
use claude_gate.Prelude.{
  ◌≡◌, refl, ap, Bool, true, ◌||◌, List, [], ◌∷◌, ◌++◌, leb, ltb, length, Bool-cases, inl, inr,
}
use claude_gate.Store.Engine.{Engine}
use claude_gate.Proxy.Writer.{
  UsageEntry, UsageWriter, FlushIo, Event, entry, tick, closed, cancelled, usage_batch_size,
  with_done, step,
}
use claude_gate.Proxy.Writer.Flush.{done-flush}
use claude_gate.Proxy.Handler.{send_usage, usage_channel_size}
use claude_gate.Proxy.Pipeline.{
  Pipeline, Move, sends, receives, ticks, cancels, elsewhere, store_of, writer_of, receive, move,
}

-- The context of a flush is done if the one of Setup is.
abbrev pub UnderContext : {C : Type 0} → Bool → Move C → Type 0
UnderContext over (receives f) = f.batch.done ≡ over
UnderContext over (ticks f) = f.batch.done ≡ over
UnderContext over (cancels f) = over ≡ true
UnderContext over (sends x) = Unit
UnderContext over (elsewhere m) = Unit

step_done :
    (e : Engine) (f : FlushIo) (ev : Event) (w : UsageWriter)
    → f.batch.done ≡ true
    → (step e f ev w).0.store ≡ w.store
unfolding step
step_done e f (entry x) w done =
    let w' = record w { buf = w.buf ++ x ∷ [] } in
    elim (Bool-cases (leb usage_batch_size (length w'.buf))) [
      | inl full ↦ rw full (done-flush e f w' done)
      | inr room ↦ rw room refl
    ]
step_done e f tick w done = elim (Bool-cases (ltb 0 (length w.buf) || ltb 0 (length w.retry_buf))) [
  | inl some_left ↦ rw some_left (done-flush e f w done)
  | inr nothing ↦ rw nothing refl
]
step_done e f closed w done = done-flush e f w done
step_done e f (cancelled rest) w done =
    done-flush e (with_done f) (record w { buf = w.buf ++ rest }) refl

module _ {C : Type 0} (e : Engine) where
  receive_done :
      (f : FlushIo) (q : List UsageEntry) (s : Pipeline C)
      → f.batch.done ≡ true
      → store_of (receive e f q s) ≡ store_of s
  receive_done f [] s done = refl
  receive_done f (x ∷ rest) s done = step_done e f (entry x) (writer_of s) done

  -- Under a context that is done, neither the handler nor the writer changes the usage logs.
  pub move_done :
      (mv : Move C) (s : Pipeline C)
      → UnderContext true mv
      → (store_of (move e mv s)).usage_logs ≡ (store_of s).usage_logs
  unfolding send_usage
  move_done (sends x) s h = elim (Bool-cases (ltb (length s.handler.queue) usage_channel_size)) [
    | inl room ↦ rw room refl
    | inr full ↦ rw full refl
  ]
  move_done (receives f) s h = elim (Bool-cases s.running) [
    | inl on ↦ simp on (ap (λ db. db.usage_logs) (receive_done f s.handler.queue s h))
    | inr off ↦ simp off refl
  ]
  move_done (ticks f) s h = elim (Bool-cases s.running) [
    | inl on ↦ simp on (ap (λ db. db.usage_logs) (step_done e f tick (writer_of s) h))
    | inr off ↦ simp off refl
  ]
  move_done (cancels f) s h = elim (Bool-cases s.running) [
    | inl on ↦ simp on (
        unfold step in
        ap (λ db. db.usage_logs)
          (done-flush e (with_done f)
            (record (writer_of s) { buf = s.writer.buf ++ s.handler.queue }) refl))
    | inr off ↦ simp off refl
  ]
  move_done (elsewhere m) s h = refl
