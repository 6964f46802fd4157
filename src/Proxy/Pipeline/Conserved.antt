-- ===== src/Proxy/Pipeline/Conserved.antt =====
-- Every interleaving of the handler and the writer.
use mathlib.Core.List.{append_assoc, append-nil}
use claude_gate.Prelude.{
  ◌%◌, ◌^◌, String, ◌≡◌, refl, sym, ap, ◌∙◌, List, [], ◌∷◌, ◌++◌, map, arith, Option, some,
  if◌then◌else◌, Bool-cases, Option-cases, inl, inr, ltb, length, ◌≤◌,
}
use claude_gate.Store.Rows.{Db}
use claude_gate.Store.Engine.{Engine}
use claude_gate.Token.Manager.{Manager}
use claude_gate.Proxy.Writer.{
  UsageEntry, FlushIo, Event, entry, tick, cancelled, pending, new_usage_writer,
}
use claude_gate.Proxy.Handler.{send_usage, usage_channel_size, dropped_count, new_proxy_handler}
use claude_gate.Proxy.Pipeline.{
  Pipeline, Move, sends, receives, ticks, cancels, elsewhere, setup, store_of, writer_of, round,
  receive, move, moved,
}
use claude_gate.Proxy.Pipeline.Channel.{refused, moved-room, moved-dropped}
use claude_gate.Proxy.Pipeline.Written.{bare}
use claude_gate.Proxy.Pipeline.Settled.{
  Settlement, entries, logs_of, entries-append, logs_of-append, Balanced, settled_step, taken_in,
  step-Balanced,
}

-- What a longer tail does, and two balances in a row.
Balanced-more :
    (b : List UsageEntry) (st : Settlement) (a rest : List UsageEntry) (old new : Db)
    → Balanced b st a old new
    → Balanced (b ++ rest) st (a ++ rest) old new
Balanced-more b st a rest old new h = record {
  placed = ap (λ xs. xs ++ rest) h.placed ∙ append_assoc (entries st) a rest;
  logs = h.logs;
}

Balanced-then :
    (b : List UsageEntry) (st st' : Settlement) (a a' more : List UsageEntry) (old mid new : Db)
    → Balanced b st a old mid
    → Balanced (a ++ more) st' a' mid new
    → Balanced (b ++ more) (st ++ st') a' old new
Balanced-then b st st' a a' more old mid new h k = record {
  placed =
      (Balanced-more b st a more old mid h).placed
      ∙ ap (λ xs. entries st ++ xs) k.placed
      ∙ sym (append_assoc (entries st) (entries st') a')
      ∙ ap (λ xs. xs ++ a') (sym (entries-append st st'));
  logs = k.logs ∙ ap (logs_of st') h.logs ∙ sym (logs_of-append st st' (map bare old.usage_logs));
}

module _ {C : Type 0} where
  -- The entries that the writer holds and those in the channel.
  abbrev pub holding : Pipeline C → List UsageEntry
  holding s = pending s.writer ++ s.handler.queue

  -- The entry that a move puts into the channel.
  abbrev pub accepted_by : Move C → Pipeline C → List UsageEntry
  accepted_by (sends x) s = if ltb (length s.handler.queue) usage_channel_size then x ∷ [] else []
  accepted_by (receives f) s = []
  accepted_by (ticks f) s = []
  accepted_by (cancels f) s = []
  accepted_by (elsewhere m) s = []

  setup_empty :
      (parse : String → Option (String × String)) (m : Manager C) (upstream : String)
      (s : Pipeline C)
      → setup parse m upstream ≡ some s
      → (holding s ≡ [])
        × (store_of s ≡ m.sticky.store)
        × (length s.handler.queue ≡ 0)
        × (s.handler.dropped ≡ 0)
  unfolding setup new_proxy_handler new_usage_writer
  setup_empty parse m upstream s h = elim (Option-cases (parse upstream)) [
    | inl bad ↦ absurd (ground arith)
    | inr (url, good) ↦ (ground arith, ground arith, ground arith, ground arith)
  ]

module _ {C : Type 0} (e : Engine) where
  abbrev pub settled_receive : FlushIo → List UsageEntry → Pipeline C → Settlement
  settled_receive f [] s = []
  settled_receive f (x ∷ rest) s = settled_step e f (entry x) (writer_of s)

  abbrev pub settled_move : Move C → Pipeline C → Settlement
  settled_move (sends x) s = []
  settled_move (receives f) s = if s.running then settled_receive f s.handler.queue s else []
  settled_move (ticks f) s = if s.running then settled_step e f tick (writer_of s) else []
  settled_move (cancels f) s =
      if s.running then settled_step e f (cancelled s.handler.queue) (writer_of s) else []
  settled_move (elsewhere m) s = []

  abbrev MoveBalanced : List UsageEntry → Settlement → Pipeline C → Pipeline C → Type 0
  MoveBalanced acc st s s' = Balanced (holding s ++ acc) st (holding s') (store_of s) (store_of s')

  nothing_done : (s : Pipeline C) → MoveBalanced [] [] s s
  nothing_done s = record { placed = append-nil (holding s); logs = refl }

  round-Balanced :
      (f : FlushIo) (ev : Event) (rest : List UsageEntry) (s : Pipeline C)
      → Balanced
          ((pending s.writer ++ taken_in e ev) ++ rest)
          (settled_step e f ev (writer_of s))
          (holding (round e f ev rest s))
          (store_of s)
          (store_of (round e f ev rest s))
  round-Balanced f ev rest s = Balanced-more _ _ _ rest _ _ (step-Balanced e f ev (writer_of s))

  receive-Balanced :
      (f : FlushIo) (q : List UsageEntry) (s : Pipeline C)
      → s.handler.queue ≡ q
      → MoveBalanced [] (settled_receive f q s) s (receive e f q s)
  receive-Balanced f [] s h = nothing_done s
  receive-Balanced f (x ∷ rest) s h =
      let taken : holding s ++ [] ≡ (pending s.writer ++ x ∷ []) ++ rest =
        append-nil (holding s)
        ∙ ap (λ q. pending s.writer ++ q) h
        ∙ sym (append_assoc (pending s.writer) (x ∷ []) rest) in
      rw taken (round-Balanced f (entry x) rest s)

  move-Balanced :
      (mv : Move C) (s : Pipeline C)
      → MoveBalanced (accepted_by mv s) (settled_move mv s) s (move e mv s)
  unfolding send_usage
  move-Balanced (sends x) s = elim (Bool-cases (ltb (length s.handler.queue) usage_channel_size)) [
    | inl room ↦
        rw room (record {
          placed = append_assoc (pending s.writer) s.handler.queue (x ∷ []);
          logs = refl;
        })
    | inr full ↦ rw full (nothing_done s)
  ]
  move-Balanced (receives f) s = elim (Bool-cases s.running) [
    | inl on ↦ simp on (receive-Balanced f s.handler.queue s refl)
    | inr off ↦ simp off (nothing_done s)
  ]
  move-Balanced (ticks f) s = elim (Bool-cases s.running) [
    | inl on ↦
        let ticked = round-Balanced f tick s.handler.queue s in
        simp on (rw (append-nil (holding s)) (rw (append-nil (pending s.writer)) at ticked))
    | inr off ↦ simp off (nothing_done s)
  ]
  move-Balanced (cancels f) s = elim (Bool-cases s.running) [
    | inl on ↦ simp on (round-Balanced f (cancelled s.handler.queue) [] s)
    | inr off ↦ simp off (nothing_done s)
  ]
  move-Balanced (elsewhere m) s = record { placed = append-nil (holding s); logs = refl }

  -- What a history accepts and settles.
  unfoldable pub accepted : List (Move C) → Pipeline C → List UsageEntry
  accepted [] s = []
  accepted (mv ∷ mvs) s = accepted_by mv s ++ accepted mvs (move e mv s)

  unfoldable pub settled : List (Move C) → Pipeline C → Settlement
  settled [] s = []
  settled (mv ∷ mvs) s = settled_move mv s ++ settled mvs (move e mv s)

  moved-Balanced :
      (mvs : List (Move C)) (s : Pipeline C)
      → MoveBalanced (accepted mvs s) (settled mvs s) s (moved e mvs s)
  unfolding accepted settled moved
  moved-Balanced [] s = nothing_done s
  moved-Balanced (mv ∷ mvs) s =
      let later = moved-Balanced mvs (move e mv s) in
      let now = move-Balanced mv s in
      let both = Balanced-then _ _ _ _ _ (accepted mvs (move e mv s)) _ _ _ now later in
      rw (sym (append_assoc (holding s) (accepted_by mv s) (accepted mvs (move e mv s)))) both

  -- From Setup on, whatever the handler and the writer do in whatever order, whatever fails, and
  -- whatever the rest of the program does to the other tables: each entry that the channel accepted
  -- was written or given up, or is held by the writer or in the channel, once and in the order of
  -- acceptance; the usage logs are those of the written entries before those that were there, but for
  -- the identifier and the time that the database gives; the channel holds at most 1024; and the drop
  -- counter is the number of the sends that found it full, modulo 2 ^ 64.
  pub setup_conserved :
      (parse : String → Option (String × String)) (m : Manager C) (upstream : String)
      (s : Pipeline C) (mvs : List (Move C))
      → setup parse m upstream ≡ some s
      → (accepted mvs s ≡ entries (settled mvs s) ++ holding (moved e mvs s))
        × (map bare (store_of (moved e mvs s)).usage_logs
            ≡ logs_of (settled mvs s) (map bare m.sticky.store.usage_logs))
        × (length (moved e mvs s).handler.queue ≤ usage_channel_size)
        × (dropped_count (moved e mvs s).handler ≡ refused e mvs s % 2 ^ 64)
  setup_conserved parse m upstream s mvs h =
      let init = setup_empty parse m upstream s h in
      let kept = moved-Balanced mvs s in
      (
        ap (λ xs. xs ++ accepted mvs s) (sym init.0) ∙ kept.placed,
        kept.logs ∙ ap (λ db. logs_of (settled mvs s) (map bare db.usage_logs)) init.1,
        moved-room e mvs s (omega (arith, init.2)),
        moved-dropped e mvs s (omega (arith, init.3)) ∙ omega (arith, init.3),
      )
