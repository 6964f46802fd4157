-- ===== src/Proxy/Writer/Flush.antt =====
-- What a flush writes, keeps and drops.
use claude_gate.Prelude.{
  ◌+◌, ◌≡◌, ◌≢◌, refl, ap, ◌∙◌, true, false, ◌&&◌, List, [], ◌∷◌, ◌++◌, map, arith, ltb,
  if◌then◌else◌, is_nil, inl, inr, Bool-cases,
}
use claude_gate.Prelude.Result.{Error, Result, err, canceled, wrap}
use claude_gate.Store.Rows.{Db, UsageLog}
use claude_gate.Store.Engine.{Engine, Io}
use claude_gate.Store.Usage.{insert_usage_logs}
use claude_gate.Store.Batch.{insert_usage_logs_atomic}
use claude_gate.Proxy.Writer.{
  UsageEntry, UsageWriter, FlushIo, cancelled, usage_max_retries, to_log, flushed, pending, flush,
  with_done, step,
}

-- The answer of the batch of a flush.
abbrev pub batch : Engine → FlushIo → UsageWriter → Result (Unit {0}) × Db
batch e f w = insert_usage_logs e f.batch (map to_log (pending w)) w.store

pub nothing-pending : (r b : List UsageEntry) → (is_nil b && is_nil r) ≡ true → r ++ b ≡ []
nothing-pending [] [] h = refl
nothing-pending [] (x ∷ b) h = cc
nothing-pending (y ∷ r) [] h = cc
nothing-pending (y ∷ r) (x ∷ b) h = cc

pub something-pending : (r b : List UsageEntry) → (is_nil b && is_nil r) ≡ false → r ++ b ≢ []
something-pending [] [] h e = cc
something-pending [] (x ∷ b) h e = cc
something-pending (y ∷ r) b h e = cc

module _ (e : Engine) (f : FlushIo) (w : UsageWriter) where
  pub flush_some : pending w ≢ [] → flush e f w ≡ flushed e f (pending w) (batch e f w) w
  unfolding flush
  flush_some some_left = elim (Bool-cases (is_nil w.buf && is_nil w.retry_buf)) [
    | inl nothing ↦ absurd (some_left (nothing-pending w.retry_buf w.buf nothing))
    | inr something ↦ rw (something, flush)
  ]

  pub flush_err :
      (x : Error)
      → pending w ≢ []
      → (batch e f w).0 ≡ err x
      → flush e f w ≡ flushed e f (pending w) (err x, w.store) w
  flush_err x some_left h =
      let same = insert_usage_logs_atomic e f.batch (map to_log (pending w)) w.store x h in
      flush_some some_left
      ∙ ap (λ a. flushed e f (pending w) a w) {y = (err x, w.store)} (ground (arith, same))

  -- What a flush leaves whose batch fails.
  pub failed_lem :
      (x : Error)
      → pending w ≢ []
      → (batch e f w).0 ≡ err x
      → ((flush e f w).store ≡ w.store)
        × ((flush e f w).buf ≡ [])
        × ((flush e f w).retry_buf
            ≡ (if ltb w.retry_count usage_max_retries then pending w else []))
        × ((flush e f w).retry_count
            ≡ (if ltb w.retry_count usage_max_retries then w.retry_count + 1 else 0))
  failed_lem x some_left h = rw (flush_err x some_left h) (ground arith)

-- Whatever the batch is, unless it is empty, it fails.
abbrev pub Fails : Engine → FlushIo → Type 0
Fails e f =
    (ls : List UsageLog) (db : Db)
    → ls ≢ []
    → (x : Error) × ((insert_usage_logs e f.batch ls db).0 ≡ err x)

module _ (e : Engine) where
  -- Flushes one after the other, with nothing that is gathered in between.
  unfoldable pub flush_all : List FlushIo → UsageWriter → UsageWriter
  unfolding flush
  flush_all [] w = w
  flush_all (f ∷ fs) w = flush_all fs (flush e f w)

done-batch :
    (e : Engine) (io : Io) (xs : List UsageEntry) (db : Db)
    → xs ≢ []
    → io.done ≡ true
    → (insert_usage_logs e io (map to_log xs) db).0 ≡ err (wrap "begin tx" canceled)
unfolding insert_usage_logs
done-batch e io [] db some_left done = absurd (some_left refl)
done-batch e io (x ∷ xs) db some_left done = ground arith

-- A flush whose context is done writes nothing.
pub done-flush :
    (e : Engine) (f : FlushIo) (w : UsageWriter)
    → f.batch.done ≡ true
    → (flush e f w).store ≡ w.store
unfolding flush
done-flush e f w done = from (pending w) refl
  where
    from : (xs : List UsageEntry) → pending w ≡ xs → (flush e f w).store ≡ w.store
    from [] nothing = elim (Bool-cases (is_nil w.buf && is_nil w.retry_buf)) [
      | inl none_left ↦ rw (none_left, flush) refl
      | inr something ↦ absurd (something-pending w.retry_buf w.buf something nothing)
    ]
    from (x ∷ xs) something =
        let some_left : pending w ≢ [] = λ h. cc in
        (failed_lem e f w (wrap "begin tx" canceled) some_left
          (done-batch e f.batch (pending w) w.store some_left done)).0

-- On cancellation, what drain read and what was gathered is flushed under the context that is already
-- done: the batch cannot begin, so nothing is written, whatever the engine would have answered, and
-- Run returns.
pub cancelled_writes_nothing :
    (e : Engine) (f : FlushIo) (rest : List UsageEntry) (w : UsageWriter)
    → ((step e f (cancelled rest) w).0.store ≡ w.store) × ((step e f (cancelled rest) w).1 ≡ true)
unfolding step
cancelled_writes_nothing e f rest w =
    (done-flush e (with_done f) (record w { buf = w.buf ++ rest }) refl, refl)
