-- ===== src/Proxy/Writer/Bounds.antt =====
-- How much the writer holds between the events of Run.
use claude_gate.Prelude.{
  ◌+◌, ◌*◌, ◌≤◌, ◌<◌, ◌≡◌, refl, true, false, ◌&&◌, ◌||◌, List, [], ◌∷◌, ◌++◌, arith, ltb, leb,
  length, length-append, is_nil, inl, inr, Bool-cases,
}
use claude_gate.Prelude.Result.{Result, ok, err}
use claude_gate.Store.Rows.{Db}
use claude_gate.Store.Engine.{Engine}
use claude_gate.Proxy.Writer.{
  UsageEntry, UsageWriter, FlushIo, Event, entry, tick, closed, cancelled, usage_max_retries,
  usage_batch_size, flushed, pending, flush, step,
}
use claude_gate.Proxy.Writer.Flush.{batch}

-- A buffer below the batch size, and at most one batch kept for each failed flush in a row.
pub record IsBounded (w : UsageWriter) : Type 0 where
  pub gathered : length w.buf < usage_batch_size
  pub kept : length w.retry_buf ≤ usage_batch_size * w.retry_count
  pub tried : w.retry_count ≤ usage_max_retries

flushed-IsBounded :
    (e : Engine) (f : FlushIo) (all : List UsageEntry) (r : Result (Unit {0})) (db : Db)
    (w : UsageWriter)
    → length all ≤ usage_batch_size * w.retry_count + usage_batch_size
    → IsBounded (flushed e f all (r, db) w)
flushed-IsBounded e f all (ok u) db w h = omega arith
flushed-IsBounded e f all (err x) db w h = ground arith

nil-length : (b r : List UsageEntry) → (is_nil b && is_nil r) ≡ true → length b ≡ 0
nil-length [] r h = refl
nil-length (x ∷ b) r h = cc

flush-IsBounded :
    (e : Engine) (f : FlushIo) (w : UsageWriter)
    → length w.buf ≤ usage_batch_size
    → length w.retry_buf ≤ usage_batch_size * w.retry_count
    → w.retry_count ≤ usage_max_retries
    → IsBounded (flush e f w)
unfolding flush
flush-IsBounded e f w gathered kept tried = elim (Bool-cases (is_nil w.buf && is_nil w.retry_buf)) [
  | inl nothing ↦
      rw (nothing, flush)
        (record {
          gathered = omega (arith, nil-length w.buf w.retry_buf nothing);
          kept = kept;
          tried = tried;
        })
  | inr something ↦
      rw (something, flush)
        (flushed-IsBounded e f (pending w) (batch e f w).0 (batch e f w).1 w
          (omega (arith, length-append w.retry_buf w.buf)))
]

-- As long as Run goes on, its events keep the writer within its bounds: fewer than 100 entries
-- gathered, at most 100 kept for each failed flush in a row, and at most three such flushes.
pub step-IsBounded :
    (e : Engine) (f : FlushIo) (ev : Event) (w : UsageWriter)
    → IsBounded w
    → (step e f ev w).1 ≡ false
    → IsBounded (step e f ev w).0
unfolding step
step-IsBounded e f (entry x) w b go =
    elim (Bool-cases (leb usage_batch_size (length (w.buf ++ x ∷ [])))) [
      | inl full ↦
          rw (full, step)
            (flush-IsBounded e f (record w { buf = w.buf ++ x ∷ [] })
              (omega (arith, length-append w.buf (x ∷ []), b.gathered)) b.kept b.tried)
      | inr room ↦
          rw (room, step) (record { gathered = ground arith; kept = b.kept; tried = b.tried })
    ]
step-IsBounded e f tick w b go =
    elim (Bool-cases (ltb 0 (length w.buf) || ltb 0 (length w.retry_buf))) [
      | inl some_left ↦ rw (some_left, step) (flush-IsBounded e f w (omega arith) b.kept b.tried)
      | inr nothing ↦ rw (nothing, step) b
    ]
step-IsBounded e f closed w b go = cc
step-IsBounded e f (cancelled rest) w b go = cc
