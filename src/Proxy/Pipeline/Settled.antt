-- ===== src/Proxy/Pipeline/Settled.antt =====
-- Where the entries of the channel go.
use mathlib.Core.List.{append_assoc, append-nil}
use claude_gate.Prelude.{
  ℕ, ◌≡◌, refl, sym, ap, ◌∙◌, List, [], ◌∷◌, ◌++◌, map, ◌&&◌, ◌||◌, if◌then◌else◌, Bool-cases, inl,
  inr, ltb, leb, length, is_nil,
}
use claude_gate.Prelude.Result.{Result, Result-cases, ok, err, Error}
use claude_gate.Store.Rows.{Db, UsageLog}
use claude_gate.Store.Engine.{Engine}
use claude_gate.Store.Usage.{insert_usage_logs}
use claude_gate.Proxy.Writer.{
  UsageEntry, UsageWriter, FlushIo, Event, entry, tick, closed, cancelled, to_log, pending, flushed,
  flush, step, with_done, usage_batch_size, usage_max_retries,
}
use claude_gate.Proxy.Writer.Flush.{
  batch, nothing-pending, something-pending, flush_some, flush_err,
}
use claude_gate.Proxy.Pipeline.Written.{
  bare, onto, insert_usage_logs-written, update_gates-logs, update_reals-logs,
}

-- An entry that left the writer is in the database, or was given up after four failed flushes.
pub data Fate : Type 0 where
  written discarded : Fate

abbrev pub Settlement : Type 0
Settlement = List (UsageEntry × Fate)

abbrev pub with_fate : Fate → List UsageEntry → Settlement
with_fate fate [] = []
with_fate fate (x ∷ xs) = (x, fate) ∷ with_fate fate xs

abbrev pub entries : Settlement → List UsageEntry
entries [] = []
entries (p ∷ ps) = p.0 ∷ entries ps

-- The logs of the written entries, the latest first, before those that were there.
abbrev pub log_entry : UsageEntry → Fate → List UsageLog → List UsageLog
log_entry x written ls = to_log x ∷ ls
log_entry x discarded ls = ls

abbrev pub logs_of : Settlement → List UsageLog → List UsageLog
logs_of [] ls = ls
logs_of (p ∷ ps) ls = logs_of ps (log_entry p.0 p.1 ls)

entries-with_fate : (fate : Fate) (xs : List UsageEntry) → entries (with_fate fate xs) ≡ xs
entries-with_fate fate [] = refl
entries-with_fate fate (x ∷ xs) = ap (λ ys. x ∷ ys) (entries-with_fate fate xs)

pub entries-append : (ps qs : Settlement) → entries (ps ++ qs) ≡ entries ps ++ entries qs
entries-append [] qs = refl
entries-append (p ∷ ps) qs = ap (λ ys. p.0 ∷ ys) (entries-append ps qs)

pub logs_of-append :
    (ps qs : Settlement) (ls : List UsageLog) → logs_of (ps ++ qs) ls ≡ logs_of qs (logs_of ps ls)
logs_of-append [] qs ls = refl
logs_of-append (p ∷ ps) qs ls = logs_of-append ps qs (log_entry p.0 p.1 ls)

logs_of-written :
    (xs : List UsageEntry) (ls : List UsageLog) → logs_of (with_fate written xs) ls ≡ onto xs ls
unfolding onto
logs_of-written [] ls = refl
logs_of-written (x ∷ xs) ls = logs_of-written xs (to_log x ∷ ls)

logs_of-discarded :
    (xs : List UsageEntry) (ls : List UsageLog) → logs_of (with_fate discarded xs) ls ≡ ls
logs_of-discarded [] ls = refl
logs_of-discarded (x ∷ xs) ls = logs_of-discarded xs ls

-- What a flush settles, by the answer of its batch.
abbrev pub settled_by : Result (Unit {0}) → ℕ → List UsageEntry → Settlement
settled_by (ok u) tries xs = with_fate written xs
settled_by (err x) tries xs = if ltb tries usage_max_retries then [] else with_fate discarded xs

-- The entries before are the settled ones and those after, in order, and the logs are those of the
-- written ones and those before.
pub record Balanced (before : List UsageEntry) (settled : Settlement) (after : List UsageEntry)
    (old new : Db) : Type 0 where
  pub placed : before ≡ entries settled ++ after
  pub logs : map bare new.usage_logs ≡ logs_of settled (map bare old.usage_logs)

module _ (e : Engine) where
  abbrev pub settled_flush : FlushIo → UsageWriter → Settlement
  settled_flush f w = settled_by (batch e f w).0 w.retry_count (pending w)

  failed-Balanced :
      (f : FlushIo) (w : UsageWriter) (xs : List UsageEntry) (x : Error)
      → let w' = flushed e f xs (err x, w.store) w in
        Balanced xs (settled_by (err x) w.retry_count xs) (pending w') w.store w'.store
  failed-Balanced f w xs x = elim (Bool-cases (ltb w.retry_count usage_max_retries)) [
    | inl again ↦ rw again (record { placed = sym (append-nil xs); logs = refl })
    | inr over ↦ rw over (record {
      placed = sym (append-nil _ ∙ entries-with_fate discarded xs);
      logs = sym (logs_of-discarded xs (map bare w.store.usage_logs));
    })
  ]

  written-Balanced :
      (f : FlushIo) (w : UsageWriter) (xs : List UsageEntry) (db : Db)
      → map bare db.usage_logs ≡ onto xs (map bare w.store.usage_logs)
      → let w' = flushed e f xs (ok tt, db) w in
        Balanced xs (with_fate written xs) (pending w') w.store w'.store
  written-Balanced f w xs db grown = record {
    placed = sym (append-nil _ ∙ entries-with_fate written xs);
    logs =
        ap (map bare) (update_reals-logs e f _ _ ∙ update_gates-logs e f _ db)
        ∙ grown
        ∙ sym (logs_of-written xs (map bare w.store.usage_logs));
  }

  flush-Balanced :
      (f : FlushIo) (w : UsageWriter)
      → Balanced (pending w) (settled_flush f w) (pending (flush e f w)) w.store (flush e f w).store
  flush-Balanced f w = elim (Bool-cases (is_nil w.buf && is_nil w.retry_buf)) [
    | inl nothing ↦
        let empty = nothing-pending w.retry_buf w.buf nothing in
        unfold flush insert_usage_logs in
        rw (nothing, empty) (record { placed = refl; logs = refl })
    | inr something ↦
        let some_left = something-pending w.retry_buf w.buf something in
        elim (Result-cases (batch e f w).0) [
          | inr (x, failed) ↦
              rw (flush_err e f w x some_left failed, failed) (failed-Balanced f w (pending w) x)
          | inl (_, done) ↦
              let grown = insert_usage_logs-written e f.batch (pending w) w.store done in
              rw (flush_some e f w some_left, done)
                (written-Balanced f w (pending w) (batch e f w).1 grown)
        ]
  ]

  -- What a round of Run takes in and settles.
  abbrev pub taken_in : Event → List UsageEntry
  taken_in (entry x) = x ∷ []
  taken_in tick = []
  taken_in closed = []
  taken_in (cancelled rest) = rest

  abbrev pub settled_step : FlushIo → Event → UsageWriter → Settlement
  settled_step f (entry x) w =
      let w' = record w { buf = w.buf ++ x ∷ [] } in
      if leb usage_batch_size (length w'.buf) then settled_flush f w' else []
  settled_step f tick w =
      if ltb 0 (length w.buf) || ltb 0 (length w.retry_buf) then settled_flush f w else []
  settled_step f closed w = settled_flush f w
  settled_step f (cancelled rest) w = settled_flush (with_done f) (record w { buf = w.buf ++ rest })

  pub step-Balanced :
      (f : FlushIo) (ev : Event) (w : UsageWriter)
      → Balanced
          (pending w ++ taken_in ev)
          (settled_step f ev w)
          (pending (step e f ev w).0)
          w.store
          (step e f ev w).0.store
  unfolding step
  step-Balanced f (entry x) w =
      let w' = record w { buf = w.buf ++ x ∷ [] } in
      elim (Bool-cases (leb usage_batch_size (length w'.buf))) [
        | inl full ↦ rw (full, append_assoc w.retry_buf w.buf (x ∷ [])) (flush-Balanced f w')
        | inr room ↦
            rw (room, append_assoc w.retry_buf w.buf (x ∷ []))
              (record { placed = refl; logs = refl })
      ]
  step-Balanced f tick w = elim (Bool-cases (ltb 0 (length w.buf) || ltb 0 (length w.retry_buf))) [
    | inl some_left ↦ rw (some_left, append-nil (pending w)) (flush-Balanced f w)
    | inr nothing ↦ rw (nothing, append-nil (pending w)) (record { placed = refl; logs = refl })
  ]
  step-Balanced f closed w = rw (append-nil (pending w)) (flush-Balanced f w)
  step-Balanced f (cancelled rest) w =
      rw (append_assoc w.retry_buf w.buf rest)
        (flush-Balanced (with_done f) (record w { buf = w.buf ++ rest }))
