-- ===== src/Store/Batch.antt =====
-- InsertUsageLogs of internal/store/usage.go: the database after a batch.
use claude_gate.Prelude.{
  ℕ, suc, ◌≡◌, refl, Bool, true, false, ◌&&◌, List, [], ◌∷◌, arith, if◌then◌else◌, Bool-cases, inl,
  inr,
}
use claude_gate.Prelude.Result.{Error, ok, err, foreign_key, wrap}
use claude_gate.Store.Rows.{Db, UsageLog}
use claude_gate.Store.Engine.{Engine, Io, IsCalm, begin_tx, prepare_stmt, commit_tx, statement}
use claude_gate.Store.Statements.{in_tx}
use claude_gate.Store.Sticky.{has_parents}
use claude_gate.Store.Usage.{insert_log, insert_each, insert_usage_logs}

-- Every log of the batch refers to tokens that are there.
unfoldable pub all_parents : Db → List UsageLog → Bool
all_parents db [] = true
all_parents db (l ∷ ls) = has_parents db l.gate_token_id l.real_token_id && all_parents db ls

-- The database with the batch in it, each log under the next identifier and the clock's text.
unfoldable pub logged : Engine → ℕ → List UsageLog → Db → Db
logged e now [] db = db
logged e now (l ∷ ls) db = logged e now ls (record db {
  usage_logs = record l { id = db.next_log_id; created_at = e.datetime now } ∷ db.usage_logs;
  next_log_id = suc db.next_log_id;
})

-- Adding a log leaves the question which logs have parents as it was.
all_parents-logs :
    (db : Db) (ls added : List UsageLog) (n : ℕ)
    → all_parents (record db { usage_logs = added; next_log_id = n }) ls ≡ all_parents db ls
unfolding all_parents
all_parents-logs db [] added n = refl
all_parents-logs db (l ∷ ls) added n = ground (arith, all_parents-logs db ls added n)

module _ (e : Engine) (io : Io) (c : IsCalm io) where
  insert_each-ok :
      (n : ℕ) (ls : List UsageLog) (db : Db)
      → all_parents db ls ≡ true
      → insert_each e io n ls db ≡ (ok tt, logged e io.now ls db)
  unfolding insert_each insert_log all_parents logged
  insert_each-ok n [] db h = refl
  insert_each-ok n (l ∷ ls) db h =
      let next : Db = record db {
        usage_logs =
            record l { id = db.next_log_id; created_at = e.datetime io.now } ∷ db.usage_logs;
        next_log_id = suc db.next_log_id;
      } in
      ground (
        arith,
        c.live,
        c.quiet (statement n),
        insert_each-ok (suc n) ls next,
        all_parents-logs db ls next.usage_logs next.next_log_id,
      )

  insert_each-err :
      (n : ℕ) (ls : List UsageLog) (db : Db)
      → all_parents db ls ≡ false
      → (insert_each e io n ls db).0 ≡ err (wrap "exec insert" foreign_key)
  unfolding insert_each insert_log all_parents
  insert_each-err n [] db h = ground arith
  insert_each-err n (l ∷ ls) db h =
      let next : Db = record db {
        usage_logs =
            record l { id = db.next_log_id; created_at = e.datetime io.now } ∷ db.usage_logs;
        next_log_id = suc db.next_log_id;
      } in
      ground (
        arith,
        c.live,
        c.quiet (statement n),
        insert_each-err (suc n) ls next,
        all_parents-logs db ls next.usage_logs next.next_log_id,
      )

-- Without an engine error, a batch whose logs all refer to tokens that are there is written whole;
-- one log of a token that is gone fails the batch with the foreign key's error, and nothing of the
-- batch is written.
pub insert_usage_logs_exact :
    (e : Engine) (io : Io) (ls : List UsageLog) (db : Db)
    → IsCalm io
    → insert_usage_logs e io ls db ≡ (
        if all_parents db ls
        then (ok tt, logged e io.now ls db)
        else (err (wrap "exec insert" foreign_key), db))
unfolding insert_usage_logs in_tx
insert_usage_logs_exact e io [] db c = unfold all_parents logged in refl
insert_usage_logs_exact e io (l ∷ ls) db c = elim (Bool-cases (all_parents db (l ∷ ls))) [
  | inl held ↦ rw held (
      ground (
        arith,
        c.live,
        c.quiet begin_tx,
        c.quiet prepare_stmt,
        c.quiet commit_tx,
        insert_each-ok e io c 0 (l ∷ ls) db held,
      ))
  | inr orphan ↦ rw orphan (
      ground (
        arith,
        c.live,
        c.quiet begin_tx,
        c.quiet prepare_stmt,
        insert_each-err e io c 0 (l ∷ ls) db orphan,
      ))
]

-- Whatever fails in a batch, the engine, the context or a foreign key, nothing of it is written.
pub insert_usage_logs_atomic :
    (e : Engine) (io : Io) (ls : List UsageLog) (db : Db) (x : Error)
    → (insert_usage_logs e io ls db).0 ≡ err x
    → (insert_usage_logs e io ls db).1 ≡ db
unfolding insert_usage_logs in_tx
insert_usage_logs_atomic e io [] db x h = refl
insert_usage_logs_atomic e io (l ∷ ls) db x h = ground arith
