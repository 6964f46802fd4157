-- ===== src/Store/Usage.antt =====
-- internal/store/usage.go.
use claude_gate.Prelude.{
  ℕ, suc, String, Bool, not, Option, none, some, List, [], ◌∷◌, map, ◌==◌, ◌&&◌, text_lt,
  if◌then◌else◌, length, take, drop, ℤ, pos, negsuc,
}
use claude_gate.Prelude.Result.{Result, ok, err, foreign_key, engine}
use claude_gate.Prelude.Exec.{Exec, pure, lift, gets, wrapping, ◌>>=◌, ◌>>◌}
use claude_gate.Store.Table.{select}
use claude_gate.Store.Rows.{Db, UsageLog}
use claude_gate.Store.Engine.{Engine, Io, statement, begin_tx, prepare_stmt, read_rows, call}
use claude_gate.Store.Statements.{in_tx}
use claude_gate.Store.Sticky.{has_parents}

-- The INSERT of a log: the row gets the next identifier and datetime('now'), whatever the struct
-- holds there.
unfoldable pub insert_log : Engine → Io → UsageLog → Exec Db (Unit {0})
insert_log e io log db =
    if has_parents db log.gate_token_id log.real_token_id
    then (
      ok tt,
      record db {
        usage_logs =
            record log { id = db.next_log_id; created_at = e.datetime io.now } ∷ db.usage_logs;
        next_log_id = suc db.next_log_id;
      },
    )
    else (err foreign_key, db)

unfoldable pub insert_usage_log : Engine → Io → UsageLog → Exec Db (Unit {0})
unfolding insert_log
insert_usage_log e io log =
    wrapping "insert usage log" (do lift (call io (statement 0)); insert_log e io log)

-- The loop of InsertUsageLogs over the prepared statement; `n` is the number of the execution.
unfoldable pub insert_each : Engine → Io → ℕ → List UsageLog → Exec Db (Unit {0})
unfolding insert_log
insert_each e io n [] = pure tt
insert_each e io n (log ∷ logs) = do
  wrapping "exec insert" (do lift (call io (statement n)); insert_log e io log)
  insert_each e io (suc n) logs

unfoldable pub insert_usage_logs : Engine → Io → List UsageLog → Exec Db (Unit {0})
unfolding in_tx insert_each
insert_usage_logs e io [] = pure tt
insert_usage_logs e io (log ∷ logs) = do
  wrapping "begin tx" (lift (call io begin_tx))
  in_tx io
      (do wrapping "prepare stmt" (lift (call io prepare_stmt)); insert_each e io 0 (log ∷ logs))

-- The struct UsageStats.
pub record UsageStats : Type 0 where
  pub total_input_tokens : ℕ
  pub total_output_tokens : ℕ
  pub cache_creation_input_tokens : ℕ
  pub cache_read_input_tokens : ℕ
  pub request_count : ℕ

abbrev summed : Option ℕ → Result ℕ
summed none = err (engine "integer overflow")
summed (some n) = ok n

-- COALESCE(SUM(column), 0).
abbrev total : Engine → (UsageLog → ℕ) → List UsageLog → Result ℕ
total e column [] = ok 0
total e column (l ∷ ls) = summed (e.sum (map column (l ∷ ls)))

unfoldable pub query_usage_stats : Engine → Io → (UsageLog → Bool) → Exec Db UsageStats
query_usage_stats e io where_clause = do
  lift (call io (statement 0))
  rows ← gets (λ db. select where_clause db.usage_logs)
  input ← lift (total e (λ l. l.input_tokens) rows)
  output ← lift (total e (λ l. l.output_tokens) rows)
  creation ← lift (total e (λ l. l.cache_creation_input_tokens) rows)
  cached ← lift (total e (λ l. l.cache_read_input_tokens) rows)
  pure (record {
    total_input_tokens = input;
    total_output_tokens = output;
    cache_creation_input_tokens = creation;
    cache_read_input_tokens = cached;
    request_count = length rows;
  })

-- `created_at >= ?`.
abbrev pub created_since : Engine → ℕ → UsageLog → Bool
created_since e since l = not (text_lt l.created_at (e.bind_time since))

unfoldable pub get_usage_stats : Engine → Io → ℕ → Exec Db UsageStats
unfolding query_usage_stats
get_usage_stats e io since = query_usage_stats e io (created_since e since)

unfoldable pub get_usage_stats_by_real_token : Engine → Io → String → ℕ → Exec Db UsageStats
unfolding query_usage_stats
get_usage_stats_by_real_token e io id since =
    query_usage_stats e io (λ l. l.real_token_id == id && created_since e since l)

unfoldable pub get_usage_stats_by_gate_token : Engine → Io → String → ℕ → Exec Db UsageStats
unfolding query_usage_stats
get_usage_stats_by_gate_token e io id since =
    query_usage_stats e io (λ l. l.gate_token_id == id && created_since e since l)

-- `LIMIT ? OFFSET ?`: a negative limit is none, a negative offset is zero.
abbrev pub limited : ℤ → List UsageLog → List UsageLog
limited (pos n) ls = take n ls
limited (negsuc n) ls = ls

abbrev pub offset_by : ℤ → List UsageLog → List UsageLog
offset_by (pos n) ls = drop n ls
offset_by (negsuc n) ls = ls

-- `newest_first` is what ORDER BY created_at DESC gives in this query, which for equal times is not
-- defined.
unfoldable pub list_usage_logs :
    (List UsageLog → List UsageLog) → Io → ℤ → ℤ → Exec Db (List UsageLog)
list_usage_logs newest_first io limit offset = do
  wrapping "list usage logs" (lift (call io (statement 0)))
  lift (call io read_rows)
  gets (λ db. limited limit (offset_by offset (newest_first db.usage_logs)))
