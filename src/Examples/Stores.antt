-- ===== src/Examples/Stores.antt =====
-- The theorems on the store at the sample database.
use claude_gate.Prelude.{◌≡◌, refl, true, List, [], ◌∷◌, if◌then◌else◌, eqb}
use claude_gate.Prelude.Result.{ok, err, no_rows, foreign_key, canceled, wrap}
use claude_gate.Store.Table.{exists}
use claude_gate.Store.Rows.{UsageLog}
use claude_gate.Store.Engine.{Io}
use claude_gate.Store.Statements.{in_tx}
use claude_gate.Store.Cascade.{real, gate, token_count, delete_real_token, delete_gate_token}
use claude_gate.Store.Usage.{insert_log, insert_each, insert_usage_logs}
use claude_gate.Store.WellFormed.{IsWellFormed}
use claude_gate.Store.Requests.{
  Request, deletes_real, logs_usage, binds_sticky, serve_all, serve_all-IsWellFormed,
}
use claude_gate.Store.Deletion.{purged, delete_token_exact, delete_token_atomic}
use claude_gate.Store.Batch.{all_parents, logged, insert_usage_logs_exact}
use claude_gate.Examples.{simple_engine, calm, calm-IsCalm, sample, sample-IsWellFormed, log_1}

abbrev some_requests : List (Io × Request)
some_requests =
    (calm 1, logs_usage log_1)
    ∷ (calm 2, binds_sticky "g1" "r2" 9)
    ∷ (calm 3, deletes_real "r1")
    ∷ []

serve_all_example : IsWellFormed (serve_all simple_engine some_requests sample)
serve_all_example = serve_all-IsWellFormed simple_engine some_requests sample sample-IsWellFormed

delete_token_exact_example :
    (delete_real_token (calm 1) "r1" sample ≡ (
      if eqb (token_count real "r1" sample) 0
      then (err no_rows, sample)
      else (ok tt, purged real "r1" sample)))
    × (delete_gate_token (calm 1) "r1" sample ≡ (
        if eqb (token_count gate "r1" sample) 0
        then (err no_rows, sample)
        else (ok tt, purged gate "r1" sample)))
delete_token_exact_example = delete_token_exact (calm 1) "r1" sample (calm-IsCalm 1)

-- The context of the call is done.
abbrev done_io : Io
done_io = record (calm 1) { done = true }

delete_token_atomic_example :
    ((delete_real_token done_io "r1" sample).0 ≡ err (wrap "begin tx" canceled)
      → (delete_real_token done_io "r1" sample).1 ≡ sample)
    × ((delete_gate_token done_io "r1" sample).0 ≡ err (wrap "begin tx" canceled)
        → (delete_gate_token done_io "r1" sample).1 ≡ sample)
delete_token_atomic_example = delete_token_atomic done_io "r1" sample (wrap "begin tx" canceled)

abbrev two_logs : List UsageLog
two_logs = log_1 ∷ record log_1 { gate_token_id = "gone" } ∷ []

insert_usage_logs_exact_example : insert_usage_logs simple_engine (calm 1) two_logs sample ≡ (
    if all_parents sample two_logs
    then (ok tt, logged simple_engine 1 two_logs sample)
    else (err (wrap "exec insert" foreign_key), sample))
insert_usage_logs_exact_example =
    insert_usage_logs_exact simple_engine (calm 1) two_logs sample (calm-IsCalm 1)

batch_fails :
    (insert_usage_logs simple_engine (calm 1) two_logs sample).0
    ≡ err (wrap "exec insert" foreign_key)
unfolding insert_usage_logs insert_each insert_log exists in_tx
batch_fails = refl
