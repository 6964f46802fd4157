-- ===== src/Proxy/Pipeline/Written.antt =====
-- The usage logs after a flush whose batch went in.
use claude_gate.Prelude.{ℕ, suc, ◌≡◌, refl, ◌∙◌, List, [], ◌∷◌, map, arith}
use claude_gate.Prelude.Result.{ok}
use claude_gate.Store.Rows.{Db, UsageLog}
use claude_gate.Store.Engine.{Engine, Io}
use claude_gate.Store.Usage.{insert_log, insert_each, insert_usage_logs}
use claude_gate.Store.Statements.{in_tx}
use claude_gate.Store.GateTokens.{update_gate, update_gate_token_usage}
use claude_gate.Store.RealTokens.{update_real, update_real_token_usage}
use claude_gate.Proxy.Writer.{UsageEntry, Totals, FlushIo, to_log, update_gates, update_reals}

-- A log without what the database gives it.
abbrev pub bare : UsageLog → UsageLog
bare l = record l { id = 0; created_at = "" }

-- The logs of the entries, the latest first, before those that were there.
unfoldable pub onto : List UsageEntry → List UsageLog → List UsageLog
onto [] ls = ls
onto (x ∷ xs) ls = onto xs (to_log x ∷ ls)

insert_each-written :
    (e : Engine) (io : Io) (n : ℕ) (xs : List UsageEntry) (db : Db)
    → (insert_each e io n (map to_log xs) db).0 ≡ ok tt
    → map bare (insert_each e io n (map to_log xs) db).1.usage_logs
      ≡ onto xs (map bare db.usage_logs)
unfolding insert_each insert_log onto to_log
insert_each-written e io n [] db done = refl
insert_each-written e io n (x ∷ xs) db done =
    let next : Db = record db {
      usage_logs =
          record (to_log x) { id = db.next_log_id; created_at = e.datetime io.now } ∷ db.usage_logs;
      next_log_id = suc db.next_log_id;
    } in
    ground (arith, insert_each-written e io (suc n) xs next)

pub insert_usage_logs-written :
    (e : Engine) (io : Io) (xs : List UsageEntry) (db : Db)
    → (insert_usage_logs e io (map to_log xs) db).0 ≡ ok tt
    → map bare (insert_usage_logs e io (map to_log xs) db).1.usage_logs
      ≡ onto xs (map bare db.usage_logs)
unfolding insert_usage_logs in_tx
insert_usage_logs-written e io [] db done = unfold onto in refl
insert_usage_logs-written e io (x ∷ xs) db done =
    ground (arith, insert_each-written e io 0 (x ∷ xs) db)

module _ (e : Engine) (f : FlushIo) where
  pub update_gates-logs :
      (ts : Totals) (db : Db) → (update_gates e f ts db).usage_logs ≡ db.usage_logs
  unfolding update_gates update_gate_token_usage update_gate
  update_gates-logs [] db = refl
  update_gates-logs ((id, u) ∷ ts) db =
      let next = (update_gate_token_usage e (f.gate_io id) id u.input u.output db).1 in
      update_gates-logs ts next ∙ ground arith

  pub update_reals-logs :
      (ts : Totals) (db : Db) → (update_reals e f ts db).usage_logs ≡ db.usage_logs
  unfolding update_reals update_real_token_usage update_real
  update_reals-logs [] db = refl
  update_reals-logs ((id, u) ∷ ts) db =
      let next = (update_real_token_usage e (f.real_io id) id u.input u.output db).1 in
      update_reals-logs ts next ∙ ground arith
