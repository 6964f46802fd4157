-- ===== src/Store/Integrity/Sessions.antt =====
-- The operations of sticky.go and usage.go and the schema's invariant.
use claude_gate.Prelude.{ℕ, suc, String, not, List, [], ◌∷◌, arith}
use claude_gate.Prelude.Result.{Result, ok, err}
use claude_gate.Prelude.Exec.{Exec}
use claude_gate.Prelude.Keeps.{
  Keeps, Keeps-pure, Keeps-lift, Keeps-wrapping, Keeps-modify, Keeps-bind,
}
use claude_gate.Store.Rows.{Db, StickyRow, UsageLog}
use claude_gate.Store.Engine.{Engine, Io, call, begin_tx, prepare_stmt, commit_tx}
use claude_gate.Store.Statements.{in_tx, with_tx}
use claude_gate.Store.Sticky.{
  is_live, upsert_sticky, upsert_sticky_session, delete_expired_sticky_sessions,
  delete_sticky_session,
}
use claude_gate.Store.Usage.{insert_log, insert_usage_log, insert_each, insert_usage_logs}
use claude_gate.Store.WellFormed.{IsWellFormed}
use claude_gate.Store.Integrity.{
  upsert_sticky-IsWellFormed, delete_sticky-IsWellFormed, insert_log-IsWellFormed,
}

upsert_sticky-Keeps : (row : StickyRow) → Keeps IsWellFormed (upsert_sticky row)
upsert_sticky-Keeps row = record { after = upsert_sticky-IsWellFormed row }

insert_log-Keeps :
    (e : Engine) (io : Io) (log : UsageLog) → Keeps IsWellFormed (insert_log e io log)
insert_log-Keeps e io log = record { after = insert_log-IsWellFormed e io log }

committed-keeps :
    {A : Type 0} (P : Db → Type 0) (io : Io) (before : Db) (r : Result A) (db : Db)
    (c : Result (Unit {0}))
    → P before
    → P db
    → P (claude_gate.Store.Statements.committed_by c before (r, db)).1
committed-keeps P io before (err e) db c h k = h
committed-keeps P io before (ok a) db (ok u) h k = k
committed-keeps P io before (ok a) db (err e) h k = h

pub in_tx-Keeps :
    {A : Type 0} (io : Io) {fn : Exec Db A}
    → Keeps IsWellFormed fn
    → Keeps IsWellFormed (in_tx io fn)
unfolding in_tx
in_tx-Keeps io {fn} k = record {
  after = λ db w.
      committed-keeps IsWellFormed io db (fn db).0 (fn db).1 (call io commit_tx) w (k.after db w);
}

pub with_tx-Keeps :
    {A : Type 0} (io : Io) {fn : Exec Db A}
    → Keeps IsWellFormed fn
    → Keeps IsWellFormed (with_tx io fn)
unfolding with_tx
with_tx-Keeps io k = Keeps-bind (Keeps-lift _) (λ _. in_tx-Keeps io k)

module _ (e : Engine) (io : Io) where
  pub upsert_sticky_session-Keeps :
      (gate real : String) (expires_at : ℕ)
      → Keeps IsWellFormed (upsert_sticky_session e io gate real expires_at)
  unfolding upsert_sticky_session
  upsert_sticky_session-Keeps gate real expires_at =
      Keeps-wrapping _ (Keeps-bind (Keeps-lift _) (λ _. upsert_sticky-Keeps _))

  pub delete_expired_sticky_sessions-Keeps :
      Keeps IsWellFormed (delete_expired_sticky_sessions e io)
  unfolding delete_expired_sticky_sessions
  delete_expired_sticky_sessions-Keeps = record {
    after = λ db w. ground (arith, delete_sticky-IsWellFormed (λ s. not (is_live e io.now s)) db w);
  }

  pub delete_sticky_session-Keeps :
      (gate : String) → Keeps IsWellFormed (delete_sticky_session io gate)
  unfolding delete_sticky_session
  delete_sticky_session-Keeps gate =
      Keeps-bind (Keeps-lift _) (λ _. Keeps-modify _ (delete_sticky-IsWellFormed _))

  pub insert_usage_log-Keeps : (log : UsageLog) → Keeps IsWellFormed (insert_usage_log e io log)
  unfolding insert_usage_log
  insert_usage_log-Keeps log =
      Keeps-wrapping _ (Keeps-bind (Keeps-lift _) (λ _. insert_log-Keeps e io log))

  insert_each-Keeps : (n : ℕ) (logs : List UsageLog) → Keeps IsWellFormed (insert_each e io n logs)
  unfolding insert_each
  insert_each-Keeps n [] = Keeps-pure _
  insert_each-Keeps n (log ∷ logs) =
      Keeps-bind (Keeps-wrapping _ (Keeps-bind (Keeps-lift _) (λ _. insert_log-Keeps e io log)))
        λ _. insert_each-Keeps (suc n) logs

  pub insert_usage_logs-Keeps :
      (logs : List UsageLog) → Keeps IsWellFormed (insert_usage_logs e io logs)
  unfolding insert_usage_logs
  insert_usage_logs-Keeps [] = Keeps-pure _
  insert_usage_logs-Keeps (log ∷ logs) =
      Keeps-bind {A = Unit {0}} (Keeps-wrapping "begin tx" (Keeps-lift (call io begin_tx))) λ _.
        in_tx-Keeps io (
          Keeps-bind {A = Unit {0}}
            (Keeps-wrapping "prepare stmt" (Keeps-lift (call io prepare_stmt)))
            λ _. insert_each-Keeps 0 (log ∷ logs))
