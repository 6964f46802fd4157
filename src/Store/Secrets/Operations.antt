-- ===== src/Store/Secrets/Operations.antt =====
-- The operations of internal/store that know nothing of the secrets of the real tokens.
use claude_gate.Prelude.{ℕ, String, ◌≡◌, refl, Bool, ap, eqb, arith, if◌then◌else◌}
use claude_gate.Prelude.Result.{no_rows, ok, attempt}
use claude_gate.Prelude.Exec.{Exec, pure, raise}
use claude_gate.Store.Table.{delete, at}
use claude_gate.Store.Rows.{Db, RealRow, GateRow, UsageLog}
use claude_gate.Store.Engine.{Engine, Io, call, statement, begin_tx, rows_affected}
use claude_gate.Store.Statements.{affecting, with_tx}
use claude_gate.Store.RealTokens.{update_real, update_real_token, set_real_token_active}
use claude_gate.Store.GateTokens.{
  insert_gate, create_gate_token, update_gate, update_gate_token, set_gate_token_active,
  list_gate_tokens,
}
use claude_gate.Store.Cascade.{
  TokenKind, real, gate, sticky_column, log_column, delete_text, delete_token_row, cascade_delete,
  delete_real_token, delete_gate_token,
}
use claude_gate.Store.Usage.{query_usage_stats}
use claude_gate.Store.Secrets.{
  redacted, Blind, count-redacted, delete-redacted, update-redacted, Blind-lift, Blind-wrapping,
  Blind-modify, Blind-bind, Blind-tx,
}

counted-Blind : (n : ℕ) → Blind (if eqb n 0 then raise no_rows else pure tt)
counted-Blind n = record { answer = λ db. ground arith; after = λ db. ground arith }

module _ (io : Io) where
  affecting-Blind :
      (text rows_text : String) {exec : Exec Db ℕ}
      → Blind exec
      → Blind (affecting io text rows_text exec)
  unfolding affecting
  affecting-Blind text rows_text b =
      Blind-bind (Blind-wrapping text (Blind-bind (Blind-lift (call io (statement 0))) (λ _. b)))
        λ n.
          Blind-bind (Blind-wrapping rows_text (Blind-lift (attempt (io.fault rows_affected))))
            λ _. counted-Blind n

  update_real-Blind :
      (id : String) (set : RealRow → RealRow)
      → ((r : RealRow) → set (redacted r) ≡ redacted (set r))
      → Blind (update_real id set)
  unfolding update_real
  update_real-Blind id set h = record {
    answer = λ db. ap ok (count-redacted id db.real_tokens);
    after =
        λ db. ap (λ rs. record db { real_tokens = rs }) (update-redacted id set db.real_tokens h);
  }

  update_gate-Blind : (id : String) (set : GateRow → GateRow) → Blind (update_gate id set)
  unfolding update_gate
  update_gate-Blind id set = record { answer = λ db. refl; after = λ db. refl }

  pub update_real_token-Blind :
      (e : Engine) (id name : String) → Blind (update_real_token e io id name)
  unfolding update_real_token
  update_real_token-Blind e id name = affecting-Blind _ _ (update_real-Blind id _ (λ r. refl))

  pub set_real_token_active-Blind :
      (e : Engine) (id : String) (active : Bool) → Blind (set_real_token_active e io id active)
  unfolding set_real_token_active
  set_real_token_active-Blind e id active = affecting-Blind _ _ (update_real-Blind id _ (λ r. refl))

  pub update_gate_token-Blind :
      (e : Engine) (id name : String) → Blind (update_gate_token e io id name)
  unfolding update_gate_token
  update_gate_token-Blind e id name = affecting-Blind _ _ (update_gate-Blind id _)

  pub set_gate_token_active-Blind :
      (e : Engine) (id : String) (active : Bool) → Blind (set_gate_token_active e io id active)
  unfolding set_gate_token_active
  set_gate_token_active-Blind e id active = affecting-Blind _ _ (update_gate-Blind id _)

  insert_gate-Blind : (r : GateRow) → Blind (insert_gate r)
  unfolding insert_gate
  insert_gate-Blind r = record { answer = λ db. ground arith; after = λ db. ground arith }

  pub create_gate_token-Blind :
      (e : Engine) (id generated name custom : String)
      → Blind (create_gate_token e io id generated name custom)
  unfolding create_gate_token
  create_gate_token-Blind e id generated name custom =
      Blind-bind
        (Blind-wrapping "create gate token"
          (Blind-bind (Blind-lift (call io (statement 0))) (λ _. insert_gate-Blind _)))
        (λ _. Blind-lift (ok _))

  row-Blind : (kind : TokenKind) (id : String) → Blind (delete_token_row kind id)
  unfolding delete_token_row
  row-Blind real id = record {
    answer = λ db. ground (arith, count-redacted id db.real_tokens);
    after =
        λ db. ground (arith, count-redacted id db.real_tokens, delete-redacted id db.real_tokens);
  }
  row-Blind gate id = record { answer = λ db. ground arith; after = λ db. ground arith }

  cascade-Blind : (kind : TokenKind) (id : String) → Blind (cascade_delete io kind id)
  unfolding cascade_delete
  cascade-Blind kind id =
      Blind-bind
        (Blind-wrapping (delete_text kind ": delete sticky sessions")
          (Blind-lift (call io (statement 0))))
        λ _.
          Blind-bind
            (Blind-modify
              (λ db. record db {
                sticky_sessions = delete (at (sticky_column kind) id) db.sticky_sessions;
              })
              (λ db. refl))
            λ _.
              Blind-bind
                (Blind-wrapping (delete_text kind ": delete usage logs")
                  (Blind-lift (call io (statement 1))))
                λ _.
                  Blind-bind
                    (Blind-modify
                      (λ db. record db {
                        usage_logs = delete (at (log_column kind) id) db.usage_logs;
                      })
                      (λ db. refl))
                    λ _.
                      Blind-bind
                        (Blind-wrapping (delete_text kind "") (
                          Blind-bind (Blind-lift (call io (statement 2))) (λ _. row-Blind kind id)))
                        λ n.
                          Blind-bind
                            (Blind-wrapping (delete_text kind ": rows affected")
                              (Blind-lift (attempt (io.fault rows_affected))))
                            λ _. counted-Blind n

  pub delete_real_token-Blind : (id : String) → Blind (delete_real_token io id)
  unfolding delete_real_token with_tx
  delete_real_token-Blind id =
      Blind-bind (Blind-lift (call io begin_tx)) (λ _. Blind-tx io (cascade-Blind real id))

  pub delete_gate_token-Blind : (id : String) → Blind (delete_gate_token io id)
  unfolding delete_gate_token with_tx
  delete_gate_token-Blind id =
      Blind-bind (Blind-lift (call io begin_tx)) (λ _. Blind-tx io (cascade-Blind gate id))

  pub query_usage_stats-Blind :
      (e : Engine) (p : UsageLog → Bool) → Blind (query_usage_stats e io p)
  unfolding query_usage_stats
  query_usage_stats-Blind e p = record { answer = λ db. ground arith; after = λ db. ground arith }

  pub list_gate_tokens-Blind : (e : Engine) → Blind (list_gate_tokens e io)
  unfolding list_gate_tokens
  list_gate_tokens-Blind e = record { answer = λ db. ground arith; after = λ db. ground arith }
