-- ===== src/Console/Quiet/Writing.antt =====
-- The writer's operations and the cleanup, which leave alone what the pool takes from the database.
use claude_gate.Prelude.{ℕ, String, ◌≡◌, refl, ap, some, List, [], ◌∷◌, map, arith, suc}
use claude_gate.Store.Table.{at}
use claude_gate.Store.Rows.{Db, UsageLog}
use claude_gate.Store.Engine.{Engine, Io}
use claude_gate.Store.RealTokens.{update_real, update_real_token_usage}
use claude_gate.Store.Sticky.{delete_expired_sticky_sessions}
use claude_gate.Store.Integrity.Sessions.{
  delete_expired_sticky_sessions-Keeps, insert_usage_logs-Keeps,
}
use claude_gate.Store.Integrity.Tokens.{
  update_real_token_usage-Keeps, update_gate_token_usage-Keeps,
}
use claude_gate.Token.Cache.{CacheApi}
use claude_gate.Token.Sticky.{cleanup_tick}
use claude_gate.Token.Manager.{Manager}
use claude_gate.Console.Serving.{served, serving, serving-update}
use claude_gate.Console.Quiet.{Quiet}
use claude_gate.Store.Usage.{insert_log, insert_each, insert_usage_logs}
use claude_gate.Store.Statements.{in_tx}
use claude_gate.Store.GateTokens.{update_gate, update_gate_token_usage}

insert_each_rows :
    (e : Engine) (io : Io) (n : ℕ) (ls : List UsageLog) (db : Db)
    → (insert_each e io n ls db).1.real_tokens ≡ db.real_tokens
unfolding insert_each insert_log
insert_each_rows e io n [] db = refl
insert_each_rows e io n (l ∷ ls) db =
    let next : Db = record db {
      usage_logs = record l { id = db.next_log_id; created_at = e.datetime io.now } ∷ db.usage_logs;
      next_log_id = suc db.next_log_id;
    } in
    ground (arith, insert_each_rows e io (suc n) ls next)

insert_rows :
    (e : Engine) (io : Io) (ls : List UsageLog) (db : Db)
    → (insert_usage_logs e io ls db).1.real_tokens ≡ db.real_tokens
unfolding insert_usage_logs in_tx
insert_rows e io [] db = refl
insert_rows e io (l ∷ ls) db = ground (arith, insert_each_rows e io 0 (l ∷ ls) db)

module _ {C : Type 0} (e : Engine) (io : Io) (m : Manager C) where
  usage_rows :
      (id : String) (input output : ℕ) (db : Db)
      → serving (update_real_token_usage e io id input output db).1 ≡ serving db
  unfolding update_real_token_usage update_real
  usage_rows id input output db = ground (
    arith,
    serving-update (at (λ r. r.id) id)
        (λ r. record r {
          total_input_tokens = e.add r.total_input_tokens input;
          total_output_tokens = e.add r.total_output_tokens output;
          last_used_at = some (e.datetime io.now);
          updated_at = e.datetime io.now;
        })
        (λ r. refl) db.real_tokens,
  )

  pub usage-Quiet :
      (id : String) (input output : ℕ)
      → Quiet m (record m {
        sticky = record m.sticky {
          store = (update_real_token_usage e io id input output m.sticky.store).1;
        };
      })
  usage-Quiet id input output = record {
    tokens = refl;
    max = refl;
    rows = usage_rows id input output m.sticky.store;
    timer = refl;
    sound = (update_real_token_usage-Keeps e io id input output).after m.sticky.store;
  }

  cleanup_rows : (db : Db) → (delete_expired_sticky_sessions e io db).1.real_tokens ≡ db.real_tokens
  unfolding delete_expired_sticky_sessions
  cleanup_rows db = ground arith

  pub cleanup-Quiet :
      (cache : CacheApi C) → Quiet m (record m { sticky = cleanup_tick e cache io m.sticky })
  unfolding cleanup_tick
  cleanup-Quiet cache = record {
    tokens = refl;
    max = refl;
    rows = ap (map served) (cleanup_rows m.sticky.store);
    timer = refl;
    sound = (delete_expired_sticky_sessions-Keeps e io).after m.sticky.store;
  }

  pub logs-Quiet :
      (ls : List UsageLog)
      → Quiet m (record m {
        sticky = record m.sticky { store = (insert_usage_logs e io ls m.sticky.store).1 };
      })
  logs-Quiet ls = record {
    tokens = refl;
    max = refl;
    rows = ap (map served) (insert_rows e io ls m.sticky.store);
    timer = refl;
    sound = (insert_usage_logs-Keeps e io ls).after m.sticky.store;
  }

  gate_usage_rows :
      (id : String) (input output : ℕ) (db : Db)
      → (update_gate_token_usage e io id input output db).1.real_tokens ≡ db.real_tokens
  unfolding update_gate_token_usage update_gate
  gate_usage_rows id input output db = ground arith

  pub gate_usage-Quiet :
      (id : String) (input output : ℕ)
      → Quiet m (record m {
        sticky = record m.sticky {
          store = (update_gate_token_usage e io id input output m.sticky.store).1;
        };
      })
  gate_usage-Quiet id input output = record {
    tokens = refl;
    max = refl;
    rows = ap (map served) (gate_usage_rows id input output m.sticky.store);
    timer = refl;
    sound = (update_gate_token_usage-Keeps e io id input output).after m.sticky.store;
  }
