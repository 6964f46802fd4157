-- ===== src/Startup/Ready.antt =====
-- What holds when the server starts.
use claude_gate.Prelude.{◌≡◌, List, some}
use claude_gate.Prelude.Result.{Result, ok}
use claude_gate.Store.Rows.{Db}
use claude_gate.Store.Engine.{Engine}
use claude_gate.Store.Migrate.{Toolbox, Schema, new_store, migrate}
use claude_gate.Token.Manager.{Manager, start}
use claude_gate.Proxy.Pipeline.{Pipeline, setup}
use claude_gate.Config.{Warning, Config, System, loaded, load, validate}
use claude_gate.Startup.{StartIo, first_manager}

module _ {C : Type 0} (sys : System) (g : Toolbox Db) (e : Engine) (cache : C) (io : StartIo) where
  -- The stages of a start that reaches the server.
  record Stages (s : Schema Db) (ws : List Warning) (cfg : Config) (s' : Schema Db) (p : Pipeline C)
      : Type 0 where
    pub warned : ws ≡ validate sys cfg
    pub configured : load sys ≡ loaded cfg
    pub migrated : new_store g io.open_write io.open_read io.migrate s ≡ (ok tt, s')
    pub refreshed : (start e io.refresh (first_manager sys g e cache io cfg s')).0 ≡ ok tt
    pub wired :
        setup io.parse_url
          (start e io.refresh (first_manager sys g e cache io cfg s')).1
          cfg.upstream_url
        ≡ some p
