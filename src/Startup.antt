-- ===== src/Startup.antt =====
-- The start of cmd/claude-gate/main.go, up to the server: the configuration, the store with its
-- migrations, the token manager, the proxy and the web handler, in this order.
pub mod Ready
use claude_gate.Prelude.{
  String, ◌≡◌, Bool, true, false, Option, none, some, List, [], if◌then◌else◌,
}
use claude_gate.Prelude.Result.{Error, Result, ok, err}
use claude_gate.Store.Rows.{Db}
use claude_gate.Store.Engine.{Engine, Io}
use claude_gate.Store.Migrate.{Toolbox, Schema, MigrateIo, new_store}
use claude_gate.Token.Manager.{Manager, new_manager, start}
use claude_gate.Proxy.Pipeline.{Pipeline, setup}
use claude_gate.Config.{Config, System, Loaded, loaded, load_failed, load, Warning, validate}

-- What main meets: the errors of sql.Open and of migrate, the conditions of the first refresh,
-- url.Parse, and whether the templates of the web handler parse.
pub record StartIo : Type 0 where
  pub open_write : Option Error
  pub open_read : Option Error
  pub migrate : MigrateIo
  pub refresh : Io
  pub parse_url : String → Option (String × String)
  pub templates_parse : Bool

-- main ends with log.Fatalf, with the database as it is then, or goes on to serve.
pub data Outcome (C : Type 0) : Type 0 where
  fatal : String → Schema Db → Outcome C
  ready : Config → Schema Db → Pipeline C → Outcome C

module _ {C : Type 0} (sys : System) (g : Toolbox Db) (e : Engine) (cache : C) (io : StartIo) where
  abbrev pub with_proxy : Config → Schema Db → Option (Pipeline C) → Outcome C
  with_proxy cfg s none = fatal "setup proxy" s
  with_proxy cfg s (some p) =
      if io.templates_parse then ready cfg s p else fatal "init web handler" s

  abbrev pub with_manager : Config → Schema Db → Result (Unit {0}) × Manager C → Outcome C
  with_manager cfg s (err x, m) = fatal "start token manager" s
  with_manager cfg s (ok u, m) = with_proxy cfg s (setup io.parse_url m cfg.upstream_url)

  -- NewManager, on the database that the migrations left.
  abbrev pub first_manager : Config → Schema Db → Manager C
  first_manager cfg s = new_manager s.tables cache cfg.max_failures cfg.sticky_ttl

  abbrev pub with_store : Config → Result (Unit {0}) × Schema Db → Outcome C
  with_store cfg (err x, s) = fatal "open database" s
  with_store cfg (ok u, s) = with_manager cfg s (start e io.refresh (first_manager cfg s))

  -- Validate logs its warnings before the store is opened.
  abbrev pub with_config : Schema Db → Loaded → List Warning × Outcome C
  with_config s (load_failed text) = ([], fatal "load config" s)
  with_config s (loaded cfg) =
      (validate sys cfg, with_store cfg (new_store g io.open_write io.open_read io.migrate s))

  -- The warnings that main has logged, and how it goes on.
  unfoldable pub start_up : Schema Db → List Warning × Outcome C
  unfolding load validate new_store new_manager start setup
  start_up s = with_config s (load sys)
