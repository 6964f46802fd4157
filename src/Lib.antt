-- ===== src/Lib.antt =====
-- Claude Gate, a reverse proxy for the Claude API: clients hold gate tokens, the proxy holds the real
-- tokens. A request's gate token is looked up, a real token is chosen for it, and the token usage is
-- picked out of the response and written to SQLite.
--
-- Parts and files, with the code each is about:
--   Prelude         numbers, tests, lists, results and the operations `Exec S A = S → Result A × S`,
--                   whose state comes back beside the error; `Keeps` has one rule for each way in
--                   which an operation is put together.
--   Store           internal/store. Rows has the tables of migrations/*.sql and the structs;
--                   Table the clauses of SQL on a list of rows; Engine the parameters; Statements
--                   withTx; RealTokens, GateTokens, Sticky, Usage and Cascade one function for each
--                   method, its name in snake case. Migrate is migrate and New of store.go.
--                   WellFormed, Integrity, Requests, Calm, Deletion, Batch, Sessions and the
--                   children of Migrate are the proofs. Secrets is about operations that do not look
--                   at the secrets of the real tokens.
--   Token           internal/token. Pool is pool.go, Sticky is sticky.go with the in-memory cache of
--                   Cache as a parameter, Manager is manager.go with the refresh timer as the instant
--                   at which it is to fire.
--   Proxy           internal/proxy. Tap is tap.go, Handler is proxy.go with the channel as the list of
--                   what it buffers, Exchange has its parameters, Writer is usage_writer.go, and
--                   `step` is one round of the select of Run.
--                   Pipeline is setup.go: the handler, the channel and the writer as moves in any order,
--                   and Pipeline/Metered and MeteredJson follow one request from ServeHTTP into the
--                   database.
--   Httputil        internal/httputil/response.go.
--   Admin           internal/admin. Http has the requests and answers and the helpers; Tokens, Creation
--                   and Reports the handlers of handler.go; Routes is Register and middleware.go;
--                   Answers is what is written to the client.
--   Web             web/handler.go. Sessions is the login, Pages what the pages show, Templates what
--                   they are executed from.
--   Console         the wiring of the admin API, the pages and the token manager in
--                   cmd/claude-gate/main.go. Live and Converge have the manager's histories as a relation,
--                   Affinity those in which a sticky binding is in time, SignedIn the requests
--                   between a login and the end of its session.
--   Config          internal/config/config.go and internal/logging/logging.go.
--   Startup         cmd/claude-gate/main.go up to the server.
--   Shutdown        the rest of main: the signal, Shutdown and the deferred calls, as steps beside those
--                   of the pipeline and of the cleanup loop of internal/token/sticky.go.
--   Testutil        testutil/testutil.go: the server-sent events of the mock upstream, as bytes.
--   Examples        an engine, a cache and a database, and runs of the theorems on them.
--
-- Values: an int64 token count is its 64-bit pattern, the pool's counter wraps at 2 ^ 64, a Go int or
-- duration that may be negative is a ℤ, an instant is a number of nanoseconds, and a DATETIME is the
-- text that is stored. A table is a list of rows, the newest first.
--
-- Parameters: `Engine` (SQLite and its driver: the text of datetime('now'), binding and reading of
-- times, INTEGER addition, SUM, ORDER BY) with its documented behaviour `IsSql`; `Io`, what one
-- operation meets: the clock, whether its context is done before it, and the error with which each
-- call of database/sql ends; `IsCalm` says that none fails. `CacheApi` is ttlcache, `IsCache` what is
-- documented of it, and `IsLasting` what is documented of an item over time. `Json` is json.Unmarshal
-- on the envelopes, about which nothing is assumed. `SessionApi` is the ttlcache of the login sessions,
-- `IsSessions` and `IsLastingSessions` what is documented of it in the same way; `Codecs` is
-- encoding/json, net/url and time.Parse of the admin API; `System` the environment, the parsers and
-- the file system of the configuration; `Toolbox` the migration files, sort.Slice, strconv.Atoi and
-- the effect of a migration's text; `MigrateIo` the errors that migrate meets.
-- `ReverseProxy` is the one of net/http/httputil and `IsReverseProxy` what is documented of it.
-- Identifiers and tokens that are drawn at random are arguments. `FlushIo` also has the orders in
-- which Go runs through its two maps.
--
-- Fuel: `scan_loop` runs on the length of what it scans, and each round takes a byte off;
-- `select_loop` runs on the length of the pool, as the source does. `digits` runs on one more than the
-- number that it prints.
--
-- Not modelled: the text of the templates and the static files, net/http's server, the temporary store
-- and the servers of the tests, JSON encoding, and the lines that are logged.
-- TokenPool.Refresh reads the rows before it takes its lock. Console/Converge has the reading and the
-- assignment as two steps with anything but another refresh between them; `fire_refresh` has nothing
-- between them. Two refreshes that overlap are not modelled. Equal keys of an
-- ORDER BY come in the order that the engine chooses; what is used of it is that it reorders.
-- The moves of the pipeline leave out deletions of tokens, which take usage logs away. A context that
-- is done in the middle of an operation is an error of one of its calls.
pub mod Prelude
pub mod Store
pub mod Token
pub mod Proxy
pub mod Httputil
pub mod Admin
pub mod Web
pub mod Console
pub mod Config
pub mod Startup
pub mod Shutdown
pub mod Testutil
pub mod Examples
