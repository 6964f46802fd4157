-- ===== src/Proxy/Writer.antt =====
-- internal/proxy/usage_writer.go: entries are gathered, written in batches and retried.
pub mod Flush
pub mod Bounds
pub mod Totals
pub mod Accounting
use claude_gate.Prelude.{
  ℕ, zero, suc, ◌+◌, ◌%◌, ◌^◌, String, Bool, true, false, not, ◌&&◌, ◌||◌, Option, none, some, List,
  [], ◌∷◌, ◌++◌, map, eqb, ltb, leb, if◌then◌else◌, length, is_nil, ◌==◌,
}
use claude_gate.Prelude.Result.{Result, ok, err}
use claude_gate.Store.Rows.{Db, UsageLog}
use claude_gate.Store.Engine.{Engine, Io}
use claude_gate.Store.Usage.{insert_usage_logs}
use claude_gate.Store.GateTokens.{update_gate_token_usage}
use claude_gate.Store.RealTokens.{update_real_token_usage}
use claude_gate.Proxy.Tap.{UsageData}

-- usageEntry of proxy.go.
pub record UsageEntry : Type 0 where
  pub gate_token_id : String
  pub real_token_id : String
  pub usage : UsageData
  pub request_path : String
  pub status_code : ℕ

abbrev pub usage_batch_size : ℕ
usage_batch_size = 100

abbrev pub usage_max_retries : ℕ
usage_max_retries = 3

pub record UsageWriter : Type 0 where
  pub buf : List UsageEntry
  pub retry_buf : List UsageEntry
  pub retry_count : ℕ
  pub store : Db

unfoldable pub new_usage_writer : Db → UsageWriter
new_usage_writer db = record { buf = []; retry_buf = []; retry_count = 0; store = db }

-- The log of an entry. The struct's ID and CreatedAt stay zero, and the INSERT names neither.
unfoldable pub to_log : UsageEntry → UsageLog
to_log x = record {
  id = 0;
  gate_token_id = x.gate_token_id;
  real_token_id = x.real_token_id;
  model = x.usage.model;
  input_tokens = x.usage.input_tokens;
  output_tokens = x.usage.output_tokens;
  cache_creation_input_tokens = x.usage.cache_creation_input_tokens;
  cache_read_input_tokens = x.usage.cache_read_input_tokens;
  request_path = x.request_path;
  status_code = x.status_code;
  created_at = "";
}

pub record TokenUsage : Type 0 where
  pub input : ℕ
  pub output : ℕ

-- Addition of int64 values as 64-bit patterns.
abbrev pub add64 : ℕ → ℕ → ℕ
add64 a b = (a + b) % 2 ^ 64

abbrev pub Totals : Type 0
Totals = List (String × TokenUsage)

-- One entry into the map of a token's usage.
unfoldable pub add_usage : String → UsageData → Totals → Totals
add_usage id u [] = (id, record { input = u.input_tokens; output = u.output_tokens }) ∷ []
add_usage id u ((k, v) ∷ rest) =
    if k == id
    then (
      k,
      record { input = add64 v.input u.input_tokens; output = add64 v.output u.output_tokens },
    )
      ∷ rest
    else (k, v) ∷ add_usage id u rest

-- The map after all entries, keyed by the gate token or by the real token.
unfoldable pub totals : (UsageEntry → String) → List UsageEntry → Totals → Totals
unfolding add_usage
totals key [] agg = agg
totals key (x ∷ xs) agg = totals key xs (add_usage (key x) x.usage agg)

-- What a flush meets: the conditions of the batch and of the update of each token, and the orders in
-- which Go runs through the two maps.
pub record FlushIo : Type 0 where
  pub batch : Io
  pub gate_io : String → Io
  pub real_io : String → Io
  pub gate_order : Totals → Totals
  pub real_order : Totals → Totals

-- The loops over gateAgg and realAgg. An error of an update is only logged.
unfoldable pub update_gates : Engine → FlushIo → Totals → Db → Db
update_gates e f [] db = db
update_gates e f ((id, u) ∷ rest) db =
    update_gates e f rest (update_gate_token_usage e (f.gate_io id) id u.input u.output db).1

unfoldable pub update_reals : Engine → FlushIo → Totals → Db → Db
update_reals e f [] db = db
update_reals e f ((id, u) ∷ rest) db =
    update_reals e f rest (update_real_token_usage e (f.real_io id) id u.input u.output db).1

-- What flush does with the entries `all` and the answer of InsertUsageLogs.
abbrev pub flushed :
    Engine → FlushIo → List UsageEntry → Result (Unit {0}) × Db → UsageWriter → UsageWriter
flushed e f all (err x, db) w =
    if ltb w.retry_count usage_max_retries
    then record w { buf = []; retry_buf = all; retry_count = w.retry_count + 1; store = db }
    else record w { buf = []; retry_buf = []; retry_count = 0; store = db }
flushed e f all (ok _, db) w = record w {
  buf = [];
  retry_buf = [];
  retry_count = 0;
  store =
      update_reals e f (f.real_order (totals (λ x. x.real_token_id) all []))
        (update_gates e f (f.gate_order (totals (λ x. x.gate_token_id) all [])) db);
}

-- The entries that a flush takes, those of the last failed flush first.
abbrev pub pending : UsageWriter → List UsageEntry
pending w = w.retry_buf ++ w.buf

unfoldable pub flush : Engine → FlushIo → UsageWriter → UsageWriter
unfolding to_log totals update_gates update_reals
flush e f w =
    if is_nil w.buf && is_nil w.retry_buf
    then w
    else flushed e f (pending w) (insert_usage_logs e f.batch (map to_log (pending w)) w.store) w

-- What the select of Run receives; `cancelled` has what drain finds in the channel.
pub data Event : Type 0 where
  entry : UsageEntry → Event
  tick : Event
  closed : Event
  cancelled : List UsageEntry → Event

-- The conditions of a flush whose context is done.
abbrev pub with_done : FlushIo → FlushIo
with_done f = record f { batch = record f.batch { done = true } }

-- One round of Run, and whether it returns.
unfoldable pub step : Engine → FlushIo → Event → UsageWriter → UsageWriter × Bool
unfolding flush
step e f (entry x) w =
    let w' = record w { buf = w.buf ++ x ∷ [] } in
    (if leb usage_batch_size (length w'.buf) then flush e f w' else w', false)
step e f tick w =
    (if ltb 0 (length w.buf) || ltb 0 (length w.retry_buf) then flush e f w else w, false)
step e f closed w = (flush e f w, true)
step e f (cancelled rest) w = (flush e (with_done f) (record w { buf = w.buf ++ rest }), true)

-- Run over a history of events, up to the one that ends it.
unfoldable pub run : Engine → List (FlushIo × Event) → UsageWriter → UsageWriter
unfolding step
run e [] w = w
run e ((f, ev) ∷ rest) w =
    let (w', stop) = step e f ev w in let more = run e rest w' in if stop then w' else more
