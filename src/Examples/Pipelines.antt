-- ===== src/Examples/Pipelines.antt =====
-- The theorem on the handler, the channel and the writer at a few moves.
use claude_gate.Prelude.{
  ◌%◌, ◌^◌, ◌≤◌, String, ◌≡◌, refl, true, Option, some, List, [], ◌∷◌, ◌++◌, map, length,
}
use claude_gate.Store.RealTokens.{update_real_token_usage}
use claude_gate.Store.GateTokens.{update_gate_token_usage}
use claude_gate.Store.Table.{exists, update}
use claude_gate.Store.Usage.{insert_usage_logs}
use claude_gate.Proxy.Tap.{no_usage}
use claude_gate.Proxy.Writer.{UsageEntry, FlushIo, flush}
use claude_gate.Proxy.Handler.{usage_channel_size, dropped_count}
use claude_gate.Proxy.Pipeline.{Pipeline, Move, sends, receives, ticks, setup, moved, store_of}
use claude_gate.Proxy.Pipeline.Channel.{refused}
use claude_gate.Proxy.Pipeline.Written.{bare}
use claude_gate.Proxy.Pipeline.Settled.{written, entries, logs_of}
use claude_gate.Proxy.Pipeline.Conserved.{accepted, settled, holding, setup_conserved}
use claude_gate.Examples.{simple_engine, calm, sample, Item}
use claude_gate.Examples.Tokens.{manager}

abbrev pub parse_url : String → Option (String × String)
parse_url text = some ("https", "upstream")

-- An entry of the gate token and the real token of the sample, and one of tokens that are gone.
abbrev pub good : UsageEntry
good = record {
  gate_token_id = "g1";
  real_token_id = "r1";
  usage = no_usage;
  request_path = "/v1/messages";
  status_code = 200;
}

abbrev orphan : UsageEntry
orphan = record good { gate_token_id = "gone" }

abbrev pub flush_io : FlushIo
flush_io = record {
  batch = calm 1;
  gate_io = λ id. calm 1;
  real_io = λ id. calm 1;
  gate_order = λ ts. ts;
  real_order = λ ts. ts;
}

abbrev moves : List (Move (List Item))
moves =
    sends good
    ∷ receives flush_io
    ∷ ticks flush_io
    ∷ sends orphan
    ∷ sends good
    ∷ receives flush_io
    ∷ ticks flush_io
    ∷ []

-- The pipeline that Setup makes of a manager with the sample.
abbrev pub first_pipeline : Pipeline (List Item)
first_pipeline = record {
  handler = record {
    manager = manager;
    scheme = "https";
    host = "upstream";
    queue = [];
    dropped = 0;
  };
  writer = record { buf = []; retry_buf = []; retry_count = 0; store = sample };
  running = true;
}

sets_up : setup parse_url manager "https://upstream" ≡ some first_pipeline
unfolding setup
sets_up = refl

setup_conserved_example :
    (accepted simple_engine moves first_pipeline
      ≡ entries (settled simple_engine moves first_pipeline)
        ++ holding (moved simple_engine moves first_pipeline))
    × (map bare (store_of (moved simple_engine moves first_pipeline)).usage_logs
        ≡ logs_of (settled simple_engine moves first_pipeline) (map bare sample.usage_logs))
    × (length (moved simple_engine moves first_pipeline).handler.queue ≤ usage_channel_size)
    × (dropped_count (moved simple_engine moves first_pipeline).handler
        ≡ refused simple_engine moves first_pipeline % 2 ^ 64)
setup_conserved_example =
    setup_conserved simple_engine parse_url manager "https://upstream" first_pipeline moves sets_up

-- The history as it runs: the first entry is written; the batch of the second one fails, so the
-- writer keeps it, and the third one is in the channel.
conserved_run :
    (settled simple_engine moves first_pipeline ≡ (good, written) ∷ [])
    × (holding (moved simple_engine moves first_pipeline) ≡ orphan ∷ good ∷ [])
unfolding settled moved flush insert_usage_logs exists update_real_token_usage
    update_gate_token_usage update
conserved_run = (refl, refl)
