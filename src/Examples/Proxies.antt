-- ===== src/Examples/Proxies.antt =====
-- The theorems on the tapping reader and the usage writer at a stream and a writer.
use mathlib.Core.List.{flatten}
use claude_gate.Prelude.{◌+◌, ◌≡◌, refl, false, none, some, [], ◌∷◌, ◌++◌, map, arith}
use claude_gate.Prelude.Bytes.{codes, index_byte}
use claude_gate.Prelude.Result.{canceled}
use claude_gate.Store.Table.{exists, first, at}
use claude_gate.Proxy.Tap.{Json, more, eof, newline, no_usage, new_tapping_reader}
use claude_gate.Proxy.Tap.Completion.{read_all, usage_of, read_all-once}
use claude_gate.Proxy.Writer.{UsageEntry, UsageWriter, FlushIo, tick, to_log, flush, step}
use claude_gate.Proxy.Writer.Bounds.{IsBounded, step-IsBounded}
use mathlib.Core.List.Perm
use claude_gate.Store.Batch.{all_parents}
use claude_gate.Proxy.Writer.Totals.{used}
use claude_gate.Proxy.Writer.Accounting.{
  IsSmooth, input_of, output_of, gate_totals, real_totals, flush-gate_totals, flush-real_totals,
}
use claude_gate.Examples.{
  simple_engine-IsSql, calm-IsCalm, gate_1, real_1, simple_engine, calm, sample,
}

-- Every message_start names the model "m" with three tokens in; every message_delta has seven out.
abbrev pub json : Json
json = record {
  message_start = λ bs. some (record {
    model = "m";
    usage = record {
      input_tokens = 3;
      output_tokens = 0;
      cache_creation_input_tokens = 0;
      cache_read_input_tokens = 0;
    };
  });
  message_delta = λ bs. some (record {
    input_tokens = 0;
    output_tokens = 7;
    cache_creation_input_tokens = 0;
    cache_read_input_tokens = 0;
  });
  response = λ bs. none;
}

read_all-once_example :
    (read_all json
      (map (λ c. (c, more)) (codes "data: message_st" ∷ codes "art\ndata: mes" ∷ [])
        ++ (codes "sage_delta\n", eof) ∷ ([], eof) ∷ [])
      new_tapping_reader).1
    ≡ usage_of json
        (flatten (codes "data: message_st" ∷ codes "art\ndata: mes" ∷ []) ++ codes "sage_delta\n")
      ∷ []
read_all-once_example =
    read_all-once json (codes "data: message_st" ∷ codes "art\ndata: mes" ∷ [])
      (codes "sage_delta\n") (([], eof) ∷ [])

delta_unfinished : index_byte (codes "data: message_delta") newline ≡ none
unfolding index_byte
delta_unfinished = refl

-- An entry of a gate token that was deleted.
abbrev orphan : UsageEntry
orphan = record {
  gate_token_id = "gone";
  real_token_id = "r1";
  usage = no_usage;
  request_path = "/v1/messages";
  status_code = 200;
}

abbrev pub flush_io : FlushIo
flush_io = record {
  batch = calm 1;
  gate_io = λ id. calm 1;
  real_io = λ id. calm 1;
  gate_order = λ ts. ts;
  real_order = λ ts. ts;
}

-- A writer with one entry and no failed flush.
abbrev fresh : UsageWriter
fresh = record { buf = orphan ∷ []; retry_buf = []; retry_count = 0; store = sample }

-- A flush whose transaction cannot begin.
abbrev failing_io : FlushIo
failing_io = record flush_io { batch = record (calm 1) { fault = λ c. some canceled } }

fresh-IsBounded : IsBounded fresh
fresh-IsBounded = record { gathered = omega arith; kept = omega arith; tried = omega arith }

goes_on : (step simple_engine flush_io tick fresh).1 ≡ false
unfolding step
goes_on = refl

step-IsBounded_example : IsBounded (step simple_engine flush_io tick fresh).0
step-IsBounded_example = step-IsBounded simple_engine flush_io tick fresh fresh-IsBounded goes_on

-- A writer with an entry of tokens that are there, and one kept from a failed flush.
abbrev served : UsageEntry
served = record orphan {
  gate_token_id = "g1";
  usage = record no_usage { input_tokens = 3; output_tokens = 4 };
}

abbrev two_served : UsageWriter
two_served = record { buf = served ∷ []; retry_buf = served ∷ []; retry_count = 1; store = sample }

two_served-IsSmooth : IsSmooth flush_io two_served
unfolding all_parents exists to_log
two_served-IsSmooth = record {
  batch_calm = calm-IsCalm 1;
  gates_calm = λ id. calm-IsCalm 1;
  reals_calm = λ id. calm-IsCalm 1;
  gates_once = λ ts. Perm.refl ts;
  reals_once = λ ts. Perm.refl ts;
  parents = refl;
}

gate_there : first (at (λ x. x.id) "g1") sample.gate_tokens ≡ some gate_1
unfolding first
gate_there = refl

real_there : first (at (λ x. x.id) "r1") sample.real_tokens ≡ some real_1
unfolding first
real_there = refl

flush-gate_totals_example :
    gate_totals "g1" (flush simple_engine flush_io two_served).store
    ≡ some (
      5 + input_of (λ x. x.gate_token_id) "g1" two_served,
      6 + output_of (λ x. x.gate_token_id) "g1" two_served,
    )
unfolding used
flush-gate_totals_example =
    flush-gate_totals simple_engine flush_io two_served "g1" gate_1 simple_engine-IsSql
      two_served-IsSmooth gate_there (omega arith) (omega arith)

flush-real_totals_example :
    real_totals "r1" (flush simple_engine flush_io two_served).store
    ≡ some (
      10 + input_of (λ x. x.real_token_id) "r1" two_served,
      20 + output_of (λ x. x.real_token_id) "r1" two_served,
    )
unfolding used
flush-real_totals_example =
    flush-real_totals simple_engine flush_io two_served "r1" real_1 simple_engine-IsSql
      two_served-IsSmooth real_there (omega arith) (omega arith)
