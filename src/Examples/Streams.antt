-- ===== src/Examples/Streams.antt =====
-- The theorems on the responses of testutil/testutil.go at the mock upstream and a Json that knows its
-- two events.
use claude_gate.Prelude.{◌≡◌, refl, some, none, [], ◌∷◌, foldl}
use claude_gate.Prelude.Bytes.{index_byte}
use claude_gate.Proxy.Tap.{Json, no_usage}
use claude_gate.Proxy.Tap.Completion.{usage_of}
use claude_gate.Testutil.{build_sse_response, content_block_stop, message_stop}
use claude_gate.Testutil.Lines.{event_usage, usage_of-build_sse_response}

abbrev knows : Json
knows = record {
  message_start = λ payload. some (record {
    model = "claude-sonnet-4-20250514";
    usage = record {
      input_tokens = 25;
      output_tokens = 1;
      cache_creation_input_tokens = 0;
      cache_read_input_tokens = 0;
    };
  });
  message_delta = λ payload. some (record {
    input_tokens = 0;
    output_tokens = 15;
    cache_creation_input_tokens = 0;
    cache_read_input_tokens = 0;
  });
  response = λ body. none;
}

usage_of-build_sse_response_example :
    usage_of knows (build_sse_response (content_block_stop ∷ message_stop ∷ []))
    ≡ foldl (event_usage knows) no_usage (content_block_stop ∷ message_stop ∷ [])
unfolding index_byte
usage_of-build_sse_response_example =
    usage_of-build_sse_response knows (content_block_stop ∷ message_stop ∷ [])
      ((refl, refl), ((refl, refl), tt))
