-- ===== src/Testutil.antt =====
-- testutil/testutil.go: the server-sent events that stand for an answer of the upstream, as bytes.
pub mod Decimals
pub mod Lines
pub mod Tapped
use claude_gate.Prelude.{
  ℕ, zero, suc, ◌+◌, ◌/◌, ◌%◌, List, [], ◌∷◌, ◌++◌, map, ltb, if◌then◌else◌, is_nil, ℤ, pos, negsuc,
}
use claude_gate.Prelude.Bytes.{codes}
use claude_gate.Proxy.Tap.{newline}

-- SSEEvent.
pub record SseEvent : Type 0 where
  pub event : List ℕ
  pub event_data : List ℕ

-- What one event adds to the response.
unfoldable pub write_event : SseEvent → List ℕ
write_event x =
    (if is_nil x.event then [] else codes "event: " ++ (x.event ++ newline ∷ []))
    ++ (codes "data: " ++ (x.event_data ++ newline ∷ newline ∷ []))

unfoldable pub build_sse_response : List SseEvent → List ℕ
unfolding write_event
build_sse_response [] = []
build_sse_response (x ∷ xs) = write_event x ++ build_sse_response xs

-- fmt's %d of a count: the digits in front of `acc`, on fuel.
unfoldable pub digits : ℕ → ℕ → List ℕ → List ℕ
digits zero n acc = acc
digits (suc fuel) n acc =
    let rest = digits fuel (n / 10) ((48 + n % 10) ∷ acc) in
    if ltb n 10 then (48 + n) ∷ acc else rest

-- fmt's %d.
unfoldable pub decimal : ℤ → List ℕ
unfolding digits
decimal (pos n) = digits (suc n) n []
decimal (negsuc n) = codes "-" ++ digits (suc (suc n)) (suc n) []

-- The texts around the two counts.
abbrev pub start_head : List ℕ
start_head =
    codes
      "{\"type\":\"message_start\",\"message\":{\"id\":\"msg_test\",\"type\":\"message\",\"role\":\"assistant\",\"content\":[],\"model\":\"claude-sonnet-4-20250514\",\"usage\":{\"input_tokens\":"

abbrev pub delta_head : List ℕ
delta_head =
    codes
      "{\"type\":\"message_delta\",\"delta\":{\"stop_reason\":\"end_turn\"},\"usage\":{\"output_tokens\":"

-- The data of the events message_start and message_delta.
unfoldable pub start_data : ℤ → List ℕ
unfolding decimal
start_data input = start_head ++ (decimal input ++ codes ",\"output_tokens\":1}}}")

unfoldable pub delta_data : ℤ → List ℕ
unfolding decimal
delta_data output = delta_head ++ (decimal output ++ codes "}}")

abbrev pub message_start : ℤ → SseEvent
message_start input = record { event = codes "message_start"; event_data = start_data input }

abbrev pub message_delta : ℤ → SseEvent
message_delta output = record { event = codes "message_delta"; event_data = delta_data output }

abbrev pub content_block_start : SseEvent
content_block_start = record {
  event = codes "content_block_start";
  event_data =
      codes
        "{\"type\":\"content_block_start\",\"index\":0,\"content_block\":{\"type\":\"text\",\"text\":\"\"}}";
}

abbrev pub content_block_delta : SseEvent
content_block_delta = record {
  event = codes "content_block_delta";
  event_data =
      codes
        "{\"type\":\"content_block_delta\",\"index\":0,\"delta\":{\"type\":\"text_delta\",\"text\":\"Hello\"}}";
}

abbrev pub content_block_stop : SseEvent
content_block_stop = record {
  event = codes "content_block_stop";
  event_data = codes "{\"type\":\"content_block_stop\",\"index\":0}";
}

abbrev pub message_stop : SseEvent
message_stop = record {
  event = codes "message_stop";
  event_data = codes "{\"type\":\"message_stop\"}";
}

unfoldable pub standard_sse_events : ℤ → ℤ → List SseEvent
unfolding start_data delta_data
standard_sse_events input output =
    message_start input
    ∷ content_block_start
    ∷ content_block_delta
    ∷ content_block_stop
    ∷ message_delta output
    ∷ message_stop
    ∷ []

-- The writes of NewMockUpstream's handler, one for each flush.
unfoldable pub mock_upstream : List (List ℕ)
unfolding write_event standard_sse_events
mock_upstream = map write_event (standard_sse_events (pos 25) (pos 15))
