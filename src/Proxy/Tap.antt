-- ===== src/Proxy/Tap.antt =====
-- internal/proxy/tap.go: a reader that passes a stream on and picks the token usage out of its
-- server-sent events. A byte is a number; `Json` stands for encoding/json on the three envelopes.
pub mod Chunks
pub mod Completion
use claude_gate.Prelude.{
  ℕ, zero, suc, ◌+◌, String, Bool, true, false, not, ◌&&◌, ◌||◌, Option, none, some, List, [], ◌∷◌,
  ◌++◌, eqb, ltb, if◌then◌else◌, length, take, drop, is_nil,
}
use claude_gate.Prelude.Bytes.{codes, has_prefix, contains, index_byte}

pub record UsageData : Type 0 where
  pub input_tokens : ℕ
  pub output_tokens : ℕ
  pub cache_creation_input_tokens : ℕ
  pub cache_read_input_tokens : ℕ
  pub model : String

-- usageFields.
pub record UsageFields : Type 0 where
  pub input_tokens : ℕ
  pub output_tokens : ℕ
  pub cache_creation_input_tokens : ℕ
  pub cache_read_input_tokens : ℕ

-- messageStartEnvelope and jsonUsageEnvelope, each a model with a usage.
pub record ModelUsage : Type 0 where
  pub model : String
  pub usage : UsageFields

-- json.Unmarshal into messageStartEnvelope, messageDeltaEnvelope and jsonUsageEnvelope; `none` is an
-- error.
pub record Json : Type 0 where
  pub message_start : List ℕ → Option ModelUsage
  pub message_delta : List ℕ → Option UsageFields
  pub response : List ℕ → Option ModelUsage

abbrev pub no_usage : UsageData
no_usage = record {
  input_tokens = 0;
  output_tokens = 0;
  cache_creation_input_tokens = 0;
  cache_read_input_tokens = 0;
  model = "";
}

-- `armed` tells that onComplete is not nil.
pub record TappingReader : Type 0 where
  pub usage : UsageData
  pub line_buf : List ℕ
  pub armed : Bool

unfoldable pub new_tapping_reader : TappingReader
new_tapping_reader = record { usage = no_usage; line_buf = []; armed = true }

abbrev pub started : UsageData → Option ModelUsage → UsageData
started u none = u
started u (some env) = record u {
  model = env.model;
  input_tokens = env.usage.input_tokens;
  cache_creation_input_tokens = env.usage.cache_creation_input_tokens;
  cache_read_input_tokens = env.usage.cache_read_input_tokens;
}

unfoldable pub parse_message_start : Json → List ℕ → UsageData → UsageData
parse_message_start j payload u = started u (j.message_start payload)

abbrev pub moved_on : UsageData → Option UsageFields → UsageData
moved_on u none = u
moved_on u (some usage) = record u { output_tokens = usage.output_tokens }

unfoldable pub parse_message_delta : Json → List ℕ → UsageData → UsageData
parse_message_delta j payload u = moved_on u (j.message_delta payload)

abbrev pub sse_data_prefix : List ℕ
sse_data_prefix = codes "data: "

-- processLine.
unfoldable pub process_line : Json → List ℕ → UsageData → UsageData
unfolding parse_message_start parse_message_delta
process_line j line u =
    if has_prefix line sse_data_prefix
    then (let payload = drop (length sse_data_prefix) line in
        let has_start = contains payload (codes "message_start") in
        let has_delta = contains payload (codes "message_delta") in
        if not has_start && not has_delta
        then u
        else if has_start
        then parse_message_start j payload u
        else parse_message_delta j payload u)
    else u

abbrev pub newline : ℕ
newline = 10

-- The loop of scan, on fuel: each round takes at least one byte off the chunk.
unfoldable pub scan_loop : Json → ℕ → List ℕ → TappingReader → TappingReader
scan_loop j zero chunk t = t
scan_loop j (suc fuel) [] t = t
scan_loop j (suc fuel) (c ∷ cs) t = elim (index_byte (c ∷ cs) newline) [
  | none ↦ record t { line_buf = c ∷ cs }
  | some idx ↦
      scan_loop j fuel (drop (suc idx) (c ∷ cs))
        (record t { usage = process_line j (take idx (c ∷ cs)) t.usage })
]

unfoldable pub scan : Json → List ℕ → TappingReader → TappingReader
unfolding scan_loop
scan j chunk t =
    if is_nil t.line_buf
    then scan_loop j (length chunk) chunk t
    else scan_loop j (length (t.line_buf ++ chunk)) (t.line_buf ++ chunk)
        (record t { line_buf = [] })

-- The error beside the bytes of one Read of the underlying reader.
pub data ReadEnd : Type 0 where
  more eof failed : ReadEnd

-- What onComplete is called with, if it is called.
abbrev pub completed : ReadEnd → TappingReader → TappingReader × Option UsageData
completed eof t = if t.armed then (record t { armed = false }, some t.usage) else (t, none)
completed more t = (t, none)
completed failed t = (t, none)

-- Read: the bytes and the error of the underlying reader are passed on as they are.
unfoldable pub read : Json → List ℕ → ReadEnd → TappingReader → TappingReader × Option UsageData
unfolding scan
read j chunk end t = completed end (if is_nil chunk then t else scan j chunk t)
