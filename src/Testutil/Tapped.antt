-- ===== src/Testutil/Tapped.antt =====
-- The answer of the mock upstream of testutil/testutil.go under the reader of internal/proxy/tap.go.
use mathlib.Core.List.{flatten}
use claude_gate.Prelude.{
  ℕ, zero, suc, ◌+◌, ◌/◌, ◌%◌, ◌≡◌, refl, ap, ◌∙◌, true, false, none, some, List, [], ◌∷◌, ◌++◌,
  map, foldl, arith, All, pos,
}
use claude_gate.Prelude.Bytes.{codes, has_prefix, contains, index_byte}
use claude_gate.Proxy.Tap.{
  Json, UsageData, ReadEnd, more, eof, newline, no_usage, new_tapping_reader, parse_message_start,
  parse_message_delta,
}
use claude_gate.Proxy.Tap.Completion.{read_all, read_all-once}
use claude_gate.Testutil.{
  digits, decimal, start_data, delta_data, message_start, content_block_start, content_block_delta,
  content_block_stop, message_delta, message_stop, start_head, delta_head, SseEvent,
  standard_sse_events, build_sse_response,
}
use claude_gate.Testutil.Decimals.{index_byte-append, decimal_clean}
use claude_gate.Testutil.Lines.{event_usage, IsOneLine, usage_of-build_sse_response}

-- Digits begin no event's name.
contains-digits :
    (fuel n : ℕ) (acc rest name : List ℕ)
    → contains (digits fuel n acc ++ rest) (109 ∷ name) ≡ contains (acc ++ rest) (109 ∷ name)
unfolding digits contains has_prefix
contains-digits zero n acc rest name = refl
contains-digits (suc fuel) n acc rest name =
    ground (arith, contains-digits fuel (n / 10) ((48 + n % 10) ∷ acc) rest name)

not_start : (n : ℕ) → contains (delta_data (pos n)) (codes "message_start") ≡ false
unfolding delta_data decimal contains has_prefix
not_start n = contains-digits (suc n) n [] (codes "}}") (codes "essage_start")

start_clean : (n : ℕ) → index_byte (start_data (pos n)) newline ≡ none
unfolding start_data index_byte
start_clean n =
    let tail =
      index_byte-append (decimal (pos n)) (codes ",\"output_tokens\":1}}}") (decimal_clean (pos n))
        refl in
    index_byte-append start_head (decimal (pos n) ++ codes ",\"output_tokens\":1}}}") refl tail

delta_clean : (n : ℕ) → index_byte (delta_data (pos n)) newline ≡ none
unfolding delta_data index_byte
delta_clean n =
    let tail = index_byte-append (decimal (pos n)) (codes "}}") (decimal_clean (pos n)) refl in
    index_byte-append delta_head (decimal (pos n) ++ codes "}}") refl tail

events_clean : (input output : ℕ) → All IsOneLine (standard_sse_events (pos input) (pos output))
unfolding standard_sse_events index_byte
events_clean input output = (
  (refl, start_clean input),
  ((refl, refl), ((refl, refl), ((refl, refl), ((refl, delta_clean output), ((refl, refl), tt))))),
)

-- What encoding/json is documented to make of the two events that carry counts.
pub record Decodes (j : Json) (input output : ℕ) : Type 0 where
  pub start :
      j.message_start (start_data (pos input))
      ≡ some (record {
        model = "claude-sonnet-4-20250514";
        usage = record {
          input_tokens = input;
          output_tokens = 1;
          cache_creation_input_tokens = 0;
          cache_read_input_tokens = 0;
        };
      })
  pub delta :
      j.message_delta (delta_data (pos output))
      ≡ some (record {
        input_tokens = 0;
        output_tokens = output;
        cache_creation_input_tokens = 0;
        cache_read_input_tokens = 0;
      })

abbrev pub standard_usage : ℕ → ℕ → UsageData
standard_usage input output = record {
  input_tokens = input;
  output_tokens = output;
  cache_creation_input_tokens = 0;
  cache_read_input_tokens = 0;
  model = "claude-sonnet-4-20250514";
}

is_start : (n : ℕ) → contains (start_data (pos n)) (codes "message_start") ≡ true
unfolding start_data contains has_prefix
is_start n = refl

is_delta : (n : ℕ) → contains (delta_data (pos n)) (codes "message_delta") ≡ true
unfolding delta_data contains has_prefix
is_delta n = refl

module _ (j : Json) (x : SseEvent) (u : UsageData) where
  starting :
      contains x.event_data (codes "message_start") ≡ true
      → event_usage j u x ≡ parse_message_start j x.event_data u
  unfolding event_usage
  starting h = rw h refl

  moving :
      contains x.event_data (codes "message_start") ≡ false
      → contains x.event_data (codes "message_delta") ≡ true
      → event_usage j u x ≡ parse_message_delta j x.event_data u
  unfolding event_usage
  moving h k = rw (h, k) refl

  passing :
      contains x.event_data (codes "message_start") ≡ false
      → contains x.event_data (codes "message_delta") ≡ false
      → event_usage j u x ≡ u
  unfolding event_usage
  passing h k = rw (h, k) refl

  folding :
      (xs : List SseEvent) (v w : UsageData)
      → event_usage j u x ≡ v
      → foldl (event_usage j) v xs ≡ w
      → foldl (event_usage j) u (x ∷ xs) ≡ w
  folding xs v w h k = ap (λ a. foldl (event_usage j) a xs) h ∙ k

standard_folded :
    (j : Json) (input output : ℕ)
    → Decodes j input output
    → foldl (event_usage j) no_usage (standard_sse_events (pos input) (pos output))
      ≡ standard_usage input output
unfolding standard_sse_events parse_message_start parse_message_delta contains has_prefix
standard_folded j input output d =
    let opened = standard_usage input 0 in
    let all = standard_usage input output in
    let started : parse_message_start j (start_data (pos input)) no_usage ≡ opened =
      rw d.start refl in
    let moved : parse_message_delta j (delta_data (pos output)) opened ≡ all = rw d.delta refl in
    let last = message_stop ∷ [] in
    let four = message_delta (pos output) ∷ last in
    let three = content_block_stop ∷ four in
    let two = content_block_delta ∷ three in
    folding j (message_start (pos input)) no_usage (content_block_start ∷ two) opened all
      (starting j (message_start (pos input)) no_usage (is_start input) ∙ started)
      (folding j content_block_start opened two opened all
        (passing j content_block_start opened refl refl)
        (folding j content_block_delta opened three opened all
          (passing j content_block_delta opened refl refl)
          (folding j content_block_stop opened four opened all
            (passing j content_block_stop opened refl refl)
            (folding j (message_delta (pos output)) opened last all all
              (moving j (message_delta (pos output)) opened (not_start output) (is_delta output)
                ∙ moved)
              (folding j message_stop all [] all all (passing j message_stop all refl refl)
                refl)))))

-- The standard events, as BuildSSEResponse prints them with two counts of tokens, read in chunks cut
-- at any bytes and then at the end of the stream, have onComplete called once, with exactly the two
-- counts and the model of the first event, if json.Unmarshal decodes the two events with counts.
pub read_all-standard :
    (j : Json) (input output : ℕ) (chunks : List (List ℕ)) (last : List ℕ)
    (rest : List (List ℕ × ReadEnd))
    → Decodes j input output
    → flatten chunks ++ last ≡ build_sse_response (standard_sse_events (pos input) (pos output))
    → (read_all j (map (λ c. (c, more)) chunks ++ (last, eof) ∷ rest) new_tapping_reader).1
      ≡ standard_usage input output ∷ []
read_all-standard j input output chunks last rest d cut =
    read_all-once j chunks last rest
    ∙ rw cut (
        ap (λ u. u ∷ [])
          (usage_of-build_sse_response j (standard_sse_events (pos input) (pos output))
              (events_clean input output)
            ∙ standard_folded j input output d))
