-- ===== src/Testutil/Lines.antt =====
-- What internal/proxy/tap.go makes of a response that testutil/testutil.go builds.
use mathlib.Core.List.{foldl-append, append_assoc}
use claude_gate.Prelude.{
  ℕ, ◌≡◌, refl, ap, ◌∙◌, true, none, List, [], ◌∷◌, ◌++◌, foldl, arith, if◌then◌else◌, All,
}
use claude_gate.Prelude.Bytes.{codes, has_prefix, contains, index_byte}
use claude_gate.Proxy.Tap.{
  Json, UsageData, TappingReader, newline, process_line, no_usage, new_tapping_reader,
  parse_message_start, parse_message_delta,
}
use claude_gate.Proxy.Tap.Chunks.{feed, feed-none}
use claude_gate.Proxy.Tap.Completion.{usage_of}
use claude_gate.Testutil.{SseEvent, write_event, build_sse_response}
use claude_gate.Testutil.Decimals.{index_byte-append}

-- What an event's data does to the usage, whatever the event's name.
unfoldable pub event_usage : Json → UsageData → SseEvent → UsageData
event_usage j u x =
    if contains x.event_data (codes "message_start")
    then parse_message_start j x.event_data u
    else if contains x.event_data (codes "message_delta")
    then parse_message_delta j x.event_data u
    else u

-- No line break within the name or the data.
abbrev pub IsOneLine : SseEvent → Type 0
IsOneLine x = (index_byte x.event newline ≡ none) × (index_byte x.event_data newline ≡ none)

abbrev at_line : UsageData → TappingReader
at_line u = record { usage = u; line_buf = []; armed = true }

regrouped :
    (name text tail rest : List ℕ)
    → ((name ++ (text ++ newline ∷ [])) ++ tail) ++ rest
      ≡ name ++ (text ++ newline ∷ (tail ++ rest))
regrouped name text tail rest = simp append_assoc

module _ (j : Json) where
  feed_line :
      (line rest : List ℕ) (u : UsageData)
      → index_byte line newline ≡ none
      → foldl (feed j) (at_line u) (line ++ newline ∷ rest)
        ≡ foldl (feed j) (at_line (process_line j line u)) rest
  feed_line line rest u h =
      foldl-append (feed j) (at_line u) line (newline ∷ rest)
      ∙ ap (λ t. foldl (feed j) (feed j t newline) rest) (feed-none j line (at_line u) h)
      ∙ unfold feed in refl

  process_name : (name : List ℕ) (u : UsageData) → process_line j (codes "event: " ++ name) u ≡ u
  unfolding process_line has_prefix
  process_name name u = refl

  process_blank : (u : UsageData) → process_line j [] u ≡ u
  unfolding process_line has_prefix
  process_blank u = refl

  process_data :
      (x : SseEvent) (u : UsageData)
      → process_line j (codes "data: " ++ x.event_data) u ≡ event_usage j u x
  unfolding process_line has_prefix event_usage
  process_data x u = ground arith

  data_read :
      (x : SseEvent) (rest : List ℕ) (u : UsageData)
      → index_byte x.event_data newline ≡ none
      → foldl (feed j) (at_line u) (codes "data: " ++ (x.event_data ++ newline ∷ newline ∷ rest))
        ≡ foldl (feed j) (at_line (event_usage j u x)) rest
  data_read x rest u h =
      let line = codes "data: " ++ x.event_data in
      feed_line line (newline ∷ rest) u
        (index_byte-append (codes "data: ") x.event_data (unfold index_byte in refl) h)
      ∙ ap (λ v. foldl (feed j) (at_line v) (newline ∷ rest)) (process_data x u)
      ∙ feed_line [] rest (event_usage j u x) (unfold index_byte in refl)
      ∙ ap (λ v. foldl (feed j) (at_line v) rest) (process_blank (event_usage j u x))

  name_read :
      (name rest : List ℕ) (u : UsageData)
      → index_byte name newline ≡ none
      → foldl (feed j) (at_line u) (codes "event: " ++ (name ++ newline ∷ rest))
        ≡ foldl (feed j) (at_line u) rest
  name_read name rest u h =
      feed_line (codes "event: " ++ name) rest u
        (index_byte-append (codes "event: ") name (unfold index_byte in refl) h)
      ∙ ap (λ v. foldl (feed j) (at_line v) rest) (process_name name u)

  event_read :
      (x : SseEvent) (rest : List ℕ) (u : UsageData)
      → IsOneLine x
      → foldl (feed j) (at_line u) (write_event x ++ rest)
        ≡ foldl (feed j) (at_line (event_usage j u x)) rest
  unfolding write_event
  event_read x rest u h = from x.event h.0
    where
      ending :
          (x.event_data ++ newline ∷ newline ∷ []) ++ rest
          ≡ x.event_data ++ newline ∷ newline ∷ rest
      ending = append_assoc x.event_data (newline ∷ newline ∷ []) rest

      from :
          (name : List ℕ)
          → index_byte name newline ≡ none
          → foldl (feed j) (at_line u) (write_event (record x { event = name }) ++ rest)
            ≡ foldl (feed j) (at_line (event_usage j u x)) rest
      from [] k = rw ending (data_read x rest u h.1)
      from (b ∷ bs) k =
          let tail = codes "data: " ++ (x.event_data ++ newline ∷ newline ∷ []) in
          ap (foldl (feed j) (at_line u)) (regrouped (codes "event: ") (b ∷ bs) tail rest)
          ∙ name_read (b ∷ bs) (tail ++ rest) u k
          ∙ rw ending (data_read x rest u h.1)

  events_read :
      (xs : List SseEvent) (u : UsageData)
      → All IsOneLine xs
      → (foldl (feed j) (at_line u) (build_sse_response xs)).usage ≡ foldl (event_usage j) u xs
  unfolding build_sse_response
  events_read [] u h = refl
  events_read (x ∷ xs) u h =
      ap (λ t. t.usage) (event_read x (build_sse_response xs) u h.0)
      ∙ events_read xs (event_usage j u x) h.1

-- The reader finds in a built response what its events say: the usage of the whole stream is that of
-- its events one after the other, if no name and no data of an event has a line break in it.
pub usage_of-build_sse_response :
    (j : Json) (xs : List SseEvent)
    → All IsOneLine xs
    → usage_of j (build_sse_response xs) ≡ foldl (event_usage j) no_usage xs
unfolding usage_of new_tapping_reader
usage_of-build_sse_response j xs h = events_read j xs no_usage h
