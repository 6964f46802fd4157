-- ===== src/Proxy/Tap/Completion.antt =====
-- A sequence of reads of internal/proxy/tap.go and the calls of onComplete.
use mathlib.Core.List.{foldl-append, flatten, append_assoc}
use claude_gate.Prelude.{
  ℕ, ◌≡◌, refl, sym, ap, ◌∙◌, true, false, Option, none, some, List, [], ◌∷◌, ◌++◌, map, foldl,
  arith,
}
use claude_gate.Prelude.Bytes.{index_byte}
use claude_gate.Proxy.Tap.{
  Json, UsageData, TappingReader, ReadEnd, more, eof, failed, newline, read, completed,
  new_tapping_reader,
}
use claude_gate.Proxy.Tap.Chunks.{feed, feed-none, scan-feed, IsPartial, feed-IsPartial}

abbrev called : Option UsageData → List UsageData → List UsageData
called none us = us
called (some u) us = u ∷ us

-- Reads one after the other, with the values that onComplete was called with.
unfoldable pub read_all :
    Json → List (List ℕ × ReadEnd) → TappingReader → TappingReader × List UsageData
read_all j [] t = (t, [])
read_all j ((chunk, end) ∷ rest) t =
    let (t', call) = read j chunk end t in
    let (t'', calls) = read_all j rest t' in (t'', called call calls)

-- The usage that the machine of one byte at a time has after the bytes.
unfoldable pub usage_of : Json → List ℕ → UsageData
unfolding feed new_tapping_reader
usage_of j bytes = (foldl (feed j) new_tapping_reader bytes).usage

module _ (j : Json) where
  pub read_lem :
      (chunk : List ℕ) (end : ReadEnd) (t : TappingReader)
      → IsPartial t
      → read j chunk end t ≡ completed end (foldl (feed j) t chunk)
  unfolding read
  read_lem [] end t part = refl
  read_lem (c ∷ cs) end t part = ap (completed end) (scan-feed j (c ∷ cs) t part)

  pub feed-armed : (cs : List ℕ) (t : TappingReader) → (foldl (feed j) t cs).armed ≡ t.armed
  unfolding feed
  feed-armed [] t = refl
  feed-armed (c ∷ cs) t = feed-armed cs (feed j t c) ∙ ground arith

  -- Once onComplete has been called, it is not called again.
  pub read_all-disarmed :
      (rest : List (List ℕ × ReadEnd)) (t : TappingReader)
      → IsPartial t
      → t.armed ≡ false
      → (read_all j rest t).1 ≡ []
  unfolding read_all
  read_all-disarmed [] t part off = refl
  read_all-disarmed ((chunk, eof) ∷ rest) t part off = ground (
    arith,
    read_lem chunk eof t part,
    feed-armed chunk t,
    read_all-disarmed rest (foldl (feed j) t chunk) (feed-IsPartial j chunk t part),
  )
  read_all-disarmed ((chunk, more) ∷ rest) t part off = ground (
    arith,
    read_lem chunk more t part,
    feed-armed chunk t,
    read_all-disarmed rest (foldl (feed j) t chunk) (feed-IsPartial j chunk t part),
  )
  read_all-disarmed ((chunk, failed) ∷ rest) t part off = ground (
    arith,
    read_lem chunk failed t part,
    feed-armed chunk t,
    read_all-disarmed rest (foldl (feed j) t chunk) (feed-IsPartial j chunk t part),
  )

  read_all-from :
      (chunks : List (List ℕ)) (last : List ℕ) (rest : List (List ℕ × ReadEnd)) (t : TappingReader)
      → IsPartial t
      → t.armed ≡ true
      → (read_all j (map (λ c. (c, more)) chunks ++ (last, eof) ∷ rest) t).1
        ≡ (foldl (feed j) t (flatten chunks ++ last)).usage ∷ []
  unfolding read_all flatten
  read_all-from [] last rest t part on =
      let t' = foldl (feed j) t last in
      ground (
        arith,
        read_lem last eof t part,
        feed-armed last t,
        read_all-disarmed rest (record t' { armed = false }) (feed-IsPartial j last t part) refl,
      )
  read_all-from (c ∷ chunks) last rest t part on =
      let t' = foldl (feed j) t c in
      rw (read_lem c more t part) (
        read_all-from chunks last rest t' (feed-IsPartial j c t part) (feed-armed c t ∙ on)
        ∙ ap (λ x. x.usage ∷ []) (sym (foldl-append (feed j) t c (flatten chunks ++ last)))
        ∙ ap (λ x. (foldl (feed j) t x).usage ∷ []) (sym (append_assoc c (flatten chunks) last)))

-- A stream that is read in any number of chunks of any sizes, cut at any byte, and then ends, has
-- onComplete called exactly once, however often the reader is read afterwards. It is called with the
-- usage that a machine computes which takes the whole stream one byte at a time.
pub read_all-once :
    (j : Json) (chunks : List (List ℕ)) (last : List ℕ) (rest : List (List ℕ × ReadEnd))
    → (read_all j (map (λ c. (c, more)) chunks ++ (last, eof) ∷ rest) new_tapping_reader).1
      ≡ usage_of j (flatten chunks ++ last) ∷ []
unfolding usage_of new_tapping_reader
read_all-once j chunks last rest =
    read_all-from j chunks last rest new_tapping_reader (unfold index_byte in refl) refl

-- Bytes after the last newline of a stream are never looked at: whatever they are, an event among
-- them included, the usage is that of the stream without them.
pub usage_of-unfinished :
    (j : Json) (bytes tail : List ℕ)
    → index_byte tail newline ≡ none
    → usage_of j (bytes ++ tail) ≡ usage_of j bytes
unfolding usage_of
usage_of-unfinished j bytes tail h =
    ap (λ t. t.usage) (foldl-append (feed j) new_tapping_reader bytes tail)
    ∙ ap (λ t. t.usage) (feed-none j tail (foldl (feed j) new_tapping_reader bytes) h)
