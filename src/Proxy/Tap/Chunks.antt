-- ===== src/Proxy/Tap/Chunks.antt =====
-- scan of internal/proxy/tap.go beside a machine that takes one byte at a time.
use mathlib.Core.List.{foldl-append, append_assoc, append-nil}
use claude_gate.Prelude.{
  ℕ, zero, suc, ◌≤◌, ◌≡◌, ◌≢◌, ◌⊎◌, length-drop, refl, sym, ap, ◌∙◌, Bool, true, false, Option,
  none, some, List, [], ◌∷◌, ◌++◌, foldl, arith, eqb, if◌then◌else◌, length, take, drop,
  Option-cases, Bool-cases, inl, inr,
}
use claude_gate.Prelude.Bytes.{index_byte, next_index}
use claude_gate.Proxy.Tap.{Json, UsageData, TappingReader, newline, process_line, scan_loop, scan}

-- One byte: a newline ends the line that was gathered.
unfoldable pub feed : Json → TappingReader → ℕ → TappingReader
feed j t b =
    if eqb b newline
    then record t { usage = process_line j t.line_buf t.usage; line_buf = [] }
    else record t { line_buf = t.line_buf ++ b ∷ [] }

-- The buffer holds the start of a line, never a newline.
abbrev pub IsPartial : TappingReader → Type 0
IsPartial t = index_byte t.line_buf newline ≡ none

next_index-pos : (o : Option ℕ) → next_index o ≢ some 0
next_index-pos none h = cc
next_index-pos (some i) h = cc

module _ (j : Json) where
  pub feed-none :
      (cs : List ℕ) (t : TappingReader)
      → index_byte cs newline ≡ none
      → foldl (feed j) t cs ≡ record t { line_buf = t.line_buf ++ cs }
  unfolding feed index_byte
  feed-none [] t h = rw append-nil
  feed-none (c ∷ cs) t h = ground (
    arith,
    feed-none cs (record t { line_buf = t.line_buf ++ c ∷ [] }),
    append_assoc t.line_buf (c ∷ []) cs,
  )

  feed-some :
      (cs : List ℕ) (t : TappingReader) (i : ℕ)
      → index_byte cs newline ≡ some i
      → foldl (feed j) t cs
        ≡ foldl
            (feed j)
            (record t { usage = process_line j (t.line_buf ++ take i cs) t.usage; line_buf = [] })
            (drop (suc i) cs)
  unfolding feed index_byte
  feed-some [] t i h = ground arith
  feed-some (c ∷ cs) t zero h =
      ground (arith, append-nil t.line_buf, next_index-pos (index_byte cs newline))
  feed-some (c ∷ cs) t (suc i) h = ground (
    arith,
    feed-some cs (record t { line_buf = t.line_buf ++ c ∷ [] }) i,
    append_assoc t.line_buf (c ∷ []) (take i cs),
  )

  scan_loop-feed :
      (fuel : ℕ) (cs : List ℕ) (u : UsageData) (a : Bool)
      → length cs ≤ fuel
      → scan_loop j fuel cs (record { usage = u; line_buf = []; armed = a })
        ≡ foldl (feed j) (record { usage = u; line_buf = []; armed = a }) cs
  unfolding scan_loop
  scan_loop-feed zero [] u a h = refl
  scan_loop-feed zero (c ∷ cs) u a h = absurd (omega arith)
  scan_loop-feed (suc fuel) [] u a h = refl
  scan_loop-feed (suc fuel) (c ∷ cs) u a h =
      let t : TappingReader = record { usage = u; line_buf = []; armed = a } in
      elim (Option-cases (index_byte (c ∷ cs) newline)) [
        | inl none_left ↦ rw (none_left, scan_loop) (sym (feed-none (c ∷ cs) t none_left))
        | inr (i, found) ↦
            rw (found, scan_loop)
              (scan_loop-feed fuel (drop i cs) (process_line j (take i (c ∷ cs)) u) a
                  (omega (arith, length-drop i cs))
                ∙ sym (feed-some (c ∷ cs) t i found))
      ]

  -- With no newline in the line buffer, a scan of a chunk is one step of the machine for each byte of
  -- it.
  pub scan-feed :
      (chunk : List ℕ) (t : TappingReader) → IsPartial t → scan j chunk t ≡ foldl (feed j) t chunk
  unfolding scan
  scan-feed chunk t part = from t.line_buf t.usage t.armed part
    where
      from :
          (buf : List ℕ) (u : UsageData) (a : Bool)
          → index_byte buf newline ≡ none
          → scan j chunk (record { usage = u; line_buf = buf; armed = a })
            ≡ foldl (feed j) (record { usage = u; line_buf = buf; armed = a }) chunk
      from [] u a h = scan_loop-feed (length chunk) chunk u a (omega arith)
      from (b ∷ buf) u a h =
          scan_loop-feed (length (b ∷ buf ++ chunk)) (b ∷ buf ++ chunk) u a (omega arith)
          ∙ foldl-append (feed j) (record { usage = u; line_buf = []; armed = a }) (b ∷ buf) chunk
          ∙ ap (λ x. foldl (feed j) x chunk)
              (feed-none (b ∷ buf) (record { usage = u; line_buf = []; armed = a }) h)

  index-append :
      (xs : List ℕ) (b : ℕ)
      → index_byte xs newline ≡ none
      → eqb b newline ≡ false
      → index_byte (xs ++ b ∷ []) newline ≡ none
  unfolding index_byte
  index-append [] b h k = ground arith
  index-append (x ∷ xs) b h k = ground (arith, index-append xs b)

  pub feed-IsPartial :
      (cs : List ℕ) (t : TappingReader) → IsPartial t → IsPartial (foldl (feed j) t cs)
  unfolding feed
  feed-IsPartial [] t h = h
  feed-IsPartial (c ∷ cs) t h = feed-IsPartial cs (feed j t c) (one (Bool-cases (eqb c newline)))
    where
      one : (eqb c newline ≡ true) ⊎ (eqb c newline ≡ false) → IsPartial (feed j t c)
      one (inl cut) = rw (cut, feed) (unfold index_byte in refl)
      one (inr goes) = rw (goes, feed) (index-append t.line_buf c h goes)
