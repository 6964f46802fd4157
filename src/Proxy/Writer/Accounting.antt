-- ===== src/Proxy/Writer/Accounting.antt =====
-- A flush of internal/proxy/usage_writer.go and the totals of the tokens in the database.
use mathlib.Core.List.{Perm}
use claude_gate.Prelude.{
  ℕ, ◌+◌, ◌^◌, ◌<◌, String, ◌≡◌, refl, ap, ◌∙◌, true, false, ◌&&◌, Option, some, List, [], ◌∷◌, map,
  arith, Bool-cases, inl, inr, is_nil,
}
use claude_gate.Prelude.Result.{ok}
use claude_gate.Store.Table.{first, update, at, map_option}
use claude_gate.Store.Rows.{Db, RealRow, GateRow, UsageLog}
use claude_gate.Store.Engine.{Engine, IsCalm, IsSql, statement}
use claude_gate.Store.GateTokens.{update_gate, update_gate_token_usage}
use claude_gate.Store.RealTokens.{update_real, update_real_token_usage}
use claude_gate.Store.Batch.{all_parents, logged, insert_usage_logs_exact}
use claude_gate.Proxy.Writer.{
  UsageEntry, UsageWriter, TokenUsage, Totals, FlushIo, to_log, totals, update_gates, update_reals,
  flushed, pending, flush,
}
use claude_gate.Proxy.Writer.Flush.{nothing-pending, something-pending, flush_some}
use claude_gate.Proxy.Writer.Totals.{used, both, apply_all, rows_grown}

-- The row after its token's update.
abbrev gate_set : Engine → FlushIo → String → TokenUsage → GateRow → GateRow
gate_set e f k u r = record r {
  total_input_tokens = e.add r.total_input_tokens u.input;
  total_output_tokens = e.add r.total_output_tokens u.output;
  updated_at = e.datetime ((f.gate_io k).now);
}

abbrev real_set : Engine → FlushIo → String → TokenUsage → RealRow → RealRow
real_set e f k u r = record r {
  total_input_tokens = e.add r.total_input_tokens u.input;
  total_output_tokens = e.add r.total_output_tokens u.output;
  last_used_at = some (e.datetime ((f.real_io k).now));
  updated_at = e.datetime ((f.real_io k).now);
}

-- No call of a flush fails, the two maps are run through once for each key, and every entry's tokens
-- are there.
pub record IsSmooth (f : FlushIo) (w : UsageWriter) : Type 0 where
  pub batch_calm : IsCalm f.batch
  pub gates_calm : (id : String) → IsCalm (f.gate_io id)
  pub reals_calm : (id : String) → IsCalm (f.real_io id)
  pub gates_once : (ts : Totals) → Perm (f.gate_order ts) ts
  pub reals_once : (ts : Totals) → Perm (f.real_order ts) ts
  pub parents : all_parents w.store (map to_log (pending w)) ≡ true

logged_tokens :
    (e : Engine) (now : ℕ) (ls : List UsageLog) (db : Db)
    → ((logged e now ls db).gate_tokens ≡ db.gate_tokens)
      × ((logged e now ls db).real_tokens ≡ db.real_tokens)
unfolding logged
logged_tokens e now [] db = (refl, refl)
logged_tokens e now (l ∷ ls) db = logged_tokens e now ls _

module _ (e : Engine) (f : FlushIo) where
  abbrev gate_rows : Totals → List GateRow → List GateRow
  gate_rows = apply_all (λ r. r.id) (gate_set e f) (λ k u r. refl)

  abbrev real_rows : Totals → List RealRow → List RealRow
  real_rows = apply_all (λ r. r.id) (real_set e f) (λ k u r. refl)

  update_gates_lem :
      ((id : String) → IsCalm (f.gate_io id))
      → (ts : Totals) (db : Db)
      → update_gates e f ts db ≡ record db { gate_tokens = gate_rows ts db.gate_tokens }
  unfolding update_gates apply_all update_gate_token_usage update_gate
  update_gates_lem calm [] db = refl
  update_gates_lem calm ((k, u) ∷ ts) db = ground (
    arith,
    (calm k).live,
    (calm k).quiet (statement 0),
    update_gates_lem calm ts
        (record db { gate_tokens = update (at (λ r. r.id) k) (gate_set e f k u) db.gate_tokens }),
  )

  update_reals_lem :
      ((id : String) → IsCalm (f.real_io id))
      → (ts : Totals) (db : Db)
      → update_reals e f ts db ≡ record db { real_tokens = real_rows ts db.real_tokens }
  unfolding update_reals apply_all update_real_token_usage update_real
  update_reals_lem calm [] db = refl
  update_reals_lem calm ((k, u) ∷ ts) db = ground (
    arith,
    (calm k).live,
    (calm k).quiet (statement 0),
    update_reals_lem calm ts
        (record db { real_tokens = update (at (λ r. r.id) k) (real_set e f k u) db.real_tokens }),
  )

module _ (e : Engine) (f : FlushIo) (w : UsageWriter) (calm : IsSmooth f w) where
  -- The order in which the totals of the entries are written.
  abbrev gate_list : Totals
  gate_list = f.gate_order (totals (λ x. x.gate_token_id) (pending w) [])

  abbrev real_list : Totals
  real_list = f.real_order (totals (λ x. x.real_token_id) (pending w) [])

  flush_run :
      (is_nil w.buf && is_nil w.retry_buf) ≡ false
      → ((flush e f w).store.gate_tokens ≡ gate_rows e f gate_list w.store.gate_tokens)
        × ((flush e f w).store.real_tokens ≡ real_rows e f real_list w.store.real_tokens)
  flush_run some_left =
      let inserted =
        insert_usage_logs_exact e f.batch (map to_log (pending w)) w.store calm.batch_calm in
      let db = logged e f.batch.now (map to_log (pending w)) w.store in
      let kept = logged_tokens e f.batch.now (map to_log (pending w)) w.store in
      let gates = update_gates_lem e f calm.gates_calm gate_list db in
      let reals =
        update_reals_lem e f calm.reals_calm real_list
          (record db { gate_tokens = gate_rows e f gate_list db.gate_tokens }) in
      let whole : (flush e f w).store ≡ update_reals e f real_list (update_gates e f gate_list db) =
        ap (λ x. x.store) (flush_some e f w (something-pending w.retry_buf w.buf some_left))
        ∙ ap (λ a. (flushed e f (pending w) a w).store) {y = (ok tt, db)}
            (ground (arith, inserted, calm.parents)) in
      let stored : (flush e f w).store ≡ record db {
        gate_tokens = gate_rows e f gate_list db.gate_tokens;
        real_tokens = real_rows e f real_list db.real_tokens;
      } =
        whole ∙ ap (update_reals e f real_list) gates ∙ reals in
      (
        ap (λ x. x.gate_tokens) stored ∙ ap (gate_rows e f gate_list) kept.0,
        ap (λ x. x.real_tokens) stored ∙ ap (real_rows e f real_list) kept.1,
      )

  flush_nothing : (is_nil w.buf && is_nil w.retry_buf) ≡ true → (flush e f w ≡ w) × (pending w ≡ [])
  unfolding flush
  flush_nothing nothing = (rw (nothing, flush), nothing-pending w.retry_buf w.buf nothing)

-- The totals of a gate token's row, and of a real token's.
abbrev pub gate_totals : String → Db → Option (ℕ × ℕ)
gate_totals id db =
    map_option (both (λ g. g.total_input_tokens) (λ g. g.total_output_tokens))
      (first (at (λ x. x.id) id) db.gate_tokens)

abbrev pub real_totals : String → Db → Option (ℕ × ℕ)
real_totals id db =
    map_option (both (λ r. r.total_input_tokens) (λ r. r.total_output_tokens))
      (first (at (λ x. x.id) id) db.real_tokens)

-- What the entries of the flush used under a token.
abbrev pub input_of : (UsageEntry → String) → String → UsageWriter → ℕ
input_of key id w = used (λ u. u.input_tokens) key id (pending w)

abbrev pub output_of : (UsageEntry → String) → String → UsageWriter → ℕ
output_of key id w = used (λ u. u.output_tokens) key id (pending w)

module _ (e : Engine) (f : FlushIo) (w : UsageWriter) where
  -- When no call of a flush fails and the tokens of every entry are there, the totals of a gate token
  -- grow by exactly the input and output tokens of the entries that name it, those kept from failed
  -- flushes included, whatever the order in which the map is run through, as long as the new totals
  -- stay below 2 ^ 63.
  pub flush-gate_totals :
      (id : String) (g : GateRow)
      → IsSql e
      → IsSmooth f w
      → first (at (λ x. x.id) id) w.store.gate_tokens ≡ some g
      → g.total_input_tokens + input_of (λ x. x.gate_token_id) id w < 2 ^ 63
      → g.total_output_tokens + output_of (λ x. x.gate_token_id) id w < 2 ^ 63
      → gate_totals id (flush e f w).store
        ≡ some (
          g.total_input_tokens + input_of (λ x. x.gate_token_id) id w,
          g.total_output_tokens + output_of (λ x. x.gate_token_id) id w,
        )
  flush-gate_totals id g sql calm here low_in low_out =
      elim (Bool-cases (is_nil w.buf && is_nil w.retry_buf)) [
        | inl nothing ↦
            let (same, empty) = flush_nothing e f w calm nothing in
            rw (same, empty) (unfold used in ground arith)
        | inr some_left ↦
            ap
              (λ rows.
                map_option (both (λ r. r.total_input_tokens) (λ r. r.total_output_tokens))
                  (first (at (λ x. x.id) id) rows))
              (flush_run e f w calm some_left).0
            ∙ rows_grown (λ r. r.id) (gate_set e f) (λ k u r. refl) (λ r. r.total_input_tokens)
                (λ r. r.total_output_tokens)
                (λ k u r h. sql.add_exact r.total_input_tokens u.input h)
                (λ k u r h. sql.add_exact r.total_output_tokens u.output h) (λ x. x.gate_token_id)
                f.gate_order calm.gates_once id (pending w) w.store.gate_tokens g here low_in
                low_out
      ]

  -- When no call of a flush fails and the tokens of every entry are there, the totals of a real token
  -- grow by exactly the input and output tokens of the entries that it served, on the same conditions:
  -- any order of the map, and new totals below 2 ^ 63.
  pub flush-real_totals :
      (id : String) (t : RealRow)
      → IsSql e
      → IsSmooth f w
      → first (at (λ x. x.id) id) w.store.real_tokens ≡ some t
      → t.total_input_tokens + input_of (λ x. x.real_token_id) id w < 2 ^ 63
      → t.total_output_tokens + output_of (λ x. x.real_token_id) id w < 2 ^ 63
      → real_totals id (flush e f w).store
        ≡ some (
          t.total_input_tokens + input_of (λ x. x.real_token_id) id w,
          t.total_output_tokens + output_of (λ x. x.real_token_id) id w,
        )
  flush-real_totals id t sql calm here low_in low_out =
      elim (Bool-cases (is_nil w.buf && is_nil w.retry_buf)) [
        | inl nothing ↦
            let (same, empty) = flush_nothing e f w calm nothing in
            rw (same, empty) (unfold used in ground arith)
        | inr some_left ↦
            ap
              (λ rows.
                map_option (both (λ r. r.total_input_tokens) (λ r. r.total_output_tokens))
                  (first (at (λ x. x.id) id) rows))
              (flush_run e f w calm some_left).1
            ∙ rows_grown (λ r. r.id) (real_set e f) (λ k u r. refl) (λ r. r.total_input_tokens)
                (λ r. r.total_output_tokens)
                (λ k u r h. sql.add_exact r.total_input_tokens u.input h)
                (λ k u r h. sql.add_exact r.total_output_tokens u.output h) (λ x. x.real_token_id)
                f.real_order calm.reals_once id (pending w) w.store.real_tokens t here low_in
                low_out
      ]
