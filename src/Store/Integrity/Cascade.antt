-- ===== src/Store/Integrity/Cascade.antt =====
-- cascadeDelete of internal/store/store.go and the schema's invariant.
use claude_gate.Prelude.{
  String, ◌≡◌, true, false, ◌&&◌, ◌==◌, ◌⊎◌, inl, inr, List, arith, ltb, eq_iff, All-map, All-zip,
  Bool-cases,
}
use claude_gate.Prelude.Keeps.{Keeps}
use claude_gate.Store.Table.{exists, delete, at, exists-delete, Distinct-delete, count-pos, All-not}
use claude_gate.Store.Rows.{Db, StickyRow, UsageLog}
use claude_gate.Store.Engine.{Io}
use claude_gate.Store.Sticky.{has_parents}
use claude_gate.Store.Cascade.{
  TokenKind, real, gate, sticky_column, log_column, token_count, without_token, is_referenced,
  delete_token_row, cascade_delete, delete_real_token, delete_gate_token,
}
use claude_gate.Store.WellFormed.{IsWellFormed, StickyRefs, LogRefs}
use claude_gate.Store.Integrity.{delete_sticky-IsWellFormed, delete_logs-IsWellFormed}
use claude_gate.Store.Integrity.Sessions.{with_tx-Keeps}

-- The parent of the kind that is deleted.
abbrev parent : TokenKind → String → String → String
parent real g r = r
parent gate g r = g

-- A reference to another token of the kind still has its parents.
has_parents-without_token :
    (kind : TokenKind) (id : String) (db : Db) (g r : String)
    → has_parents db g r ≡ true
    → (parent kind g r == id) ≡ false
    → has_parents (without_token kind id db) g r ≡ true
has_parents-without_token real id db g r h ne =
    ground (arith, exists-delete (λ x. x.id) (at (λ x. x.id) id) r db.real_tokens (λ x p. rw p ne))
has_parents-without_token gate id db g r h ne =
    ground (arith, exists-delete (λ x. x.id) (at (λ x. x.id) id) g db.gate_tokens (λ x p. rw p ne))

-- No token, no reference.
not-parent :
    (kind : TokenKind) (id : String) (db : Db) (g r : String)
    → ltb 0 (token_count kind id db) ≡ false
    → has_parents db g r ≡ true
    → (parent kind g r == id) ≡ false
not-parent real id db g r none h =
    ground (arith, eq_iff r id, count-pos (at (λ x. x.id) id) db.real_tokens)
not-parent gate id db g r none h =
    ground (arith, eq_iff g id, count-pos (at (λ x. x.id) id) db.gate_tokens)

StickyRefs-without_token :
    (kind : TokenKind) (id : String) (db : Db) (ss : List StickyRow)
    → (ltb 0 (token_count kind id db) ≡ false) ⊎ (exists (at (sticky_column kind) id) ss ≡ false)
    → StickyRefs db ss
    → StickyRefs (without_token kind id db) ss
StickyRefs-without_token kind id db ss (inl none) refs =
    All-map ss
      (λ s h.
        has_parents-without_token kind id db s.gate_token_id s.real_token_id h
          (not-parent kind id db s.gate_token_id s.real_token_id none h))
      refs
StickyRefs-without_token real id db ss (inr none) refs =
    All-zip ss (λ s h k. has_parents-without_token real id db s.gate_token_id s.real_token_id h k)
      refs (All-not _ ss none)
StickyRefs-without_token gate id db ss (inr none) refs =
    All-zip ss (λ s h k. has_parents-without_token gate id db s.gate_token_id s.real_token_id h k)
      refs (All-not _ ss none)

LogRefs-without_token :
    (kind : TokenKind) (id : String) (db : Db) (ls : List UsageLog)
    → (ltb 0 (token_count kind id db) ≡ false) ⊎ (exists (at (log_column kind) id) ls ≡ false)
    → LogRefs db ls
    → LogRefs (without_token kind id db) ls
LogRefs-without_token kind id db ls (inl none) refs =
    All-map ls
      (λ l h.
        has_parents-without_token kind id db l.gate_token_id l.real_token_id h
          (not-parent kind id db l.gate_token_id l.real_token_id none h))
      refs
LogRefs-without_token real id db ls (inr none) refs =
    All-zip ls (λ l h k. has_parents-without_token real id db l.gate_token_id l.real_token_id h k)
      refs (All-not _ ls none)
LogRefs-without_token gate id db ls (inr none) refs =
    All-zip ls (λ l h k. has_parents-without_token gate id db l.gate_token_id l.real_token_id h k)
      refs (All-not _ ls none)

module _ (id : String) (db : Db) (w : IsWellFormed db) where
  without_real-IsWellFormed :
      StickyRefs (without_token real id db) db.sticky_sessions
      → LogRefs (without_token real id db) db.usage_logs
      → IsWellFormed (without_token real id db)
  without_real-IsWellFormed sticky logs = record {
    real_ids = Distinct-delete _ _ db.real_tokens w.real_ids;
    real_access = Distinct-delete _ _ db.real_tokens w.real_access;
    gate_ids = w.gate_ids;
    gate_texts = w.gate_texts;
    sticky_gates = w.sticky_gates;
    sticky_refs = sticky;
    log_refs = logs;
    log_ids = w.log_ids;
  }

  without_gate-IsWellFormed :
      StickyRefs (without_token gate id db) db.sticky_sessions
      → LogRefs (without_token gate id db) db.usage_logs
      → IsWellFormed (without_token gate id db)
  without_gate-IsWellFormed sticky logs = record {
    real_ids = w.real_ids;
    real_access = w.real_access;
    gate_ids = Distinct-delete _ _ db.gate_tokens w.gate_ids;
    gate_texts = Distinct-delete _ _ db.gate_tokens w.gate_texts;
    sticky_gates = w.sticky_gates;
    sticky_refs = sticky;
    log_refs = logs;
    log_ids = w.log_ids;
  }

  without_token-IsWellFormed :
      (kind : TokenKind)
      → (ltb 0 (token_count kind id db) ≡ false)
        ⊎ (exists (at (sticky_column kind) id) db.sticky_sessions ≡ false)
      → (ltb 0 (token_count kind id db) ≡ false)
        ⊎ (exists (at (log_column kind) id) db.usage_logs ≡ false)
      → IsWellFormed (without_token kind id db)
  without_token-IsWellFormed real s l =
      without_real-IsWellFormed
        (StickyRefs-without_token real id db db.sticky_sessions s w.sticky_refs)
        (LogRefs-without_token real id db db.usage_logs l w.log_refs)
  without_token-IsWellFormed gate s l =
      without_gate-IsWellFormed
        (StickyRefs-without_token gate id db db.sticky_sessions s w.sticky_refs)
        (LogRefs-without_token gate id db db.usage_logs l w.log_refs)

delete_token_row-IsWellFormed :
    (kind : TokenKind) (id : String) (db : Db)
    → IsWellFormed db
    → IsWellFormed (delete_token_row kind id db).1
unfolding delete_token_row
delete_token_row-IsWellFormed kind id db w =
    elim (Bool-cases (is_referenced kind id db && ltb 0 (token_count kind id db))) [
      | inl held ↦ rw (held, delete_token_row) w
      | inr free ↦
          rw (free, delete_token_row)
            (without_token-IsWellFormed id db w kind (ground arith) (ground arith))
    ]

pub cascade_delete-Keeps :
    (io : Io) (kind : TokenKind) (id : String) → Keeps IsWellFormed (cascade_delete io kind id)
unfolding cascade_delete
cascade_delete-Keeps io kind id = record {
  after = λ db w.
      let p = at (sticky_column kind) id in
      let q = at (log_column kind) id in
      let unstuck : Db = record db { sticky_sessions = delete p db.sticky_sessions } in
      let unlogged : Db = record unstuck { usage_logs = delete q unstuck.usage_logs } in
      let w1 = delete_sticky-IsWellFormed p db w in
      let w2 = delete_logs-IsWellFormed q unstuck w1 in
      ground (arith, w1, w2, delete_token_row-IsWellFormed kind id unlogged w2);
}

pub delete_real_token-Keeps : (io : Io) (id : String) → Keeps IsWellFormed (delete_real_token io id)
unfolding delete_real_token
delete_real_token-Keeps io id = with_tx-Keeps io (cascade_delete-Keeps io real id)

pub delete_gate_token-Keeps : (io : Io) (id : String) → Keeps IsWellFormed (delete_gate_token io id)
unfolding delete_gate_token
delete_gate_token-Keeps io id = with_tx-Keeps io (cascade_delete-Keeps io gate id)
