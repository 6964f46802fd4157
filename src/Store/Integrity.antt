-- ===== src/Store/Integrity.antt =====
-- The statements of internal/store and the schema's invariant.
pub mod Tokens
pub mod Sessions
pub mod Cascade
use claude_gate.Prelude.{
  ℕ, suc, ◌≤◌, ◌<◌, String, ◌≡◌, refl, Bool, true, false, not, ◌&&◌, ◌||◌, ◌==◌, List, [], ◌∷◌,
  arith, All, Bool-cases, inl, inr,
}
use claude_gate.Store.Table.{
  exists, update, delete, Distinct, at, exists-update, Distinct-update, Distinct-delete, All-update,
  All-delete,
}
use claude_gate.Store.Rows.{Db, RealRow, GateRow, UsageLog, StickyRow}
use claude_gate.Store.Engine.{Engine, Io}
use claude_gate.Store.Sticky.{has_parents, upsert_sticky}
use claude_gate.Store.RealTokens.{insert_real, update_real}
use claude_gate.Store.GateTokens.{insert_gate, update_gate}
use claude_gate.Store.Usage.{insert_log}
use claude_gate.Store.WellFormed.{
  IsWellFormed, Below, KeepsParents, StickyRefs, LogRefs, StickyRefs-mono, LogRefs-mono,
}

pub insert_real-IsWellFormed :
    (r : RealRow) (db : Db) → IsWellFormed db → IsWellFormed (insert_real r db).1
unfolding insert_real exists
insert_real-IsWellFormed r db w = ground (
  arith,
  StickyRefs-mono db (record db { real_tokens = r ∷ db.real_tokens }) (λ g k h. ground arith)
      db.sticky_sessions w.sticky_refs,
  LogRefs-mono db (record db { real_tokens = r ∷ db.real_tokens }) (λ g k h. ground arith)
      db.usage_logs w.log_refs,
)

pub insert_gate-IsWellFormed :
    (r : GateRow) (db : Db) → IsWellFormed db → IsWellFormed (insert_gate r db).1
unfolding insert_gate exists
insert_gate-IsWellFormed r db w = ground (
  arith,
  StickyRefs-mono db (record db { gate_tokens = r ∷ db.gate_tokens }) (λ g k h. ground arith)
      db.sticky_sessions w.sticky_refs,
  LogRefs-mono db (record db { gate_tokens = r ∷ db.gate_tokens }) (λ g k h. ground arith)
      db.usage_logs w.log_refs,
)

module _ (id : String) (set : RealRow → RealRow) (same : (r : RealRow) → (set r).id ≡ r.id)
    (db : Db) where
  update_real-KeepsParents : KeepsParents db (update_real id set db).1
  unfolding update_real
  update_real-KeepsParents g k h =
      ground (arith, exists-update (λ r. r.id) (at (λ r. r.id) id) set same k db.real_tokens)

  pub update_real-IsWellFormed :
      ((r : RealRow) → (set r).access_token ≡ r.access_token)
      → IsWellFormed db
      → IsWellFormed (update_real id set db).1
  unfolding update_real
  update_real-IsWellFormed same_access w = record {
    real_ids = Distinct-update _ _ _ same db.real_tokens w.real_ids;
    real_access = Distinct-update _ _ _ same_access db.real_tokens w.real_access;
    gate_ids = w.gate_ids;
    gate_texts = w.gate_texts;
    sticky_gates = w.sticky_gates;
    sticky_refs =
        StickyRefs-mono db (update_real id set db).1 update_real-KeepsParents db.sticky_sessions
          w.sticky_refs;
    log_refs =
        LogRefs-mono db (update_real id set db).1 update_real-KeepsParents db.usage_logs w.log_refs;
    log_ids = w.log_ids;
  }

module _ (id : String) (set : GateRow → GateRow) (same : (r : GateRow) → (set r).id ≡ r.id)
    (db : Db) where
  update_gate-KeepsParents : KeepsParents db (update_gate id set db).1
  unfolding update_gate
  update_gate-KeepsParents g k h =
      ground (arith, exists-update (λ r. r.id) (at (λ r. r.id) id) set same g db.gate_tokens)

  pub update_gate-IsWellFormed :
      ((r : GateRow) → (set r).token ≡ r.token)
      → IsWellFormed db
      → IsWellFormed (update_gate id set db).1
  unfolding update_gate
  update_gate-IsWellFormed same_token w = record {
    real_ids = w.real_ids;
    real_access = w.real_access;
    gate_ids = Distinct-update _ _ _ same db.gate_tokens w.gate_ids;
    gate_texts = Distinct-update _ _ _ same_token db.gate_tokens w.gate_texts;
    sticky_gates = w.sticky_gates;
    sticky_refs =
        StickyRefs-mono db (update_gate id set db).1 update_gate-KeepsParents db.sticky_sessions
          w.sticky_refs;
    log_refs =
        LogRefs-mono db (update_gate id set db).1 update_gate-KeepsParents db.usage_logs w.log_refs;
    log_ids = w.log_ids;
  }

-- An update of the rows of one gate token keeps their references, if the new real token is there.
StickyRefs-update :
    (db : Db) (row : StickyRow) (ss : List StickyRow)
    → has_parents db row.gate_token_id row.real_token_id ≡ true
    → StickyRefs db ss
    → StickyRefs db (
        update
          (at (λ x. x.gate_token_id) row.gate_token_id)
          (λ s. record s { real_token_id = row.real_token_id; expires_at = row.expires_at })
          ss)
unfolding update
StickyRefs-update db row [] h r = tt
StickyRefs-update db row (s ∷ ss) h r = ground (arith, StickyRefs-update db row ss h r.1)

-- A new list of sticky sessions that is sound leaves the database well-formed.
pub sticky-IsWellFormed :
    (db : Db) (ss : List StickyRow)
    → Distinct (λ s. s.gate_token_id) ss
    → StickyRefs db ss
    → IsWellFormed db
    → IsWellFormed (record db { sticky_sessions = ss })
sticky-IsWellFormed db ss distinct refs w = record {
  real_ids = w.real_ids;
  real_access = w.real_access;
  gate_ids = w.gate_ids;
  gate_texts = w.gate_texts;
  sticky_gates = distinct;
  sticky_refs = refs;
  log_refs = w.log_refs;
  log_ids = w.log_ids;
}

-- The same of usage logs, with their sequence.
pub logs-IsWellFormed :
    (db : Db) (n : ℕ) (ls : List UsageLog)
    → LogRefs db ls
    → Below n ls
    → IsWellFormed db
    → IsWellFormed (record db { usage_logs = ls; next_log_id = n })
logs-IsWellFormed db n ls refs below w = record {
  real_ids = w.real_ids;
  real_access = w.real_access;
  gate_ids = w.gate_ids;
  gate_texts = w.gate_texts;
  sticky_gates = w.sticky_gates;
  sticky_refs = w.sticky_refs;
  log_refs = refs;
  log_ids = below;
}

pub upsert_sticky-IsWellFormed :
    (row : StickyRow) (db : Db) → IsWellFormed db → IsWellFormed (upsert_sticky row db).1
unfolding upsert_sticky
upsert_sticky-IsWellFormed row db w =
    elim (Bool-cases (has_parents db row.gate_token_id row.real_token_id)) [
      | inr orphan ↦ rw (orphan, upsert_sticky) w
      | inl held ↦
          elim (Bool-cases
            (exists (at (λ x. x.gate_token_id) row.gate_token_id) db.sticky_sessions)) [
              | inl old ↦
                  rw (held, old, upsert_sticky)
                    (sticky-IsWellFormed db _
                      (Distinct-update _ _ _ (λ s. refl) db.sticky_sessions w.sticky_gates)
                      (StickyRefs-update db row db.sticky_sessions held w.sticky_refs) w)
              | inr new ↦
                  rw (held, new, upsert_sticky)
                    (sticky-IsWellFormed db (row ∷ db.sticky_sessions) (new, w.sticky_gates)
                      (held, w.sticky_refs) w)
            ]
    ]

pub delete_sticky-IsWellFormed :
    (p : StickyRow → Bool) (db : Db)
    → IsWellFormed db
    → IsWellFormed (record db { sticky_sessions = delete p db.sticky_sessions })
delete_sticky-IsWellFormed p db w =
    sticky-IsWellFormed db _ (Distinct-delete _ p db.sticky_sessions w.sticky_gates)
      (All-delete _ p db.sticky_sessions w.sticky_refs) w

pub insert_log-IsWellFormed :
    (e : Engine) (io : Io) (log : UsageLog) (db : Db)
    → IsWellFormed db
    → IsWellFormed (insert_log e io log db).1
unfolding insert_log
insert_log-IsWellFormed e io log db w =
    elim (Bool-cases (has_parents db log.gate_token_id log.real_token_id)) [
      | inr orphan ↦ rw (orphan, insert_log) w
      | inl held ↦
          rw (held, insert_log)
            (logs-IsWellFormed db (suc db.next_log_id)
              (record log { id = db.next_log_id; created_at = e.datetime io.now } ∷ db.usage_logs)
              (held, w.log_refs) (omega arith, w.log_ids) w)
    ]

Below-mono : (m n : ℕ) (ls : List UsageLog) → m ≤ n → Below m ls → Below n ls
Below-mono m n [] h b = tt
Below-mono m n (l ∷ ls) h b = (omega arith, b.1)

Below-delete :
    (p : UsageLog → Bool) (n : ℕ) (ls : List UsageLog) → Below n ls → Below n (delete p ls)
unfolding delete
Below-delete p n [] b = tt
Below-delete p n (l ∷ ls) b =
    ground (arith, Below-delete p l.id ls b.1, Below-mono l.id n (delete p ls))

pub delete_logs-IsWellFormed :
    (p : UsageLog → Bool) (db : Db)
    → IsWellFormed db
    → IsWellFormed (record db { usage_logs = delete p db.usage_logs })
delete_logs-IsWellFormed p db w =
    logs-IsWellFormed db db.next_log_id _ (All-delete _ p db.usage_logs w.log_refs)
      (Below-delete p _ db.usage_logs w.log_ids) w
