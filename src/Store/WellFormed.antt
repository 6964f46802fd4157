-- ===== src/Store/WellFormed.antt =====
-- The schema's invariant: keys are unique, and every sticky session and usage log refers to tokens
-- that are there.
use claude_gate.Prelude.{ℕ, ◌<◌, String, ◌≡◌, true, List, [], ◌∷◌, All, All-map}
use claude_gate.Store.Table.{Distinct}
use claude_gate.Store.Rows.{Db, UsageLog, StickyRow, empty_db}
use claude_gate.Store.Sticky.{has_parents}

-- The identifiers of the logs fall along the table, newest first, and stay under the sequence.
abbrev pub Below : ℕ → List UsageLog → Type 0
Below n [] = Unit
Below n (l ∷ ls) = (l.id < n) × Below l.id ls

abbrev pub StickyRefs : Db → List StickyRow → Type 0
StickyRefs db = All λ s. has_parents db s.gate_token_id s.real_token_id ≡ true

abbrev pub LogRefs : Db → List UsageLog → Type 0
LogRefs db = All λ l. has_parents db l.gate_token_id l.real_token_id ≡ true

pub record IsWellFormed (db : Db) : Type 0 where
  pub real_ids : Distinct (λ r. r.id) db.real_tokens
  pub real_access : Distinct (λ r. r.access_token) db.real_tokens
  pub gate_ids : Distinct (λ r. r.id) db.gate_tokens
  pub gate_texts : Distinct (λ r. r.token) db.gate_tokens
  pub sticky_gates : Distinct (λ s. s.gate_token_id) db.sticky_sessions
  pub sticky_refs : StickyRefs db db.sticky_sessions
  pub log_refs : LogRefs db db.usage_logs
  pub log_ids : Below db.next_log_id db.usage_logs

-- `db'` has every parent that `db` has.
abbrev pub KeepsParents : Db → Db → Type 0
KeepsParents db db' =
    (gate real : String) → has_parents db gate real ≡ true → has_parents db' gate real ≡ true

module _ (db db' : Db) (keeps : KeepsParents db db') where
  pub StickyRefs-mono : (ss : List StickyRow) → StickyRefs db ss → StickyRefs db' ss
  StickyRefs-mono ss = All-map ss (λ s h. keeps s.gate_token_id s.real_token_id h)

  pub LogRefs-mono : (ls : List UsageLog) → LogRefs db ls → LogRefs db' ls
  LogRefs-mono ls = All-map ls (λ l h. keeps l.gate_token_id l.real_token_id h)

pub empty-IsWellFormed : IsWellFormed empty_db
empty-IsWellFormed = record {
  real_ids = tt;
  real_access = tt;
  gate_ids = tt;
  gate_texts = tt;
  sticky_gates = tt;
  sticky_refs = tt;
  log_refs = tt;
  log_ids = tt;
}
