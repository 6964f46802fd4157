-- ===== src/Console/Serving.antt =====
-- What each operation of the admin API leaves of the rows that the pool reads.
use claude_gate.Prelude.{ℕ, String, ◌≡◌, refl, Bool, true, eqb, none, List, [], ◌∷◌, map, arith}
use claude_gate.Prelude.Result.{Error, err}
use claude_gate.Store.Table.{update, count, at}
use claude_gate.Store.Rows.{Db, RealRow, UsageLog}
use claude_gate.Store.Engine.{Engine, Io, rows_affected}
use claude_gate.Store.Statements.{affecting, with_tx, in_tx}
use claude_gate.Store.RealTokens.{
  update_real, set_real_token_active, update_real_token, create_real_token, insert_real,
  list_real_tokens,
}
use claude_gate.Store.GateTokens.{
  set_gate_token_active, update_gate_token, update_gate, create_gate_token, insert_gate,
  list_gate_tokens,
}
use claude_gate.Store.Cascade.{delete_gate_token, cascade_delete, delete_token_row}
use claude_gate.Store.Usage.{query_usage_stats}

-- What the pool takes from a row: whether it is listed, and under which identifier and secrets.
abbrev pub served : RealRow → String × String × String × ℕ × ℕ
served r = (r.id, r.access_token, r.refresh_token, r.is_active, r.failure_count)

abbrev pub serving : Db → List (String × String × String × ℕ × ℕ)
serving db = map served db.real_tokens

pub serving-update :
    (p : RealRow → Bool) (set : RealRow → RealRow)
    → ((r : RealRow) → served (set r) ≡ served r)
    → (rs : List RealRow) → map served (update p set rs) ≡ map served rs
unfolding update
serving-update p set same [] = refl
serving-update p set same (r ∷ rs) = ground (arith, same r, serving-update p set same rs)

pub update_none :
    {R : Type 0} (p : R → Bool) (set : R → R) (rs : List R)
    → eqb (count p rs) 0 ≡ true
    → update p set rs ≡ rs
unfolding update count
update_none p set [] h = refl
update_none p set (r ∷ rs) h = ground (arith, update_none p set rs)

-- The operations that only read.
pub list_real_same : (e : Engine) (io : Io) (db : Db) → (list_real_tokens e io db).1 ≡ db
unfolding list_real_tokens
list_real_same e io db = ground arith

pub list_gate_same : (e : Engine) (io : Io) (db : Db) → (list_gate_tokens e io db).1 ≡ db
unfolding list_gate_tokens
list_gate_same e io db = ground arith

pub query_same :
    (e : Engine) (io : Io) (p : UsageLog → Bool) (db : Db) → (query_usage_stats e io p db).1 ≡ db
unfolding query_usage_stats
query_same e io p db = ground arith

pub gate_deletion_real :
    (io : Io) (id : String) (db : Db) → (delete_gate_token io id db).1.real_tokens ≡ db.real_tokens
unfolding delete_gate_token cascade_delete with_tx in_tx delete_token_row
gate_deletion_real io id db = ground arith

module _ (e : Engine) (io : Io) (id : String) (db : Db) where
  affecting_failed :
      (text rows_text : String) (set : RealRow → RealRow) (x : Error)
      → io.fault rows_affected ≡ none
      → (affecting io text rows_text (update_real id set) db).0 ≡ err x
      → (affecting io text rows_text (update_real id set) db).1.real_tokens ≡ db.real_tokens
  unfolding affecting update_real
  affecting_failed text rows_text set x counted failed =
      ground (arith, update_none (at (λ r. r.id) id) set db.real_tokens)

  pub switch_failed :
      (active : Bool) (x : Error)
      → io.fault rows_affected ≡ none
      → (set_real_token_active e io id active db).0 ≡ err x
      → (set_real_token_active e io id active db).1.real_tokens ≡ db.real_tokens
  unfolding set_real_token_active
  switch_failed active x counted failed = affecting_failed _ _ _ x counted failed

  pub creation_failed :
      (name access refresh : String) (x : Error)
      → (create_real_token e io id name access refresh db).0 ≡ err x
      → (create_real_token e io id name access refresh db).1 ≡ db
  unfolding create_real_token insert_real
  creation_failed name access refresh x failed = ground arith

  pub rename_serving : (name : String) → serving (update_real_token e io id name db).1 ≡ serving db
  unfolding update_real_token affecting update_real
  rename_serving name = ground (
    arith,
    serving-update (at (λ r. r.id) id)
        (λ r. record r { name = name; updated_at = e.datetime io.now }) (λ r. refl) db.real_tokens,
  )

  pub gate_switch_real :
      (active : Bool) → (set_gate_token_active e io id active db).1.real_tokens ≡ db.real_tokens
  unfolding set_gate_token_active affecting update_gate
  gate_switch_real active = ground arith

  pub gate_rename_real :
      (name : String) → (update_gate_token e io id name db).1.real_tokens ≡ db.real_tokens
  unfolding update_gate_token affecting update_gate
  gate_rename_real name = ground arith

  pub gate_creation_real :
      (generated name custom : String)
      → (create_gate_token e io id generated name custom db).1.real_tokens ≡ db.real_tokens
  unfolding create_gate_token insert_gate
  gate_creation_real generated name custom = ground arith
