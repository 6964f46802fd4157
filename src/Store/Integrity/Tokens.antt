-- ===== src/Store/Integrity/Tokens.antt =====
-- The operations of real_token.go and gate_token.go and the schema's invariant.
use claude_gate.Prelude.{ℕ, String, ◌≡◌, refl, Bool, eqb}
use claude_gate.Prelude.Exec.{Exec}
use claude_gate.Prelude.Keeps.{
  Keeps, Keeps-pure, Keeps-raise, Keeps-lift, Keeps-wrapping, Keeps-if, Keeps-bind,
}
use claude_gate.Store.Rows.{Db, RealRow, GateRow}
use claude_gate.Store.Engine.{Engine, Io}
use claude_gate.Store.Statements.{affecting}
use claude_gate.Store.RealTokens.{
  insert_real, update_real, create_real_token, update_real_token, set_real_token_active,
  increment_real_token_failure, update_real_token_usage,
}
use claude_gate.Store.GateTokens.{
  insert_gate, update_gate, create_gate_token, update_gate_token, set_gate_token_active,
  update_gate_token_usage,
}
use claude_gate.Store.WellFormed.{IsWellFormed}
use claude_gate.Store.Integrity.{
  insert_real-IsWellFormed, insert_gate-IsWellFormed, update_real-IsWellFormed,
  update_gate-IsWellFormed,
}

insert_real-Keeps : (r : RealRow) → Keeps IsWellFormed (insert_real r)
insert_real-Keeps r = record { after = insert_real-IsWellFormed r }

insert_gate-Keeps : (r : GateRow) → Keeps IsWellFormed (insert_gate r)
insert_gate-Keeps r = record { after = insert_gate-IsWellFormed r }

update_real-Keeps :
    (id : String) (set : RealRow → RealRow)
    → ((r : RealRow) → (set r).id ≡ r.id)
    → ((r : RealRow) → (set r).access_token ≡ r.access_token)
    → Keeps IsWellFormed (update_real id set)
update_real-Keeps id set same access = record {
  after = λ db w. update_real-IsWellFormed id set same db access w;
}

update_gate-Keeps :
    (id : String) (set : GateRow → GateRow)
    → ((r : GateRow) → (set r).id ≡ r.id)
    → ((r : GateRow) → (set r).token ≡ r.token)
    → Keeps IsWellFormed (update_gate id set)
update_gate-Keeps id set same token = record {
  after = λ db w. update_gate-IsWellFormed id set same db token w;
}

affecting-Keeps :
    (io : Io) (text rows_text : String) {exec : Exec Db ℕ}
    → Keeps IsWellFormed exec
    → Keeps IsWellFormed (affecting io text rows_text exec)
unfolding affecting
affecting-Keeps io text rows_text k =
    Keeps-bind (Keeps-wrapping text (Keeps-bind (Keeps-lift _) (λ _. k))) λ n.
      Keeps-bind (Keeps-wrapping rows_text (Keeps-lift _))
        λ _. Keeps-if (eqb n 0) (Keeps-raise _) (Keeps-pure _)

module _ (e : Engine) (io : Io) (id : String) where
  pub create_real_token-Keeps :
      (name access refresh : String)
      → Keeps IsWellFormed (create_real_token e io id name access refresh)
  unfolding create_real_token
  create_real_token-Keeps name access refresh =
      Keeps-bind (Keeps-wrapping _ (Keeps-bind (Keeps-lift _) (λ _. insert_real-Keeps _)))
        λ _. Keeps-pure _

  pub update_real_token-Keeps :
      (name : String) → Keeps IsWellFormed (update_real_token e io id name)
  unfolding update_real_token
  update_real_token-Keeps name =
      affecting-Keeps io _ _ (update_real-Keeps id _ (λ r. refl) (λ r. refl))

  pub set_real_token_active-Keeps :
      (active : Bool) → Keeps IsWellFormed (set_real_token_active e io id active)
  unfolding set_real_token_active
  set_real_token_active-Keeps active =
      affecting-Keeps io _ _ (update_real-Keeps id _ (λ r. refl) (λ r. refl))

  pub increment_real_token_failure-Keeps : Keeps IsWellFormed (increment_real_token_failure e io id)
  unfolding increment_real_token_failure
  increment_real_token_failure-Keeps =
      Keeps-bind (Keeps-lift _)
        λ _. Keeps-bind (update_real-Keeps id _ (λ r. refl) (λ r. refl)) λ _. Keeps-pure _

  pub update_real_token_usage-Keeps :
      (input output : ℕ) → Keeps IsWellFormed (update_real_token_usage e io id input output)
  unfolding update_real_token_usage
  update_real_token_usage-Keeps input output =
      Keeps-bind (Keeps-lift _)
        λ _. Keeps-bind (update_real-Keeps id _ (λ r. refl) (λ r. refl)) λ _. Keeps-pure _

  pub create_gate_token-Keeps :
      (generated name custom : String)
      → Keeps IsWellFormed (create_gate_token e io id generated name custom)
  unfolding create_gate_token
  create_gate_token-Keeps generated name custom =
      Keeps-bind (Keeps-wrapping _ (Keeps-bind (Keeps-lift _) (λ _. insert_gate-Keeps _)))
        λ _. Keeps-pure _

  pub update_gate_token-Keeps :
      (name : String) → Keeps IsWellFormed (update_gate_token e io id name)
  unfolding update_gate_token
  update_gate_token-Keeps name =
      affecting-Keeps io _ _ (update_gate-Keeps id _ (λ r. refl) (λ r. refl))

  pub set_gate_token_active-Keeps :
      (active : Bool) → Keeps IsWellFormed (set_gate_token_active e io id active)
  unfolding set_gate_token_active
  set_gate_token_active-Keeps active =
      affecting-Keeps io _ _ (update_gate-Keeps id _ (λ r. refl) (λ r. refl))

  pub update_gate_token_usage-Keeps :
      (input output : ℕ) → Keeps IsWellFormed (update_gate_token_usage e io id input output)
  unfolding update_gate_token_usage
  update_gate_token_usage-Keeps input output =
      Keeps-bind (Keeps-lift _)
        λ _. Keeps-bind (update_gate-Keeps id _ (λ r. refl) (λ r. refl)) λ _. Keeps-pure _
