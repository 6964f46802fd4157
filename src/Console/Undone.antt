-- ===== src/Console/Undone.antt =====
-- Operations of internal/store that change nothing when they fail, behind the admin API.
use claude_gate.Prelude.{ℕ, String, ◌≡◌, ap, ◌∙◌, Bool, true, false, none, arith, inl, inr}
use claude_gate.Prelude.Exec.{Exec}
use claude_gate.Prelude.Result.{Error, Result, ok, err, Result-cases}
use claude_gate.Store.Table.{at}
use claude_gate.Store.Rows.{Db, RealRow, GateRow}
use claude_gate.Store.Engine.{Engine, Io, rows_affected}
use claude_gate.Store.Statements.{affecting}
use claude_gate.Store.RealTokens.{update_real}
use claude_gate.Store.GateTokens.{update_gate, insert_gate, create_gate_token}
use claude_gate.Token.Manager.{Manager, on_store}
use claude_gate.Admin.Http.{
  AdminRequest, AdminReply, data_json, error_json, hx_redirect, respond_success, Payload,
}
use claude_gate.Console.Serving.{update_none}

-- A JSON error.
abbrev pub is_error : AdminReply → Bool
is_error (data_json status payload) = false
is_error (error_json status text) = true
is_error (hx_redirect url) = false

pub success-is_error :
    (r : AdminRequest) (status : ℕ) (p : Payload) (url : String)
    → is_error (respond_success r status p url) ≡ false
unfolding respond_success
success-is_error r status p url = ground arith

-- An operation that leaves the database as it was when it fails.
pub record Undone {A : Type 0} (op : Exec Db A) (db : Db) : Type 0 where
  pub undone : (x : Error) → (op db).0 ≡ err x → (op db).1 ≡ db

module _ (io : Io) (counted : io.fault rows_affected ≡ none) (db : Db) (id : String) where
  pub real-Undone :
      (text rows_text : String) (set : RealRow → RealRow)
      → Undone (affecting io text rows_text (update_real id set)) db
  unfolding affecting update_real
  real-Undone text rows_text set = record {
    undone = λ x failed. ground (arith, update_none (at (λ r. r.id) id) set db.real_tokens);
  }

  pub gate-Undone :
      (text rows_text : String) (set : GateRow → GateRow)
      → Undone (affecting io text rows_text (update_gate id set)) db
  unfolding affecting update_gate
  gate-Undone text rows_text set = record {
    undone = λ x failed. ground (arith, update_none (at (λ r. r.id) id) set db.gate_tokens);
  }

module _ {C A : Type 0} where
  -- What a handler does with the answer of an operation of the store: an error of the operation changes
  -- nothing more, and only such an error is answered with an error.
  pub refused_by :
      (op : Exec Db A) (f : Result A → Manager C → AdminReply × Manager C) (m : Manager C)
      → Undone op m.sticky.store
      → ((a : A) (n : Manager C) → is_error (f (ok a) n).0 ≡ false)
      → ((x : Error) (n : Manager C) → (f (err x) n).1 ≡ n)
      → is_error (f (on_store op m).0 (on_store op m).1).0 ≡ true
      → (f (on_store op m).0 (on_store op m).1).1 ≡ m
  refused_by op f m u fine left bad = elim (Result-cases (op m.sticky.store).0) [
    | inl (a, done) ↦ let no_error = fine a (on_store op m).1 in absurd (ground arith)
    | inr (x, failed) ↦ rw failed (
        left x (on_store op m).1
        ∙ ap (λ db. record m { sticky = record m.sticky { store = db } }) (u.undone x failed))
  ]

module _ {A : Type 0} where
  pub read-Undone : (op : Exec Db A) (db : Db) → (op db).1 ≡ db → Undone op db
  read-Undone op db h = record { undone = λ x failed. h }

pub gate_creation-Undone :
    (e : Engine) (io : Io) (id generated name custom : String) (db : Db)
    → Undone (create_gate_token e io id generated name custom) db
unfolding create_gate_token insert_gate
gate_creation-Undone e io id generated name custom db = record { undone = λ x failed. ground arith }
